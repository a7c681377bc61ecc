-- ===== src/Database/GroupLists.antt =====
-- The interface `Aggregates` over plain lists, for the tests: the groups in table order.
use node_vms.Prelude.{
  ℕ, ◌≡◌, ◌≢◌, refl, sym, ap, subst, ◌∙◌, inl, inr, Bool, true, false, ◌&&◌, ◌||◌, some, List, [],
  ◌∷◌, map, All, Listed, Bool-cases, filter_by, if◌then◌else◌, ◌==◌, total_of, count_of, sum_of,
  Keyed, Keyed-map, get_or, arith,
}
use mathlib.Core.List.{Memᴰ}
use node_vms.Database.Lists.{lists}
use node_vms.Database.Aggregates.{Aggregates, Group}

abbrev pub has : ℕ → List ℕ → Bool
has k [] = false
has k (x ∷ xs) = x == k || has k xs

module _ {A : Type 0} (key : A → ℕ) (p : A → Bool) where
  abbrev pub keys_of : List A → List ℕ
  keys_of [] = []
  keys_of (x ∷ t) =
      let rest = keys_of t in
      if p x then (if has (key x) rest then rest else key x ∷ rest) else rest

  abbrev pub group_at : List A → ℕ → Group A
  group_at t k = record {
    key = k;
    total = λ f. some (total_of f (λ a. p a && key a == k) t);
    count = count_of (λ a. p a && key a == k) t;
  }

  absent : (k : ℕ) (ks : List ℕ) → has k ks ≡ false → All (λ j. j ≢ k) ks
  absent k [] e = tt
  absent k (x ∷ xs) e = ((λ g. ground arith), absent k xs (ground arith))

  present : (k : ℕ) (ks : List ℕ) → has k ks ≡ true → Listed k ks
  present k [] e = absurd (cc)
  present k (x ∷ xs) e = elim (Bool-cases (x == k)) [
    | inl f ↦ Memᴰ.head (ground arith)
    | inr f ↦ Memᴰ.tail (present k xs (ground arith))
  ]

  pub keys-Keyed : (t : List A) → Keyed (λ k. k) (keys_of t)
  keys-Keyed [] = tt
  keys-Keyed (x ∷ t) = elim (Bool-cases (p x)) [
    | inr e ↦ rw e (keys-Keyed t)
    | inl e ↦ elim (Bool-cases (has (key x) (keys_of t))) [
      | inl f ↦ rw (e, f) (keys-Keyed t)
      | inr f ↦ rw (e, f) (absent (key x) (keys_of t) f, keys-Keyed t)
    ]
  ]

  keys_complete : (t : List A) (a : A) → Listed a t → p a ≡ true → Listed (key a) (keys_of t)
  keys_complete [] a m e = elim m [ ]
  keys_complete (x ∷ t) a (Memᴰ.head g) e =
      let hit : p x ≡ true = subst (λ y. p y ≡ true) g e in
      elim (Bool-cases (has (key x) (keys_of t))) [
        | inl f ↦ rw (hit, f, g) (present (key x) (keys_of t) f)
        | inr f ↦ rw (hit, f, g) (Memᴰ.head refl)
      ]
  keys_complete (x ∷ t) a (Memᴰ.tail m) e =
      let later = keys_complete t a m e in
      elim (Bool-cases (p x)) [
        | inr f ↦ rw f later
        | inl f ↦ elim (Bool-cases (has (key x) (keys_of t))) [
          | inl g ↦ rw (f, g) later
          | inr g ↦ rw (f, g) (Memᴰ.tail later)
        ]
      ]

  -- A group of the list is that of its key.
  grouped :
      (t : List A) (ks : List ℕ) (g : Group A)
      → Listed g (map (group_at t) ks)
      → g ≡ group_at t g.key
  grouped t [] g m = elim m [ ]
  grouped t (k ∷ ks) g (Memᴰ.head e) = e ∙ sym (ap (λ x. group_at t x.key) e)
  grouped t (k ∷ ks) g (Memᴰ.tail m) = grouped t ks g m

  Listed-groups :
      (t : List A) (ks : List ℕ) (k : ℕ) → Listed k ks → Listed (group_at t k) (map (group_at t) ks)
  Listed-groups t [] k m = elim m [ ]
  Listed-groups t (x ∷ ks) k (Memᴰ.head e) = Memᴰ.head (ap (group_at t) e)
  Listed-groups t (x ∷ ks) k (Memᴰ.tail m) = Memᴰ.tail (Listed-groups t ks k m)

  abbrev pub groups_of : List A → List (Group A)
  groups_of t = map (group_at t) (keys_of t)

  pub groups_total :
      (t : List A) (g : Group A)
      → Listed g (groups_of t)
      → (f : A → ℕ) → get_or (g.total f) 0 ≡ total_of f (λ a. p a && key a == g.key) t
  groups_total t g m f = ap (λ x. get_or (x.total f) 0) (grouped t (keys_of t) g m)

  pub groups_count :
      (t : List A) (g : Group A)
      → Listed g (groups_of t)
      → g.count ≡ count_of (λ a. p a && key a == g.key) t
  groups_count t g m = ap (λ x. x.count) (grouped t (keys_of t) g m)

  pub groups_complete :
      (t : List A) (a : A)
      → Listed a t
      → p a ≡ true
      → (g : Group A) × Listed g (groups_of t) × (g.key ≡ key a)
  groups_complete t a m e =
      (group_at t (key a), Listed-groups t (keys_of t) (key a) (keys_complete t a m e), refl)

pub filter_by-sum_of :
    {A : Type 0} (f : A → ℕ) (p : A → Bool) (t : List A) → sum_of f (filter_by p t) ≡ total_of f p t
filter_by-sum_of f p [] = refl
filter_by-sum_of f p (x ∷ t) = ground (arith, filter_by-sum_of f p t)

abbrev pub list_groups : Aggregates lists
list_groups = record {
  sum = λ f p t. some (total_of f p t);
  sum_total = λ f p t. refl;
  group_by = groups_of;
  group_by_keyed =
      λ key p t. Keyed-map (λ g. g.key) (group_at key p t) (keys_of key p t) (keys-Keyed key p t);
  group_by_total = groups_total;
  group_by_count = groups_count;
  group_by_complete = groups_complete;
  find_many_sum = filter_by-sum_of;
}
