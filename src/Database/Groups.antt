-- ===== src/Database/Groups.antt =====
-- What the rows of `groupBy` add up to.
use node_vms.Prelude.{
  ℕ, ◌≡◌, refl, sym, ◌∙◌, inl, inr, Bool, true, false, ◌&&◌, Option, none, some, List, [], ◌∷◌,
  get_or, ◌==◌, if◌then◌else◌, Bool-cases, subst, Listed, All, All-Listed, All-of_Listed, arith,
  total_of, total_of_none, sum_of, count_of, shared, shared-eq,
}
use mathlib.Core.List.{Memᴰ}
use node_vms.Database.Client.{Client}
use node_vms.Database.Aggregates.{Aggregates, Group}

-- `groups.find((g) => g.key === k)`
abbrev pub find_group : {A : Type 0} → List (Group A) → ℕ → Option (Group A)
find_group [] k = none
find_group (g ∷ gs) k = let rest = find_group gs k in if g.key == k then some g else rest

-- `found?._sum.f ?? 0`
abbrev pub total_or_zero : {A : Type 0} → (A → ℕ) → Option (Group A) → ℕ
total_or_zero f none = 0
total_or_zero f (some g) = get_or (g.total f) 0

-- `found?._count._all ?? 0`
abbrev pub count_or_zero : {A : Type 0} → Option (Group A) → ℕ
count_or_zero none = 0
count_or_zero (some g) = g.count

pub count_of_total : {A : Type 0} (p : A → Bool) (t : List A) → count_of p t ≡ total_of (λ _. 1) p t
count_of_total p [] = refl
count_of_total p (x ∷ t) = ground (arith, count_of_total p t)

pub sum_of_all : {A : Type 0} (f : A → ℕ) (t : List A) → sum_of f t ≡ total_of f (λ _. true) t
sum_of_all f [] = refl
sum_of_all f (x ∷ t) = ground (arith, sum_of_all f t)

pub sum_of-ext :
    {A : Type 0} (f g : A → ℕ) (t : List A)
    → ((a : A) → Listed a t → f a ≡ g a)
    → sum_of f t ≡ sum_of g t
sum_of-ext f g [] h = refl
sum_of-ext f g (x ∷ t) h =
    omega (arith, h x (Memᴰ.head refl), sum_of-ext f g t (λ a m. h a (Memᴰ.tail m)))

data Found {A : Type 0} (gs : List (Group A)) (k : ℕ) : Option (Group A) → Type 0 where
  missing : All (λ g. g.key == k ≡ false) gs → Found gs k none
  hit : (g : Group A) → Listed g gs → g.key ≡ k → Found gs k (some g)

later-Found :
    {A : Type 0} (g : Group A) (gs : List (Group A)) (k : ℕ) (o : Option (Group A))
    → g.key == k ≡ false
    → Found gs k o
    → Found (g ∷ gs) k o
later-Found g gs k none e (Found.missing h) = Found.missing (e, h)
later-Found g gs k (some x) e (Found.hit y m f) = Found.hit y (Memᴰ.tail m) f

find_group-Found : {A : Type 0} (gs : List (Group A)) (k : ℕ) → Found gs k (find_group gs k)
find_group-Found [] k = Found.missing tt
find_group-Found (g ∷ gs) k = elim (Bool-cases (g.key == k)) [
  | inl e ↦ rw e (Found.hit g (Memᴰ.head refl) (ground arith))
  | inr e ↦ rw e (later-Found g gs k (find_group gs k) e (find_group-Found gs k))
]

module _ (c : Client) (a : Aggregates c) {A : Type 0} (key : A → ℕ) (p : A → Bool)
    (t : List A) where
  abbrev groups : List (Group A)
  groups = a.group_by key p t

  -- Where no group has the key, no row does.
  none_keyed :
      (k : ℕ) → All (λ g. g.key == k ≡ false) groups → All (λ x. (p x && key x == k) ≡ false) t
  none_keyed k h = All-of_Listed _ t (λ x m. elim (Bool-cases (p x)) [
    | inl e ↦
        let (g, mg, same) = a.group_by_complete key p t x m e in
        let miss : g.key == k ≡ false = All-Listed _ groups h mg in ground arith
    | inr e ↦ rw e refl
  ])

  total_or_zero_lem :
      (f : A → ℕ) (k : ℕ) (o : Option (Group A))
      → Found groups k o
      → total_or_zero f o ≡ total_of f (λ x. p x && key x == k) t
  total_or_zero_lem f k none (Found.missing h) =
      sym (total_of_none f (λ x. p x && key x == k) t (none_keyed k h))
  total_or_zero_lem f k (some g) (Found.hit x m e) =
      subst (λ j. get_or (x.total f) 0 ≡ total_of f (λ x. p x && key x == j) t) e
        (a.group_by_total key p t x m f)

  count_or_zero_lem :
      (k : ℕ) (o : Option (Group A))
      → Found groups k o
      → count_or_zero o ≡ count_of (λ x. p x && key x == k) t
  count_or_zero_lem k none (Found.missing h) =
      sym (count_of_total _ t ∙ total_of_none (λ _. 1) (λ x. p x && key x == k) t (none_keyed k h))
  count_or_zero_lem k (some g) (Found.hit x m e) =
      subst (λ j. x.count ≡ count_of (λ x. p x && key x == j) t) e (a.group_by_count key p t x m)

  pub total-find_group :
      (f : A → ℕ) (k : ℕ)
      → total_or_zero f (find_group groups k) ≡ total_of f (λ x. p x && key x == k) t
  total-find_group f k = total_or_zero_lem f k (find_group groups k) (find_group-Found groups k)

  pub count-find_group :
      (k : ℕ) → count_or_zero (find_group groups k) ≡ count_of (λ x. p x && key x == k) t
  count-find_group k = count_or_zero_lem k (find_group groups k) (find_group-Found groups k)

  shared_all : (f : A → ℕ) → shared f p key (λ g. g.key) (λ _. true) t groups ≡ total_of f p t
  shared_all f =
      shared-eq f p key (λ g. g.key) (λ _. true) t groups (a.group_by_keyed key p t)
        (All-of_Listed _ t
          (λ x m e. let (g, mg, same) = a.group_by_complete key p t x m e in (g, mg, refl, same)))

  -- The groups make up the table.
  pub groups_total : (f : A → ℕ) → sum_of (λ g. get_or (g.total f) 0) groups ≡ total_of f p t
  groups_total f =
      sum_of-ext _ (λ g. total_of f (λ x. p x && key x == g.key) t) groups
        (λ g m. a.group_by_total key p t g m f)
      ∙ sum_of_all _ groups
      ∙ shared_all f

  pub groups_count : sum_of (λ g. g.count) groups ≡ count_of p t
  groups_count =
      sum_of-ext _ (λ g. total_of (λ _. 1) (λ x. p x && key x == g.key) t) groups
        (λ g m. a.group_by_count key p t g m ∙ count_of_total (λ x. p x && key x == g.key) t)
      ∙ sum_of_all _ groups
      ∙ shared_all (λ _. 1)
      ∙ sym (count_of_total p t)
