-- ===== src/Database/Lists.antt =====
-- The interface `Client` over plain lists, for the tests: the first row found, in table order.
use node_vms.Prelude.{
  ◌≡◌, refl, inl, inr, Bool, true, false, Option, none, some, List, [], ◌∷◌, map, All, All-mono,
  Listed, Bool-cases, filter_by, if◌then◌else◌, arith,
}
use mathlib.Core.List.{Memᴰ}
use node_vms.Database.Client.{Client}

module _ {A : Type 0} (p : A → Bool) where
  abbrev pub first : List A → Option A
  first [] = none
  first (a ∷ t) = let rest = first t in if p a then some a else rest

  pub first-some : (t : List A) (a : A) → first t ≡ some a → Listed a t × (p a ≡ true)
  first-some [] a e = cc
  first-some (x ∷ t) a e = elim (Bool-cases (p x)) [
    | inl hit ↦ let same : x ≡ a = ground arith in rw (← same) (Memᴰ.head refl, hit)
    | inr miss ↦ let (m, h) = first-some t a (ground arith) in (Memᴰ.tail m, h)
  ]

  pub first-none : (t : List A) → first t ≡ none → All (λ a. p a ≡ false) t
  first-none [] e = tt
  first-none (x ∷ t) e = elim (Bool-cases (p x)) [
    | inl hit ↦ ground arith
    | inr miss ↦ (miss, first-none t (ground arith))
  ]

  pub filter_by_sound : (t : List A) → All (λ a. Listed a t × (p a ≡ true)) (filter_by p t)
  filter_by_sound [] = tt
  filter_by_sound (x ∷ t) =
      let later =
        All-mono (λ a. Listed a t × (p a ≡ true)) (λ a. Listed a (x ∷ t) × (p a ≡ true))
          (filter_by p t) (λ a h. (Memᴰ.tail h.0, h.1)) (filter_by_sound t) in
      elim (Bool-cases (p x)) [
        | inl hit ↦ rw (hit, All) ((Memᴰ.head refl, hit), later)
        | inr miss ↦ rw (miss, All) later
      ]

  pub filter_by_complete : (t : List A) (a : A) → Listed a t → p a ≡ true → Listed a (filter_by p t)
  filter_by_complete [] a m h = elim m [ ]
  filter_by_complete (x ∷ t) a (Memᴰ.head e) h = rw (rw e at h) (Memᴰ.head e)
  filter_by_complete (x ∷ t) a (Memᴰ.tail m) h =
      let later = filter_by_complete t a m h in
      elim (Bool-cases (p x)) [ inl hit ↦ rw hit (Memᴰ.tail later) | inr miss ↦ rw miss later ]

abbrev pub lists : Client
lists = record {
  find_first = first;
  find_first-some = first-some;
  find_first-none = first-none;
  find_many = filter_by;
  find_many-sound = filter_by_sound;
  find_many-complete = filter_by_complete;
  insert = λ a t. a ∷ t;
  insert_rows = λ a t. refl;
  update = λ p f t. map (λ a. if p a then f a else a) t;
  update_rows = λ p f t. refl;
  delete = λ p t. filter_by (λ a. if p a then false else true) t;
  delete_rows = λ p t. refl;
}
