-- ===== src/Database/Lookup.antt =====
-- What the laws of the client say of a table: what a lookup finds, and how a predicate that holds
-- of every row passes through the writes.
use node_vms.Prelude.{
  ◌≡◌, refl, ◌↔◌, inl, inr, Bool, true, false, none, some, List, [], ◌∷◌, map, All, All-Listed,
  Listed, Bool-cases, Option-cases, if◌then◌else◌, true≢false,
}
use mathlib.Core.List.{Memᴰ}
use node_vms.Database.Client.{Client}

-- No two rows of the table meet the condition, such as one on the primary key.
abbrev pub Unique {ℓ} : {A : Type ℓ} → (A → Bool) → List A → Type ℓ
Unique {A = A} p t = (a b : A) → Listed a t → Listed b t → p a ≡ true → p b ≡ true → a ≡ b

module _ (c : Client) {A : Type 0} (p : A → Bool) (t : List A) where
  -- `findFirst` is null exactly when no row meets the condition.
  pub find_first-none_iff : (c.find_first p t ≡ none) ↔ All (λ a. p a ≡ false) t
  find_first-none_iff = (
    c.find_first-none p t,
    λ h. elim (Option-cases (c.find_first p t)) [
      | inl e ↦ e
      | inr (a, e) ↦
          let (m, hit) = c.find_first-some p t a e in absurd (true≢false hit (All-Listed _ t h m))
    ],
  )

  pub find_first-total : (a : A) → Listed a t → p a ≡ true → (b : A) × (c.find_first p t ≡ some b)
  find_first-total a m hit = elim (Option-cases (c.find_first p t)) [
    | inl e ↦ absurd (true≢false hit (All-Listed _ t (c.find_first-none p t e) m))
    | inr found ↦ found
  ]

  pub find_first-Unique : (a : A) → Unique p t → Listed a t → p a ≡ true → c.find_first p t ≡ some a
  find_first-Unique a u m hit =
      let (b, e) = find_first-total a m hit in
      let (mb, hb) = c.find_first-some p t b e in rw (u a b m mb hit hb) e

module _ {κ} (c : Client) {A : Type 0} (P : A → Type κ) where
  pub All-insert : (a : A) (t : List A) → P a → All P t → All P (c.insert a t)
  All-insert a t q h = rw (c.insert_rows a t) (q, h)

  All-map_if :
      (p : A → Bool) (f : A → A) (t : List A)
      → ((a : A) → P a → p a ≡ true → P (f a))
      → All P t
      → All P (map (λ a. if p a then f a else a) t)
  All-map_if p f [] k h = tt
  All-map_if p f (a ∷ t) k (q, h) = elim (Bool-cases (p a)) [
    | inl e ↦ rw e (k a q e, All-map_if p f t k h)
    | inr e ↦ rw e (q, All-map_if p f t k h)
  ]

  pub All-update :
      (p : A → Bool) (f : A → A) (t : List A)
      → ((a : A) → P a → p a ≡ true → P (f a))
      → All P t
      → All P (c.update p f t)
  All-update p f t k h = rw (c.update_rows p f t) (All-map_if p f t k h)

module _ (c : Client) {A : Type 0} {a : A} (t : List A) where
  pub Listed-insert_self : Listed a (c.insert a t)
  Listed-insert_self = rw (c.insert_rows a t) (Memᴰ.head refl)

  pub Listed-insert : (b : A) → Listed a t → Listed a (c.insert b t)
  Listed-insert b m = rw (c.insert_rows b t) (Memᴰ.tail m)
