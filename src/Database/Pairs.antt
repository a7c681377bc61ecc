-- ===== src/Database/Pairs.antt =====
-- Statements about every two rows of a table, and how they pass through the writes.
use node_vms.Prelude.{
  ◌≡◌, refl, ◌⊎◌, sym, subst, inl, inr, Bool, true, false, List, [], ◌∷◌, map, Listed,
  Listed-map_of, Bool-cases, if◌then◌else◌,
}
use mathlib.Core.Path.{ap₂}
use mathlib.Core.List.{Memᴰ}
use node_vms.Database.Client.{Client}

-- The relation holds of every two rows, a row with itself included.
abbrev pub Pairs {ℓ κ} : {A : Type ℓ} → (A → A → Type κ) → List A → Type (ℓ ⊔ κ)
Pairs {A = A} R t = (a b : A) → Listed a t → Listed b t → R a b

module _ {κ} (c : Client) {A : Type 0} (R : A → A → Type κ) where
  Pairs-cons :
      (r : A) (t : List A)
      → R r r
      → ((a : A) → Listed a t → R a r × R r a)
      → Pairs R t
      → Pairs R (r ∷ t)
  Pairs-cons r t own other h a b (Memᴰ.head e) (Memᴰ.head f) =
      subst (λ x. R x b) (sym e) (subst (λ x. R r x) (sym f) own)
  Pairs-cons r t own other h a b (Memᴰ.head e) (Memᴰ.tail n) =
      subst (λ x. R x b) (sym e) (other b n).1
  Pairs-cons r t own other h a b (Memᴰ.tail m) (Memᴰ.head f) =
      subst (λ x. R a x) (sym f) (other a m).0
  Pairs-cons r t own other h a b (Memᴰ.tail m) (Memᴰ.tail n) = h a b m n

  pub Pairs-insert :
      (r : A) (t : List A)
      → R r r
      → ((a : A) → Listed a t → R a r × R r a)
      → Pairs R t
      → Pairs R (c.insert r t)
  Pairs-insert r t own other h = rw (c.insert_rows r t) (Pairs-cons r t own other h)

Listed-cons {ℓ} :
    {A : Type ℓ} (r : A) (t : List A) (a : A) → Listed a (r ∷ t) → (a ≡ r) ⊎ Listed a t
Listed-cons r t a (Memᴰ.head e) = inl e
Listed-cons r t a (Memᴰ.tail m) = inr m

module _ {A : Type 0} (g : A → A) where
  Listed-map : (t : List A) (a : A) → Listed a (map g t) → (b : A) × Listed b t × (a ≡ g b)
  Listed-map [] a m = elim m [ ]
  Listed-map (x ∷ t) a (Memᴰ.head e) = (x, Memᴰ.head refl, e)
  Listed-map (x ∷ t) a (Memᴰ.tail m) = let (b, n, e) = Listed-map t a m in (b, Memᴰ.tail n, e)

-- A row of the new table is an old one, with `f` applied where it meets the condition.
abbrev pub changed {ℓ} : {A : Type ℓ} → (A → Bool) → (A → A) → A → A
changed p f a = if p a then f a else a

module _ (c : Client) {A : Type 0} (p : A → Bool) (f : A → A) (t : List A) (a : A) where
  pub Listed-update : Listed a (c.update p f t) → (b : A) × Listed b t × (a ≡ changed p f b)
  Listed-update m = Listed-map (changed p f) t a (rw (c.update_rows p f t) at m)

  pub Listed-changed : Listed a t → Listed (changed p f a) (c.update p f t)
  Listed-changed m = rw (c.update_rows p f t) (Listed-map_of (changed p f) t a m)

module _ {κ} (c : Client) {A : Type 0} (R : A → A → Type κ) (p : A → Bool) (f : A → A) where
  pub Pairs-update :
      (t : List A)
      → ((a b : A) → Listed a t → Listed b t → R a b → R (changed p f a) (changed p f b))
      → Pairs R t
      → Pairs R (c.update p f t)
  Pairs-update t k h a b m n =
      let (a', m', ea) = Listed-update c p f t a m in
      let (b', n', eb) = Listed-update c p f t b n in rw (ea, eb) (k a' b' m' n' (h a' b' m' n'))

-- A row of the table after an insertion is the new one or an old one.
pub Listed-inserted :
    (c : Client) {A : Type 0} (t : List A) (a r : A)
    → Listed a (c.insert r t)
    → (a ≡ r) ⊎ Listed a t
Listed-inserted c t a r m = Listed-cons r t a (rw (c.insert_rows r t) at m)

map-map_id {ℓ} :
    {A : Type ℓ} (f g : A → A) (t : List A)
    → ((a : A) → Listed a t → g (f a) ≡ a)
    → map g (map f t) ≡ t
map-map_id f g [] h = refl
map-map_id f g (x ∷ t) h =
    ap₂ ◌∷◌ (h x (Memᴰ.head refl)) (map-map_id f g t (λ a m. h a (Memᴰ.tail m)))

-- A second write that undoes the first on every row that it touched restores the table.
pub update-update_undo :
    (c : Client) {A : Type 0} (p : A → Bool) (f g : A → A) (t : List A)
    → ((a : A) → Listed a t → p a ≡ true → (p (f a) ≡ true) × (g (f a) ≡ a))
    → c.update p g (c.update p f t) ≡ t
update-update_undo c p f g t h =
    rw (c.update_rows p g (c.update p f t), c.update_rows p f t)
      (map-map_id (changed p f) (changed p g) t λ a m. elim (Bool-cases (p a)) [
        | inl e ↦ let (e', u) = h a m e in rw (e, e') u
        | inr e ↦ rw (e, e) refl
      ])

module _ {κ} (c : Client) {A : Type 0} (Q : A → Type κ) where
  -- What a write makes true of the rows that it touches, and what was true of the others.
  pub Listed-update_elim :
      (p : A → Bool) (f : A → A) (t : List A)
      → ((a : A) → Listed a t → p a ≡ true → Q (f a))
      → ((a : A) → Listed a t → p a ≡ false → Q a)
      → (b : A) → Listed b (c.update p f t)
      → Q b
  Listed-update_elim p f t touched other b m =
      let (a, n, e) = Listed-update c p f t b m in
      rw e (elim (Bool-cases (p a)) [ inl k ↦ rw k (touched a n k) | inr k ↦ rw k (other a n k) ])
