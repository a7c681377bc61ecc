-- ===== src/Prelude/Sums.antt =====
-- Sums over the elements of a list that meet a condition, and sums by a key.
use Prim.Native.Nat.{ℕ, ◌+◌, ◌≤◌}
use mathlib.Core.Path.{◌≡◌, refl, sym, ap, ◌∙◌, subst}
use mathlib.Core.Logic.{◌≢◌, inl, inr}
use mathlib.Core.Bool.{Bool, true, false, ◌&&◌}
use mathlib.Core.List.{List, [], ◌∷◌, Memᴰ, map}
use native.Mathlib.Omega.{arith}
use node_vms.Prelude.Tests.{◌==◌, if◌then◌else◌, Bool-cases}
use node_vms.Prelude.Lists.{All, All-Listed, All-mono, Listed}

module _ {ℓ} {A : Type ℓ} where
  abbrev pub total_of : (A → ℕ) → (A → Bool) → List A → ℕ
  total_of f p [] = 0
  total_of f p (x ∷ xs) = (if p x then f x else 0) + total_of f p xs

  abbrev pub sum_of : (A → ℕ) → List A → ℕ
  sum_of f [] = 0
  sum_of f (x ∷ xs) = f x + sum_of f xs

  abbrev pub count_of : (A → Bool) → List A → ℕ
  count_of p [] = 0
  count_of p (x ∷ xs) = (if p x then 1 else 0) + count_of p xs

  -- No two elements have one key.
  abbrev pub Keyed : (A → ℕ) → List A → Type ℓ
  Keyed key [] = Unit
  Keyed key (x ∷ xs) = All (λ y. key y ≢ key x) xs × Keyed key xs

  pub total_of-ext :
      (f : A → ℕ) (p q : A → Bool) (xs : List A)
      → ((a : A) → p a ≡ q a)
      → total_of f p xs ≡ total_of f q xs
  total_of-ext f p q [] h = refl
  total_of-ext f p q (x ∷ xs) h = ground (arith, h x, total_of-ext f p q xs h)

  -- Two conditions that split a third one.
  pub total_of_split :
      (f : A → ℕ) (p q r : A → Bool) (xs : List A)
      → ((a : A) → (if r a then f a else 0) ≡ (if p a then f a else 0) + (if q a then f a else 0))
      → total_of f r xs ≡ total_of f p xs + total_of f q xs
  total_of_split f p q r [] h = refl
  total_of_split f p q r (x ∷ xs) h = omega (arith, h x, total_of_split f p q r xs h)

  pub total_of_none :
      (f : A → ℕ) (p : A → Bool) (xs : List A) → All (λ a. p a ≡ false) xs → total_of f p xs ≡ 0
  total_of_none f p [] h = refl
  total_of_none f p (x ∷ xs) (e, h) = ground (arith, total_of_none f p xs h)

-- What holds of the images of the elements.
pub All-map_on :
    {A B : Type 0} (P : B → Type 0) (g : A → B) (xs : List A)
    → ((x : A) → Listed x xs → P (g x))
    → All P (map g xs)
All-map_on P g [] h = tt
All-map_on P g (x ∷ xs) h = (h x (Memᴰ.head refl), All-map_on P g xs (λ y m. h y (Memᴰ.tail m)))

pub Keyed-map :
    {A B : Type 0} (k : B → ℕ) (g : A → B) (xs : List A)
    → Keyed (λ x. k (g x)) xs
    → Keyed k (map g xs)
Keyed-map k g [] h = tt
Keyed-map k g (x ∷ xs) (f, h) = (
  All-map_on (λ y. k y ≢ k (g x)) g xs (λ y m. All-Listed (λ z. k (g z) ≢ k (g x)) xs f m),
  Keyed-map k g xs h,
)

module _ {ℓ κ} {A : Type ℓ} {B : Type κ} (f : A → ℕ) (p : A → Bool) (key : A → ℕ) (id : B → ℕ)
    (q : B → Bool) where
  -- What the elements of `ys` that meet `q` get of the elements of `xs`, each those with its key.
  abbrev pub shared : List A → List B → ℕ
  shared xs ys = total_of (λ b. total_of f (λ a. p a && key a == id b) xs) q ys

  -- What they get of one element.
  abbrev pub share : A → List B → ℕ
  share a ys = total_of (λ b. if p a && key a == id b then f a else 0) q ys

  shared-cons : (x : A) (xs : List A) (ys : List B) → shared (x ∷ xs) ys ≡ share x ys + shared xs ys
  shared-cons x xs [] = refl
  shared-cons x xs (y ∷ ys) = ground (arith, shared-cons x xs ys)

  shared-nil : (ys : List B) → shared [] ys ≡ 0
  shared-nil [] = refl
  shared-nil (y ∷ ys) = ground (arith, shared-nil ys)

  share_none : (a : A) (ys : List B) → All (λ y. id y ≢ key a) ys → share a ys ≡ 0
  share_none a [] h = refl
  share_none a (y ∷ ys) (ne, h) = ground (arith, share_none a ys h)

  -- Where `y` has the key, the others do not.
  share-rest :
      (a : A) (y : B) (ys : List B) → All (λ z. id z ≢ id y) ys → key a ≡ id y → share a ys ≡ 0
  share-rest a y ys fresh e =
      share_none a ys
        (All-mono (λ z. id z ≢ id y) (λ z. id z ≢ key a) ys (λ z ne g. ne (g ∙ e)) fresh)

  share-le : (a : A) (ys : List B) → Keyed id ys → share a ys ≤ (if p a then f a else 0)
  share-le a [] k = omega arith
  share-le a (y ∷ ys) (fresh, k) = elim (Bool-cases (key a == id y)) [
    | inl e ↦ let rest = share-rest a y ys fresh (ground arith) in ground arith
    | inr e ↦ ground (arith, share-le a ys k)
  ]

  share_self :
      (a : A) (b : B) (ys : List B)
      → Keyed id ys
      → Listed b ys
      → q b ≡ true
      → id b ≡ key a
      → share a ys ≡ (if p a then f a else 0)
  share_self a b [] k m hit e = elim m [ ]
  share_self a b (y ∷ ys) (fresh, k) (Memᴰ.head g) hit e =
      let rest = share-rest a y ys fresh (sym e ∙ ap id g) in
      let here : q y ≡ true = subst (λ z. q z ≡ true) g hit in
      let same : id y ≡ key a = subst (λ z. id z ≡ key a) g e in ground arith
  share_self a b (y ∷ ys) (fresh, k) (Memᴰ.tail m) hit e =
      let other = All-Listed (λ z. id z ≢ id y) ys fresh m in
      let rest = share_self a b ys k m hit e in
      let apart : id y ≢ key a = λ g. other (e ∙ sym g) in ground arith

  -- The parts never exceed the whole, since an element has one key.
  pub shared-le : (xs : List A) (ys : List B) → Keyed id ys → shared xs ys ≤ total_of f p xs
  shared-le [] ys k = omega (arith, shared-nil ys)
  shared-le (x ∷ xs) ys k = omega (arith, shared-cons x xs ys, share-le x ys k, shared-le xs ys k)

  -- They make up the whole where each element that counts has its key among the parts.
  pub shared-eq :
      (xs : List A) (ys : List B)
      → Keyed id ys
      → All (λ a. p a ≡ true → (b : B) × Listed b ys × (q b ≡ true) × (id b ≡ key a)) xs
      → shared xs ys ≡ total_of f p xs
  shared-eq [] ys k h = shared-nil ys
  shared-eq (x ∷ xs) ys k (hx, h) = elim (Bool-cases (p x)) [
    | inl e ↦
        let (b, m, hit, g) = hx e in
        omega (arith, shared-cons x xs ys, share_self x b ys k m hit g, shared-eq xs ys k h)
    | inr e ↦
        let none_of_it = share-le x ys k in
        let zero_part : (if p x then f x else 0) ≡ 0 = rw e refl in
        omega (arith, shared-cons x xs ys, none_of_it, zero_part, shared-eq xs ys k h)
  ]
