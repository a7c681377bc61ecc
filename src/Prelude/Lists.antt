-- ===== src/Prelude/Lists.antt =====
-- Predicates on lists by recursion, which the tactics read, with membership.
use Prim.Native.Nat.{ℕ, suc}
use mathlib.Core.Path.{refl, subst, sym}
use mathlib.Core.Bool.{Bool}
use node_vms.Prelude.Tests.{if◌then◌else◌}
use mathlib.Core.List.{List, [], ◌∷◌, Memᴰ}

module _ {ℓ} {A : Type ℓ} where
  abbrev pub length : List A → ℕ
  length [] = 0
  length (x ∷ xs) = suc (length xs)

  abbrev pub filter_by : (A → Bool) → List A → List A
  filter_by p [] = []
  filter_by p (x ∷ xs) = let rest = filter_by p xs in if p x then x ∷ rest else rest

  abbrev pub Listed : A → List A → Type ℓ
  Listed = Memᴰ

module _ {ℓ κ} {A : Type ℓ} where
  abbrev pub All : (A → Type κ) → List A → Type κ
  All P [] = Unit
  All P (x ∷ xs) = P x × All P xs

  pub All-Listed : (P : A → Type κ) {a : A} (xs : List A) → All P xs → Listed a xs → P a
  All-Listed P [] h m = elim m [ ]
  All-Listed P (x ∷ xs) (p, h) (Memᴰ.head e) = subst P (sym e) p
  All-Listed P (x ∷ xs) (p, h) (Memᴰ.tail m) = All-Listed P xs h m

  pub All-of_Listed : (P : A → Type κ) (xs : List A) → ((a : A) → Listed a xs → P a) → All P xs
  All-of_Listed P [] f = tt
  All-of_Listed P (x ∷ xs) f = (f x (Memᴰ.head refl), All-of_Listed P xs (λ a m. f a (Memᴰ.tail m)))

module _ {ℓ κ κ'} {A : Type ℓ} where
  -- What follows pointwise follows for all the elements.
  pub All-mono :
      (P : A → Type κ) (Q : A → Type κ') (xs : List A) → ((a : A) → P a → Q a) → All P xs → All Q xs
  All-mono P Q [] f h = tt
  All-mono P Q (x ∷ xs) f (p, h) = (f x p, All-mono P Q xs f h)

module _ {ℓ κ κ' κ''} {A : Type ℓ} where
  pub All-mono₂ :
      (P : A → Type κ) (Q : A → Type κ') (R : A → Type κ'') (xs : List A)
      → ((a : A) → P a → Q a → R a)
      → All P xs
      → All Q xs
      → All R xs
  All-mono₂ P Q R [] f h k = tt
  All-mono₂ P Q R (x ∷ xs) f (p, h) (q, k) = (f x p q, All-mono₂ P Q R xs f h k)
