-- ===== src/Prelude/Appends.antt =====
-- Appended and mapped lists.
use Prim.Native.Nat.{suc, ◌+◌}
use mathlib.Core.Path.{◌≡◌, refl, ap}
use mathlib.Core.List.{List, [], ◌∷◌, ◌++◌, Memᴰ, map}
use native.Mathlib.Omega.{arith}
use node_vms.Prelude.Lists.{All, Listed, length}

pub Listed-map_of {ℓ κ} :
    {A : Type ℓ} {B : Type κ} (g : A → B) (t : List A) (a : A) → Listed a t → Listed (g a) (map g t)
Listed-map_of g [] a m = elim m [ ]
Listed-map_of g (x ∷ t) a (Memᴰ.head e) = Memᴰ.head (ap g e)
Listed-map_of g (x ∷ t) a (Memᴰ.tail m) = Memᴰ.tail (Listed-map_of g t a m)

pub All-of_map {ℓ κ} :
    {A : Type ℓ} {B : Type κ} (P : B → Type κ) (f : A → B) (xs : List A)
    → All (λ a. P (f a)) xs
    → All P (map f xs)
All-of_map P f [] h = tt
All-of_map P f (x ∷ xs) (p, h) = (p, All-of_map P f xs h)

pub All-append {ℓ κ} :
    {A : Type ℓ} (P : A → Type κ) (xs ys : List A) → All P xs → All P ys → All P (xs ++ ys)
All-append P [] ys h k = k
All-append P (x ∷ xs) ys (p, h) k = (p, All-append P xs ys h k)

pub Listed-left {ℓ} : {A : Type ℓ} (a : A) (xs ys : List A) → Listed a xs → Listed a (xs ++ ys)
Listed-left a [] ys m = elim m [ ]
Listed-left a (x ∷ xs) ys (Memᴰ.head e) = Memᴰ.head e
Listed-left a (x ∷ xs) ys (Memᴰ.tail m) = Memᴰ.tail (Listed-left a xs ys m)

pub Listed-right {ℓ} : {A : Type ℓ} (a : A) (xs ys : List A) → Listed a ys → Listed a (xs ++ ys)
Listed-right a [] ys m = m
Listed-right a (x ∷ xs) ys m = Memᴰ.tail (Listed-right a xs ys m)

pub length-append {ℓ} : {A : Type ℓ} (xs ys : List A) → length (xs ++ ys) ≡ length xs + length ys
length-append [] ys = omega arith
length-append (x ∷ xs) ys = let e = length-append xs ys in omega arith

pub length-map {ℓ κ} :
    {A : Type ℓ} {B : Type κ} (f : A → B) (xs : List A) → length (map f xs) ≡ length xs
length-map f [] = refl
length-map f (x ∷ xs) = ap suc (length-map f xs)
