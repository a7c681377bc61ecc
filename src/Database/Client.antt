-- ===== src/Database/Client.antt =====
-- The queries of the Prisma client, over a table as the list of its rows.
use node_vms.Prelude.{◌≡◌, Bool, true, false, Option, none, some, List, ◌∷◌, map, All}
use node_vms.Prelude.{if◌then◌else◌, filter_by, Listed}

-- `find_first` returns some row that meets `where`, and the choice is the database's; `insert`,
-- `update` and `delete` are the statements behind `create`, `update`/`updateMany` and `deleteMany`.
pub record Client : Type 1 where
  pub find_first : {A : Type 0} → (A → Bool) → List A → Option A
  pub find_first-some :
      {A : Type 0} (p : A → Bool) (t : List A) (a : A)
      → find_first p t ≡ some a
      → Listed a t × (p a ≡ true)
  pub find_first-none :
      {A : Type 0} (p : A → Bool) (t : List A) → find_first p t ≡ none → All (λ a. p a ≡ false) t
  pub find_many : {A : Type 0} → (A → Bool) → List A → List A
  pub find_many-sound :
      {A : Type 0} (p : A → Bool) (t : List A)
      → All (λ a. Listed a t × (p a ≡ true)) (find_many p t)
  pub find_many-complete :
      {A : Type 0} (p : A → Bool) (t : List A) (a : A)
      → Listed a t
      → p a ≡ true
      → Listed a (find_many p t)
  pub insert : {A : Type 0} → A → List A → List A
  pub insert_rows : {A : Type 0} (a : A) (t : List A) → insert a t ≡ a ∷ t
  pub update : {A : Type 0} → (A → Bool) → (A → A) → List A → List A
  pub update_rows :
      {A : Type 0} (p : A → Bool) (f : A → A) (t : List A)
      → update p f t ≡ map (λ a. if p a then f a else a) t
  pub delete : {A : Type 0} → (A → Bool) → List A → List A
  pub delete_rows :
      {A : Type 0} (p : A → Bool) (t : List A)
      → delete p t ≡ filter_by (λ a. if p a then false else true) t
