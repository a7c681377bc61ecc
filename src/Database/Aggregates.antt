-- ===== src/Database/Aggregates.antt =====
-- Prisma's `aggregate` and `groupBy`, as an interface: what the database computes over a table.
use node_vms.Prelude.{
  ℕ, ◌≡◌, Bool, true, ◌&&◌, Option, List, get_or, ◌==◌, Listed, total_of, sum_of, count_of, Keyed,
}
use node_vms.Database.Client.{Client}
use node_vms.Database.Action.{Db, Action}
use node_vms.Database.Errors.{ok}

-- A row of `groupBy`: the key, `_sum` of each column, which is null where nothing is summed, and
-- `_count._all`.
pub record Group (A : Type 0) : Type 0 where
  pub key : ℕ
  pub total : (A → ℕ) → Option ℕ
  pub count : ℕ

-- `group_by` gives one group for each key that a row of `where` has. The last law is about
-- `findMany`: it returns each row as often as the table has it.
pub record Aggregates (c : Client) : Type 1 where
  pub sum : {A : Type 0} → (A → ℕ) → (A → Bool) → List A → Option ℕ
  pub sum_total :
      {A : Type 0} (f : A → ℕ) (p : A → Bool) (t : List A) → get_or (sum f p t) 0 ≡ total_of f p t
  pub group_by : {A : Type 0} → (A → ℕ) → (A → Bool) → List A → List (Group A)
  pub group_by_keyed :
      {A : Type 0} (key : A → ℕ) (p : A → Bool) (t : List A) → Keyed (λ g. g.key) (group_by key p t)
  pub group_by_total :
      {A : Type 0} (key : A → ℕ) (p : A → Bool) (t : List A) (g : Group A)
      → Listed g (group_by key p t)
      → (f : A → ℕ) → get_or (g.total f) 0 ≡ total_of f (λ a. p a && key a == g.key) t
  pub group_by_count :
      {A : Type 0} (key : A → ℕ) (p : A → Bool) (t : List A) (g : Group A)
      → Listed g (group_by key p t)
      → g.count ≡ count_of (λ a. p a && key a == g.key) t
  pub group_by_complete :
      {A : Type 0} (key : A → ℕ) (p : A → Bool) (t : List A) (a : A)
      → Listed a t
      → p a ≡ true
      → (g : Group A) × Listed g (group_by key p t) × (g.key ≡ key a)
  pub find_many_sum :
      {A : Type 0} (f : A → ℕ) (p : A → Bool) (t : List A)
      → sum_of f (c.find_many p t) ≡ total_of f p t

module _ (c : Client) (a : Aggregates c) where
  -- `aggregate` with one `_sum`.
  abbrev pub aggregate : {A : Type 0} → (Db → List A) → (A → ℕ) → (A → Bool) → Action (Option ℕ)
  aggregate table f p s = (ok (a.sum f p (table s)), s)

  abbrev pub group_rows :
      {A : Type 0} → (Db → List A) → (A → ℕ) → (A → Bool) → Action (List (Group A))
  group_rows table key p s = (ok (a.group_by key p (table s)), s)
