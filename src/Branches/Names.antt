-- ===== src/Branches/Names.antt =====
-- branches.service.ts: the names of a tenant's branches.
use node_vms.Prelude.{
  ℕ, ◌≡◌, ◌≢◌, refl, sym, ap, ◌∙◌, ◌⊎◌, inl, inr, true, false, none, some, arith, All, All-Listed,
  Listed, Bool-cases, Option-cases, get_or, ◌==◌,
}
use node_vms.Schema.{Branch}
use node_vms.Database.Client.{Client}
use node_vms.Database.Action.{Db, put_branches}
use node_vms.Database.Pairs.{Pairs, Pairs-insert, Pairs-update, changed, Listed-changed}
use node_vms.Database.Lookup.{find_first-Unique}
use node_vms.EntityValidator.{is_branch}
use node_vms.Branches.{
  CreateBranchDto, UpdateBranchDto, new_branch, has_branch_key, named, other_named, edited, create,
  update,
}

-- Two rows of the branch table: the id is a key, and two branches of one tenant that are not
-- deleted have different names.
pub record Distinct (a b : Branch) : Type 0 where
  pub key : a.id ≡ b.id → a ≡ b
  pub name :
      a.id ≢ b.id
      → a.tenant_id ≡ b.tenant_id
      → a.deleted_at ≡ none
      → b.deleted_at ≡ none
      → a.name ≢ b.name

abbrev pub DistinctBranches : Db → Type 0
DistinctBranches s = Pairs Distinct s.branches

Distinct-of_eq : {a b : Branch} → a ≡ b → Distinct a b
Distinct-of_eq e = record { key = λ _. e; name = λ ne _ _ _ _. ne (ap (λ x. x.id) e) }

module _ (c : Client) (id tenant_id : ℕ) (dto : CreateBranchDto) (s : Db) where
  create_cases :
      ((create c id tenant_id dto s).1 ≡ s)
      ⊎ ((c.find_first (named tenant_id dto.name) s.branches ≡ none)
          × ((create c id tenant_id dto s).1
              ≡ put_branches (c.insert (new_branch id tenant_id dto) s.branches) s))
  unfolding create
  create_cases = elim (Option-cases (c.find_first (named tenant_id dto.name) s.branches)) [
    | inl e ↦ inr (e, ground arith)
    | inr (b, e) ↦ inl (ground arith)
  ]

  -- If no two branches of one tenant have one name, creating a branch under a fresh id, or being
  -- refused, leaves none that do. Deleted branches do not count.
  pub create-DistinctBranches :
      All (λ b. b.id ≢ id) s.branches
      → DistinctBranches s
      → DistinctBranches (create c id tenant_id dto s).1
  create-DistinctBranches fresh h = elim create_cases [
    | inl e ↦ rw e h
    | inr (free, e) ↦ rw e (
        Pairs-insert c Distinct (new_branch id tenant_id dto) s.branches (Distinct-of_eq refl)
          (λ a m.
            let ne : a.id ≢ id = All-Listed _ s.branches fresh m in
            let other = All-Listed _ s.branches (c.find_first-none _ _ free) m in
            (
              record { key = λ g. absurd (ne g); name = λ _ t live _ g. ground arith },
              record { key = λ g. absurd (ne (sym g)); name = λ _ t _ live g. ground arith },
            ))
          h)
  ]

module _ (c : Client) (tenant_id id : ℕ) (dto : UpdateBranchDto) (s : Db)
    (h : DistinctBranches s) where
  -- The new name is the old one or no other branch of the tenant has it.
  abbrev Free : Branch → Type 0
  Free b =
      (get_or dto.name b.name ≡ b.name)
      ⊎ ((k : ℕ) × (dto.name ≡ some k)
          × (c.find_first (other_named tenant_id id k) s.branches ≡ none))

  update_cases :
      dto.name ≢ some 0
      → ((update c tenant_id id dto s).1 ≡ s)
        ⊎ ((b : Branch) × (c.find_first (is_branch tenant_id id) s.branches ≡ some b)
            × Free b
            × ((update c tenant_id id dto s).1
                ≡ put_branches (c.update (has_branch_key id) (edited dto) s.branches) s))
  unfolding update
  update_cases ne = elim (Option-cases (c.find_first (is_branch tenant_id id) s.branches)) [
    | inl e ↦ inl (ground arith)
    | inr (b, e) ↦ elim (Option-cases (c.find_first (has_branch_key id) s.branches)) [
      | inl f ↦ inl (ground arith)
      | inr (x, f) ↦ elim (Option-cases dto.name) [
        | inl g ↦ inr (b, e, inl (ground arith), ground arith)
        | inr (k, g) ↦ elim (Bool-cases (k == b.name)) [
          | inl q ↦ inr (b, e, inl (ground arith), ground arith)
          | inr q ↦ elim (Option-cases (c.find_first (other_named tenant_id id k) s.branches)) [
            | inl r ↦
                let nonempty : k ≢ 0 = λ z. ne (rw z at g) in
                inr (b, e, inr (k, g, r), ground arith)
            | inr (y, r) ↦ let nonempty : k ≢ 0 = λ z. ne (rw z at g) in inl (ground arith)
          ]
        ]
      ]
    ]
  ]

  abbrev after : Branch → Branch
  after = changed (has_branch_key id) (edited dto)

  -- The edited branch beside another one.
  edited-Distinct :
      (a b : Branch)
      → Listed a s.branches
      → Listed b s.branches
      → has_branch_key id a ≡ true
      → has_branch_key id b ≡ false
      → a.tenant_id ≡ tenant_id
      → Free a
      → Distinct (edited dto a) b × Distinct b (edited dto a)
  edited-Distinct a b m n ka kb t free =
      let ne : a.id ≢ b.id = λ e. ground arith in
      let names : a.tenant_id ≡ b.tenant_id
          → a.deleted_at ≡ none
          → b.deleted_at ≡ none
          → get_or dto.name a.name ≢ b.name =
        elim free [
          | inl e ↦ λ p q r g. (h a b m n).name ne p q r (sym e ∙ g)
          | inr (k, e, f) ↦ λ p q r g.
              let other = All-Listed _ s.branches (c.find_first-none _ _ f) n in ground arith
        ] in
      (
        record { key = λ e. absurd (ne e); name = λ _. names },
        record { key = λ e. absurd (ne (sym e)); name = λ _ p q r g. names (sym p) r q (sym g) },
      )

  after-Distinct :
      (x : Branch)
      → c.find_first (is_branch tenant_id id) s.branches ≡ some x
      → Free x
      → (a b : Branch) → Listed a s.branches
      → Listed b s.branches
      → Distinct (after a) (after b)
  after-Distinct x e free a b m n =
      let (l, hit) = c.find_first-some (is_branch tenant_id id) s.branches x e in
      let is_x = λ (y : Branch) (i : Listed y s.branches) (k : has_branch_key id y ≡ true).
        (h x y l i).key (ground arith) in
      let tenant : x.tenant_id ≡ tenant_id = ground arith in
      let key_x : has_branch_key id x ≡ true = ground arith in
      elim (Bool-cases (has_branch_key id a)) [
        | inl p ↦ elim (Bool-cases (has_branch_key id b)) [
          | inl q ↦ Distinct-of_eq (ap after ((h a b m n).key (ground arith)))
          | inr q ↦ rw (p, q) (rw (is_x a m p) at (edited-Distinct x b l n key_x q tenant free)).0
        ]
        | inr p ↦ elim (Bool-cases (has_branch_key id b)) [
          | inl q ↦ rw (p, q) (rw (is_x b n q) at (edited-Distinct x a l m key_x p tenant free)).1
          | inr q ↦ rw (p, q) (h a b m n)
        ]
      ]

  -- If no two branches of one tenant have one name, changing a branch, or being refused, leaves none
  -- that do, where the request does not set the name to the empty text. Deleted branches do not
  -- count.
  update-DistinctBranches : dto.name ≢ some 0 → DistinctBranches (update c tenant_id id dto s).1
  update-DistinctBranches ne = elim (update_cases ne) [
    | inl e ↦ rw e h
    | inr (x, e, free, f) ↦ rw f (
        Pairs-update c Distinct (has_branch_key id) (edited dto) s.branches
          (λ a b m n _. after-Distinct x e free a b m n) h)
  ]

-- A request that sets the name and nothing else.
abbrev pub rename_to : ℕ → UpdateBranchDto
rename_to name = record { name = some name; address = none; phone = none; is_active = none }

module _ (c : Client) (s : Db) (h : DistinctBranches s) (a b : Branch) (m : Listed a s.branches)
    (n : Listed b s.branches) where
  rename_accepted :
      b.deleted_at ≡ none
      → (update c b.tenant_id b.id (rename_to 0) s).1
        ≡ put_branches (c.update (has_branch_key b.id) (edited (rename_to 0)) s.branches) s
  unfolding update
  rename_accepted live =
      let found =
        find_first-Unique c (is_branch b.tenant_id b.id) s.branches b
          (λ x y i j e f. (h x y i j).key (ground arith)) n (ground arith) in
      let row =
        find_first-Unique c (has_branch_key b.id) s.branches b
          (λ x y i j e f. (h x y i j).key (ground arith)) n (ground arith) in
      ground arith

  -- Two branches of one tenant can both be called by the empty text: `update` does not look for a
  -- duplicate of it, so where one branch has it, giving it to another one leaves two branches that
  -- are not deleted with one name.
  pub rename_to_empty_clashes :
      a.id ≢ b.id
      → a.tenant_id ≡ b.tenant_id
      → a.deleted_at ≡ none
      → b.deleted_at ≡ none
      → a.name ≡ 0
      → ¬ DistinctBranches (update c b.tenant_id b.id (rename_to 0) s).1
  rename_to_empty_clashes ne t la lb e k =
      let p : has_branch_key b.id a ≡ false = ground arith in
      let q : has_branch_key b.id b ≡ true = ground arith in
      let k' : DistinctBranches
          (put_branches (c.update (has_branch_key b.id) (edited (rename_to 0)) s.branches) s) =
        rw (rename_accepted lb) at k in
      let i = Listed-changed c (has_branch_key b.id) (edited (rename_to 0)) s.branches a m in
      let j = Listed-changed c (has_branch_key b.id) (edited (rename_to 0)) s.branches b n in
      let i' : Listed a (c.update (has_branch_key b.id) (edited (rename_to 0)) s.branches) =
        rw p at i in
      let j' : Listed (edited (rename_to 0) b)
          (c.update (has_branch_key b.id) (edited (rename_to 0)) s.branches) =
        rw q at j in
      (k' a (edited (rename_to 0) b) i' j').name ne t la lb e
