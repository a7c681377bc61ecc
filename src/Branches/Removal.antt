-- ===== src/Branches/Removal.antt =====
-- branches.service.ts: what `remove` leaves behind.
use node_vms.Prelude.{
  ℕ, ◌≡◌, ◌≢◌, refl, inl, inr, true, false, none, some, arith, All, All-of_Listed, Listed, is_just,
  ◌==◌, if◌then◌else◌, filter_by, Bool, Bool-cases, [], ◌∷◌, List, All-mono,
}
use node_vms.Schema.{Branch}
use node_vms.Database.Client.{Client}
use node_vms.Database.Errors.{ok, err, not_found}
use node_vms.Database.Action.{Db, put_branches}
use node_vms.Database.Lookup.{find_first-none_iff, find_first-Unique}
use node_vms.Database.Pairs.{Pairs, Listed-update_elim}
use node_vms.EntityValidator.{is_branch}
use node_vms.Branches.{has_branch_key, unlinked, remove}

filter_by-false :
    {A : Type 0} (p : A → Bool) (t : List A)
    → All (λ a. p a ≡ false) (filter_by (λ a. if p a then false else true) t)
filter_by-false p [] = tt
filter_by-false p (a ∷ t) = elim (Bool-cases (p a)) [
  | inl e ↦ rw e (filter_by-false p t)
  | inr e ↦ rw e (e, filter_by-false p t)
]

-- Nothing that a tenant keeps its people and vehicles by points to the branch.
pub record Unlinked (id : ℕ) (s : Db) : Type 0 where
  pub users : All (λ u. u.branch_id ≢ some id) s.users
  pub user_branches : All (λ r. r.branch_id ≢ id) s.user_branches
  pub vehicles : All (λ v. v.branch_id ≢ some id) s.vehicles
  pub drivers : All (λ d. d.branch_id ≢ some id) s.drivers
  pub deleted : All (λ b. b.id ≡ id → b.deleted_at ≢ none) s.branches

module _ (c : Client) (now id : ℕ) (s : Db) where
  abbrev pub removed : Db
  removed =
      put_branches
        (c.update (has_branch_key id) (λ b. record b { deleted_at = some now }) s.branches)
        (unlinked c id s)

  removed-Unlinked : Unlinked id removed
  removed-Unlinked = record {
    users = All-of_Listed _ _ (
        Listed-update_elim c (λ u. u.branch_id ≢ some id) (λ u. is_just u.branch_id id)
          (λ u. record u { branch_id = none }) s.users (λ u m e g. ground arith)
          (λ u m e g. ground arith));
    user_branches = rw (c.delete_rows (λ r. r.branch_id == id) s.user_branches) (
        All-mono (λ r. (r.branch_id == id) ≡ false) (λ r. r.branch_id ≢ id) _
          (λ r e g. ground arith) (filter_by-false (λ r. r.branch_id == id) s.user_branches));
    vehicles = All-of_Listed _ _ (
        Listed-update_elim c (λ v. v.branch_id ≢ some id) (λ v. is_just v.branch_id id)
          (λ v. record v { branch_id = none }) s.vehicles (λ u m e g. ground arith)
          (λ u m e g. ground arith));
    drivers = All-of_Listed _ _ (
        Listed-update_elim c (λ d. d.branch_id ≢ some id) (λ d. is_just d.branch_id id)
          (λ d. record d { branch_id = none }) s.drivers (λ u m e g. ground arith)
          (λ u m e g. ground arith));
    deleted = All-of_Listed _ _ (
        Listed-update_elim c (λ b. b.id ≡ id → b.deleted_at ≢ none) (has_branch_key id)
          (λ b. record b { deleted_at = some now }) s.branches (λ b m e g q. cc)
          (λ b m e g. ground arith));
  }

  module _ (tenant_id : ℕ) where
    remove_ok :
        (b x : Branch)
        → c.find_first (is_branch tenant_id id) s.branches ≡ some b
        → c.find_first (has_branch_key id) s.branches ≡ some x
        → remove c now tenant_id id s ≡ (ok tt, removed)
    unfolding remove
    remove_ok b x e f = ground arith

    -- A branch of the tenant that is not deleted can be removed, where ids of branches are unique.
    -- Then it is deleted, no user, vehicle or driver and no row of user branches points to it, and
    -- the bookings and workshop jobs are as they were, with the branch that they had.
    pub remove-Unlinked :
        (b : Branch)
        → Listed b s.branches
        → Pairs (λ (x y : Branch). x.id ≡ y.id → x ≡ y) s.branches
        → b.id ≡ id
        → b.tenant_id ≡ tenant_id
        → b.deleted_at ≡ none
        → (s' : Db) × (remove c now tenant_id id s ≡ (ok tt, s'))
          × Unlinked id s'
          × (s'.bookings ≡ s.bookings)
          × (s'.workshop_jobs ≡ s.workshop_jobs)
    remove-Unlinked b m key e t live =
        let found =
          find_first-Unique c (is_branch tenant_id id) s.branches b
            (λ x y i j p q. key x y i j (ground arith)) m (ground arith) in
        let row =
          find_first-Unique c (has_branch_key id) s.branches b
            (λ x y i j p q. key x y i j (ground arith)) m (ground arith) in
        (removed, remove_ok b b found row, removed-Unlinked, refl, refl)

    remove_unknown :
        c.find_first (is_branch tenant_id id) s.branches ≡ none
        → remove c now tenant_id id s ≡ (err (not_found "Branch not found"), s)
    unfolding remove
    remove_unknown e = ground arith

    -- A request for a branch of another tenant, or for one that is deleted or not there, is refused
    -- as not found, and no table changes.
    pub remove_refuses_others :
        All (λ b. b.id ≡ id → b.tenant_id ≡ tenant_id → b.deleted_at ≢ none) s.branches
        → remove c now tenant_id id s ≡ (err (not_found "Branch not found"), s)
    remove_refuses_others h = remove_unknown (
        (find_first-none_iff c (is_branch tenant_id id) s.branches).1 (
          All-mono _ _ s.branches
            (λ b f. elim (Bool-cases (is_branch tenant_id id b)) [
              | inl e ↦ absurd (f (ground arith) (ground arith) (ground arith))
              | inr e ↦ e
            ])
            h))
