-- ===== src/AdminApplications/Transitions.antt =====
-- admin-applications.service.ts against the state machine of an application.
use node_vms.Prelude.{ℕ, ◌≡◌, Option, none, some, arith}
use node_vms.Schema.{User, Tenant, ApprovalStatus, approved, rejected, suspended, is_approved}
use node_vms.Database.Client.{Client}
use node_vms.Database.Errors.{Result, ok, err}
use node_vms.Database.Action.{Db, Action}
use node_vms.AdminApplications.{
  is_admin_user, has_user_id, has_tenant_id, decided, with_active, decide, approve, reject, suspend,
  reactivate,
}

-- The four decisions of a platform administrator.
pub data Decision : Type 0 where
  approves rejects suspends reactivates : Decision

abbrev pub apply : Client → Decision → ℕ → Action User
apply c approves = approve c
apply c rejects = reject c
apply c suspends = suspend c
apply c reactivates = reactivate c

-- The state machine: what a decision makes of each status, if it is allowed there. Only an
-- approved account can be suspended and only a suspended one reactivated; an approved account can
-- be neither approved nor rejected.
abbrev pub transition : Decision → ApprovalStatus → Option ApprovalStatus
transition approves ApprovalStatus.approved = none
transition approves _ = some approved
transition rejects ApprovalStatus.approved = none
transition rejects _ = some rejected
transition suspends ApprovalStatus.approved = some suspended
transition suspends _ = none
transition reactivates ApprovalStatus.suspended = some approved
transition reactivates _ = none

-- Every decision but a rejection sets the tenant active or inactive with the account.
abbrev pub tenants_after : Client → Decision → ApprovalStatus → ℕ → Db → Db
tenants_after c rejects status tenant_id s = s
tenants_after c _ status tenant_id s = record s {
  tenants = c.update (has_tenant_id tenant_id) (with_active (is_approved status)) s.tenants;
}

abbrev pub IsRefused : {A : Type 0} → Result A → Type 0
IsRefused (ok a) = ⊥
IsRefused (err e) = Unit {0}

-- What a decision about the user `u` must do by the state machine.
abbrev pub Follows :
    Client → Decision → ℕ → User → Db → Option ApprovalStatus → Result User × Db → Type 0
Follows c d user_id u s none r = IsRefused r.0 × (r.1 ≡ s)
Follows c d user_id u s (some status) r =
    (r.0 ≡ ok (decided status (is_approved status) u))
    × (r.1
        ≡ tenants_after c d status u.tenant_id (record s {
          users = c.update (has_user_id user_id) (decided status (is_approved status)) s.users;
        }))

module _ (c : Client) (user_id : ℕ) (u : User) (t : Tenant) (s : Db)
    (found : c.find_first (is_admin_user user_id) s.users ≡ some u)
    (row : c.find_first (has_user_id user_id) s.users ≡ some u)
    (home : c.find_first (has_tenant_id u.tenant_id) s.tenants ≡ some t) where
  -- Each decision does what the state machine says: where the machine has no transition it is
  -- refused and nothing changes; otherwise the account gets the new status, is active exactly when
  -- it is approved, and the tenant is switched with it unless the decision is a rejection. The
  -- account must be an administrator's, its id a key, and its tenant must exist.
  pub apply-Follows :
      (d : Decision) (status : ApprovalStatus)
      → u.approval_status ≡ status
      → Follows c d user_id u s (transition d status) (apply c d user_id s)
  unfolding approve reject suspend reactivate decide
  apply-Follows approves ApprovalStatus.pending e = ground arith
  apply-Follows _ _ e = ground arith
