-- ===== src/AdminApplications.antt =====
-- src/admin-applications/admin-applications.service.ts: how a platform administrator decides on the
-- accounts of tenant administrators.
pub mod Coherence
pub mod Transitions
use node_vms.Prelude.{
  ℕ, Bool, true, false, ◌&&◌, not, Option, none, some, List, ◌==◌, is_none, if◌then◌else◌,
}
use node_vms.Schema.{
  User, Tenant, Role, is_admin, ApprovalStatus, approved, rejected, suspended, is_approved,
  is_suspended, approval_eq,
}
use node_vms.Database.Client.{Client}
use node_vms.Database.Errors.{bad_request, not_found}
use node_vms.Database.Action.{
  Db, Action, pure, throw_if, or_throw, transaction, ◌>>=◌, ◌>>◌, find_first, find_many, update_row,
  put_users, put_tenants,
}

-- `where: { id: userId, role: Role.ADMIN, deletedAt: null }`
abbrev pub is_admin_user : ℕ → User → Bool
is_admin_user user_id u = u.id == user_id && (is_admin u.role && is_none u.deleted_at)

abbrev pub has_user_id : ℕ → User → Bool
has_user_id id u = u.id == id

abbrev pub has_tenant_id : ℕ → Tenant → Bool
has_tenant_id id t = t.id == id

-- The `data` of the updates.
abbrev pub decided : ApprovalStatus → Bool → User → User
decided status active u = record u { approval_status = status; is_active = active }

abbrev pub with_active : Bool → Tenant → Tenant
with_active active t = record t { is_active = active }

abbrev pub with_password : ℕ → User → User
with_password hash u = record u { password = hash }

-- `...(status && { approvalStatus: status })`
abbrev status_matches : Option ApprovalStatus → User → Bool
status_matches none u = true
status_matches (some status) u = approval_eq u.approval_status status

module _ (c : Client) where
  pub find_all : Option ApprovalStatus → Action (List User)
  find_all status =
      find_many c (λ s. s.users)
        (λ u. is_admin u.role && (is_none u.deleted_at && status_matches status u))

  -- The decision and the tenant's activation, in one transaction.
  unfoldable pub decide : ℕ → ℕ → ApprovalStatus → Bool → Action User
  decide user_id tenant_id status active = transaction (do
    updated ← update_row c (λ s. s.users) put_users (has_user_id user_id) (decided status active)
    tenant ←
        update_row c (λ s. s.tenants) put_tenants (has_tenant_id tenant_id) (with_active active)
    pure updated)

  pub approve : ℕ → Action User
  approve user_id = do
    found ← find_first c (λ s. s.users) (is_admin_user user_id)
    user ← or_throw found (not_found "Admin application not found")
    throw_if (is_approved user.approval_status) (bad_request "Application is already approved")
    decide user_id user.tenant_id approved true

  pub reject : ℕ → Action User
  reject user_id = do
    found ← find_first c (λ s. s.users) (is_admin_user user_id)
    user ← or_throw found (not_found "Admin application not found")
    throw_if (is_approved user.approval_status)
        (bad_request "Cannot reject an already approved account")
    update_row c (λ s. s.users) put_users (has_user_id user_id) (decided rejected false)

  unfoldable pub suspend : ℕ → Action User
  suspend user_id = do
    found ← find_first c (λ s. s.users) (is_admin_user user_id)
    user ← or_throw found (not_found "Admin not found")
    throw_if (not (is_approved user.approval_status))
        (bad_request "Only approved admins can be suspended")
    decide user_id user.tenant_id suspended false

  unfoldable pub reactivate : ℕ → Action User
  reactivate user_id = do
    found ← find_first c (λ s. s.users) (is_admin_user user_id)
    user ← or_throw found (not_found "Admin not found")
    throw_if (not (is_suspended user.approval_status))
        (bad_request "Only suspended admins can be reactivated")
    decide user_id user.tenant_id approved true

  -- `hash` is what bcrypt makes of the new password.
  pub reset_admin_password : ℕ → ℕ → Action User
  reset_admin_password user_id hash = do
    found ← find_first c (λ s. s.users) (is_admin_user user_id)
    user ← or_throw found (not_found "Admin not found")
    update_row c (λ s. s.users) put_users (has_user_id user_id) (with_password hash)
