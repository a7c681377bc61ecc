-- ===== src/EntityValidator.antt =====
-- src/common/helpers/entity-validator.helper.ts: the assertions that the services share. A date of a
-- request is none where it does not parse.
use node_vms.Prelude.{
  ℕ, String, Bool, true, false, ◌&&◌, not, Option, none, some, leb, ◌==◌, is_none, is_some, given,
  is_just, get_or, if◌then◌else◌,
}
use node_vms.Schema.{User, Tenant, Branch, Vehicle, Driver}
use node_vms.Database.Client.{Client}
use node_vms.Database.Errors.{bad_request, not_found, conflict}
use node_vms.Database.Action.{Action, pure, throw_if, or_throw, ◌>>=◌, ◌>>◌, find_first}

-- `...(excludeId && { id: { not: excludeId } })`
abbrev pub not_excluded : Option ℕ → ℕ → Bool
not_excluded exclude id = if given exclude then not (is_just exclude id) else true

-- The `where` clauses.
abbrev pub email_taken : ℕ → Option ℕ → User → Bool
email_taken email exclude u =
    u.email == email && (is_none u.deleted_at && not_excluded exclude u.id)

abbrev pub is_tenant_user : ℕ → ℕ → User → Bool
is_tenant_user tenant_id id u = u.id == id && (u.tenant_id == tenant_id && is_none u.deleted_at)

abbrev pub is_active_tenant : ℕ → Tenant → Bool
is_active_tenant id t = t.id == id && (is_none t.deleted_at && t.is_active)

abbrev pub is_branch : ℕ → ℕ → Branch → Bool
is_branch tenant_id id b = b.id == id && (b.tenant_id == tenant_id && is_none b.deleted_at)

abbrev pub is_tenant_vehicle : ℕ → ℕ → Vehicle → Bool
is_tenant_vehicle tenant_id id v = v.id == id && (v.tenant_id == tenant_id && is_none v.deleted_at)

abbrev pub registration_taken : ℕ → Option ℕ → Vehicle → Bool
registration_taken registration_no exclude v =
    v.registration_no == registration_no && (is_none v.deleted_at && not_excluded exclude v.id)

abbrev pub is_tenant_driver : ℕ → ℕ → Driver → Bool
is_tenant_driver tenant_id id d = d.id == id && (d.tenant_id == tenant_id && is_none d.deleted_at)

abbrev pub phone_taken : ℕ → Option ℕ → Driver → Bool
phone_taken phone exclude d =
    d.phone == phone && (is_none d.deleted_at && not_excluded exclude d.id)

abbrev pub license_taken : ℕ → Option ℕ → Driver → Bool
license_taken license_no exclude d =
    d.license_no == license_no && (is_none d.deleted_at && not_excluded exclude d.id)

abbrev pub user_taken : ℕ → Option ℕ → Driver → Bool
user_taken user_id exclude d =
    is_just d.user_id user_id && (is_none d.deleted_at && not_excluded exclude d.id)

-- Both dates must parse, and the end be after the start.
unfoldable pub assert_date_range : Option ℕ → Option ℕ → Action (ℕ × ℕ)
assert_date_range start_date end_date = do
  start ← or_throw start_date (bad_request "Invalid date format")
  end_ ← or_throw end_date (bad_request "Invalid date format")
  throw_if (leb end_ start) (bad_request "endDate must be after startDate")
  pure (start, end_)

module _ (c : Client) where
  unfoldable pub assert_email_unique : ℕ → Option ℕ → Action (Unit {0})
  assert_email_unique email exclude = do
    existing ← find_first c (λ s. s.users) (email_taken email exclude)
    throw_if (is_some existing) (conflict "Email already in use")

  -- `missing` is the text of the label with ' not found'.
  unfoldable pub assert_user_exists : ℕ → ℕ → String → Action User
  assert_user_exists tenant_id user_id missing = do
    user ← find_first c (λ s. s.users) (is_tenant_user tenant_id user_id)
    or_throw user (not_found missing)

  unfoldable pub assert_tenant_exists : ℕ → Action Tenant
  assert_tenant_exists tenant_id = do
    tenant ← find_first c (λ s. s.tenants) (is_active_tenant tenant_id)
    or_throw tenant (not_found "Tenant not found or inactive")

  -- No branch given: the check is skipped.
  unfoldable pub assert_branch_exists : ℕ → Option ℕ → Action (Option Branch)
  assert_branch_exists tenant_id branch_id = elim (given branch_id) [
    | false ↦ pure none
    | true ↦ do
      found ← find_first c (λ s. s.branches) (is_branch tenant_id (get_or branch_id 0))
      branch ← or_throw found (not_found "Branch not found or does not belong to your organization")
      pure (some branch)
  ]

  unfoldable pub assert_vehicle_exists : ℕ → ℕ → Action Vehicle
  assert_vehicle_exists tenant_id vehicle_id = do
    vehicle ← find_first c (λ s. s.vehicles) (is_tenant_vehicle tenant_id vehicle_id)
    or_throw vehicle (not_found "Vehicle not found or does not belong to your organization")

  unfoldable pub assert_registration_unique : ℕ → Option ℕ → Action (Unit {0})
  assert_registration_unique registration_no exclude = do
    existing ← find_first c (λ s. s.vehicles) (registration_taken registration_no exclude)
    throw_if (is_some existing) (conflict "Registration number is already in use")

  unfoldable pub assert_driver_exists : ℕ → ℕ → Action Driver
  assert_driver_exists tenant_id driver_id = do
    driver ← find_first c (λ s. s.drivers) (is_tenant_driver tenant_id driver_id)
    or_throw driver (not_found "Driver not found or does not belong to your organization")

  unfoldable pub assert_phone_unique : ℕ → Option ℕ → Action (Unit {0})
  assert_phone_unique phone exclude = do
    existing ← find_first c (λ s. s.drivers) (phone_taken phone exclude)
    throw_if (is_some existing) (conflict "Phone number is already in use")

  unfoldable pub assert_license_unique : ℕ → Option ℕ → Action (Unit {0})
  assert_license_unique license_no exclude = do
    existing ← find_first c (λ s. s.drivers) (license_taken license_no exclude)
    throw_if (is_some existing) (conflict "License number is already in use")

  unfoldable pub assert_user_not_already_driver : ℕ → Option ℕ → Action (Unit {0})
  assert_user_not_already_driver user_id exclude = do
    existing ← find_first c (λ s. s.drivers) (user_taken user_id exclude)
    throw_if (is_some existing) (conflict "This user is already linked to a driver profile")
