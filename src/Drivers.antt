-- ===== src/Drivers.antt =====
-- src/drivers/drivers.service.ts, with its DTOs. `id` is the key that the database gives to a new
-- row and `now` the clock. The unique columns of the table are phone, licenseNo and userId.
pub mod Distinct
pub mod Edits
pub mod Outcomes
use node_vms.Prelude.{
  ℕ, Bool, true, false, ◌&&◌, not, Option, none, some, List, ◌==◌, is_none, given, is_just, get_or,
  if◌then◌else◌,
}
use node_vms.Schema.{User, Driver, Branch}
use node_vms.Database.Client.{Client}
use node_vms.Database.Errors.{bad_request, not_found}
use node_vms.Database.Action.{
  Db, Action, pure, throw_if, or_throw, when, ◌>>=◌, ◌>>◌, find_first, find_many, insert_row,
  update_row, references, unique, put_drivers,
}
use node_vms.EntityValidator.{
  is_tenant_driver, assert_phone_unique, assert_license_unique, assert_user_exists,
  assert_user_not_already_driver, assert_branch_exists,
}

pub record CreateDriverDto : Type 0 where
  pub name : ℕ
  pub phone : ℕ
  pub license_no : ℕ
  pub user_id : Option ℕ
  pub branch_id : Option ℕ

-- `branch_id` is undefined, null, or a key.
pub record UpdateDriverDto : Type 0 where
  pub name : Option ℕ
  pub phone : Option ℕ
  pub license_no : Option ℕ
  pub is_available : Option Bool
  pub branch_id : Option (Option ℕ)

abbrev pub has_driver_key : ℕ → Driver → Bool
has_driver_key id d = d.id == id

abbrev pub new_driver : ℕ → ℕ → CreateDriverDto → Driver
new_driver id tenant_id dto = record {
  id = id;
  tenant_id = tenant_id;
  branch_id = dto.branch_id;
  user_id = dto.user_id;
  name = dto.name;
  phone = dto.phone;
  license_no = dto.license_no;
  is_available = true;
  deleted_at = none;
}

-- `dto.branchId ? { connect: … } : { disconnect: true }`
abbrev pub connected : Option ℕ → Option ℕ
connected branch_id = if given branch_id then branch_id else none

-- The fields that `update` writes.
abbrev pub edited : UpdateDriverDto → Driver → Driver
edited dto d = record d {
  name = get_or dto.name d.name;
  phone = get_or dto.phone d.phone;
  license_no = get_or dto.license_no d.license_no;
  is_available = get_or dto.is_available d.is_available;
  branch_id = elim dto.branch_id [ none ↦ d.branch_id | some b ↦ connected b ];
}

-- `Object.keys(data).length === 0`
abbrev pub nothing_given : UpdateDriverDto → Bool
nothing_given dto =
    is_none dto.name
    && (is_none dto.phone
        && (is_none dto.license_no && (is_none dto.is_available && is_none dto.branch_id)))

-- Another row with the value of a unique column.
abbrev pub other_phone : ℕ → ℕ → Driver → Bool
other_phone id phone d = d.phone == phone && not (d.id == id)

abbrev pub other_license : ℕ → ℕ → Driver → Bool
other_license id license_no d = d.license_no == license_no && not (d.id == id)

module _ (c : Client) where
  -- The write of `create`, with the unique columns and the foreign keys.
  unfoldable pub create_row : ℕ → ℕ → CreateDriverDto → Action Driver
  create_row id tenant_id dto = do
    unique c (λ s. s.drivers) (λ d. d.phone == dto.phone)
    unique c (λ s. s.drivers) (λ d. d.license_no == dto.license_no)
    when (not (is_none dto.user_id)) (do
      unique c (λ s. s.drivers) (λ d. is_just d.user_id (get_or dto.user_id 0))
      references c (λ s. s.users) (λ u. u.id == get_or dto.user_id 0))
    when (not (is_none dto.branch_id))
        (references c (λ s. s.branches) (λ b. b.id == get_or dto.branch_id 0))
    insert_row c (λ s. s.drivers) put_drivers (new_driver id tenant_id dto)

  unfoldable pub create : ℕ → ℕ → CreateDriverDto → Action Driver
  create id tenant_id dto = do
    assert_phone_unique c dto.phone none
    assert_license_unique c dto.license_no none
    when (given dto.user_id) (do
      user ← assert_user_exists c tenant_id (get_or dto.user_id 0) "User not found"
      assert_user_not_already_driver c (get_or dto.user_id 0) none)
    branch ← assert_branch_exists c tenant_id dto.branch_id
    create_row id tenant_id dto

  pub find_all : ℕ → Option ℕ → Action (List Driver)
  find_all tenant_id branch_id =
      find_many c (λ s. s.drivers)
        (λ d.
          d.tenant_id == tenant_id
          && (is_none d.deleted_at
              && (if given branch_id then is_just d.branch_id (get_or branch_id 0) else true)))

  pub find_one : ℕ → ℕ → Action Driver
  find_one tenant_id id = do
    found ← find_first c (λ s. s.drivers) (is_tenant_driver tenant_id id)
    or_throw found (not_found "Driver not found")

  -- The write of `update`, with the unique columns.
  unfoldable pub update_driver_row : ℕ → UpdateDriverDto → Action Driver
  update_driver_row id dto = do
    when (not (is_none dto.phone)) (unique c (λ s. s.drivers) (other_phone id (get_or dto.phone 0)))
    when (not (is_none dto.license_no))
        (unique c (λ s. s.drivers) (other_license id (get_or dto.license_no 0)))
    update_row c (λ s. s.drivers) put_drivers (has_driver_key id) (edited dto)

  unfoldable pub update : ℕ → ℕ → UpdateDriverDto → Action Driver
  update tenant_id id dto = do
    found ← find_first c (λ s. s.drivers) (is_tenant_driver tenant_id id)
    driver ← or_throw found (not_found "Driver not found")
    when (given dto.phone && not (is_just dto.phone driver.phone))
        (assert_phone_unique c (get_or dto.phone 0) (some id))
    when (given dto.license_no && not (is_just dto.license_no driver.license_no))
        (assert_license_unique c (get_or dto.license_no 0) (some id))
    when (not (is_none dto.branch_id))
        (do branch ← assert_branch_exists c tenant_id (get_or dto.branch_id none); pure tt)
    throw_if (nothing_given dto) (bad_request "No updatable fields provided")
    update_driver_row id dto

  pub remove : ℕ → ℕ → ℕ → Action (Unit {0})
  remove now tenant_id id = do
    found ← find_first c (λ s. s.drivers) (is_tenant_driver tenant_id id)
    driver ← or_throw found (not_found "Driver not found")
    row ←
        update_row c (λ s. s.drivers) put_drivers (has_driver_key id)
          (λ d. record d { deleted_at = some now })
    pure tt
