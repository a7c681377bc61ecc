-- ===== src/Contracts.antt =====
-- src/contracts/contracts.service.ts, with its DTOs. The ids are the keys that the database gives to
-- the new rows, `now` is the clock in milliseconds, and the dates of a request are parsed.
pub mod Edits
pub mod Sound
pub mod History
use node_vms.Prelude.{
  ℕ, ◌+◌, ◌*◌, Bool, true, false, ◌&&◌, not, Option, none, some, List, ◌==◌, leb, is_none, is_some,
  given, get_or, or_else, if◌then◌else◌,
}
use node_vms.Schema.{
  Contract, Vehicle, VehicleSourceType, FuelType, ContractType, is_vehicle_source, contract_type_eq,
}
use node_vms.Database.Client.{Client}
use node_vms.Database.Errors.{bad_request, not_found}
use node_vms.Database.Action.{
  Db, Action, pure, throw_if, or_throw, when, ◌>>=◌, ◌>>◌, find_first, find_many, insert_row,
  update_row, references, transaction, put_contracts,
}
use node_vms.EntityValidator.{is_tenant_vehicle, assert_registration_unique, assert_branch_exists}
use node_vms.Vehicles.{CreateVehicleDto, create_row}

-- `source_type` is not read.
pub record CreateContractVehicleDto : Type 0 where
  pub registration_no : ℕ
  pub make : Option ℕ
  pub model : ℕ
  pub year : Option ℕ
  pub color : Option ℕ
  pub fuel_type : Option FuelType
  pub seat_count : Option ℕ
  pub branch_id : Option ℕ
  pub source_type : Option VehicleSourceType

pub record CreateContractDto : Type 0 where
  pub type : ContractType
  pub start_date : ℕ
  pub end_date : ℕ
  pub amount : ℕ
  pub commission : Option ℕ
  pub vehicle_id : Option ℕ
  pub vehicle : Option CreateContractVehicleDto
  pub contact_name : Option ℕ
  pub contact_email : Option ℕ
  pub contact_phone : Option ℕ
  pub contact_address : Option ℕ

pub record UpdateContractDto : Type 0 where
  pub type : Option ContractType
  pub start_date : Option ℕ
  pub end_date : Option ℕ
  pub amount : Option ℕ
  pub commission : Option ℕ
  pub vehicle_id : Option ℕ
  pub contact_name : Option ℕ
  pub contact_email : Option ℕ
  pub contact_phone : Option ℕ
  pub contact_address : Option ℕ

abbrev pub is_tenant_contract : ℕ → ℕ → Contract → Bool
is_tenant_contract tenant_id id k = k.id == id && (k.tenant_id == tenant_id && is_none k.deleted_at)

abbrev pub has_contract_key : ℕ → Contract → Bool
has_contract_key id k = k.id == id

-- The row that `tx.vehicle.create` writes, as that of a vehicle's own form.
abbrev pub vehicle_dto : CreateContractVehicleDto → CreateVehicleDto
vehicle_dto v = record {
  registration_no = v.registration_no;
  make = v.make;
  model = v.model;
  year = v.year;
  color = v.color;
  fuel_type = v.fuel_type;
  seat_count = v.seat_count;
  source_type = some VehicleSourceType.contract;
  branch_id = v.branch_id;
  fitness_expiry_date = none;
  tax_token_expiry_date = none;
  contract = none;
}

abbrev pub new_contract : ℕ → ℕ → Option ℕ → CreateContractDto → Contract
new_contract id tenant_id vehicle_id dto = record {
  id = id;
  tenant_id = tenant_id;
  type = dto.type;
  start_date = dto.start_date;
  end_date = dto.end_date;
  amount = dto.amount;
  commission = get_or dto.commission 0;
  vehicle_id = vehicle_id;
  contact_name = dto.contact_name;
  contact_email = dto.contact_email;
  contact_phone = dto.contact_phone;
  contact_address = dto.contact_address;
  deleted_at = none;
}

abbrev pub edited : ℕ → ℕ → UpdateContractDto → Contract → Contract
edited new_start new_end dto k = record k {
  type = get_or dto.type k.type;
  start_date = new_start;
  end_date = new_end;
  amount = get_or dto.amount k.amount;
  commission = get_or dto.commission k.commission;
  vehicle_id = or_else dto.vehicle_id k.vehicle_id;
  contact_name = or_else dto.contact_name k.contact_name;
  contact_email = or_else dto.contact_email k.contact_email;
  contact_phone = or_else dto.contact_phone k.contact_phone;
  contact_address = or_else dto.contact_address k.contact_address;
}

-- The vehicle to create, which only a VEHICLE_SOURCE contract has.
abbrev pub new_source : CreateContractDto → Option CreateContractVehicleDto
new_source dto = if is_vehicle_source dto.type then dto.vehicle else none

-- `...(validType && { type: validType })`
abbrev pub has_type : Option ContractType → Contract → Bool
has_type none k = true
has_type (some type) k = contract_type_eq k.type type

-- A day in milliseconds: `setDate` where the clocks do not change.
abbrev pub day : ℕ
day = 86400000

module _ (c : Client) where
  -- The vehicle that a request names must be the tenant's.
  unfoldable pub check_vehicle : ℕ → Option ℕ → Action (Unit {0})
  check_vehicle tenant_id vehicle_id = when (given vehicle_id) (do
    found ← find_first c (λ s. s.vehicles) (is_tenant_vehicle tenant_id (get_or vehicle_id 0))
    vehicle ← or_throw found (not_found "Vehicle not found")
    pure tt)

  -- The foreign key to the vehicle.
  unfoldable pub references_vehicle : Option ℕ → Action (Unit {0})
  references_vehicle vehicle_id =
      when (not (is_none vehicle_id))
        (references c (λ s. s.vehicles) (λ v. v.id == get_or vehicle_id 0))

  -- A new vehicle and its contract, in one transaction.
  unfoldable pub create_with_vehicle :
      ℕ → ℕ → ℕ → CreateContractDto → CreateContractVehicleDto → Action Contract
  create_with_vehicle id vehicle_id tenant_id dto input = do
    assert_registration_unique c input.registration_no none
    branch ← assert_branch_exists c tenant_id input.branch_id
    transaction (do
      vehicle ← create_row c vehicle_id tenant_id (vehicle_dto input)
      insert_row c (λ s. s.contracts) put_contracts
          (new_contract id tenant_id (some vehicle.id) dto))

  unfoldable pub create_plain : ℕ → ℕ → CreateContractDto → Action Contract
  create_plain id tenant_id dto = do
    check_vehicle tenant_id dto.vehicle_id
    references_vehicle dto.vehicle_id
    insert_row c (λ s. s.contracts) put_contracts (new_contract id tenant_id dto.vehicle_id dto)

  unfoldable pub create_for :
      ℕ → ℕ → ℕ → CreateContractDto → Option CreateContractVehicleDto → Action Contract
  create_for id vehicle_id tenant_id dto none = create_plain id tenant_id dto
  create_for id vehicle_id tenant_id dto (some input) =
      create_with_vehicle id vehicle_id tenant_id dto input

  unfoldable pub create : ℕ → ℕ → ℕ → CreateContractDto → Action Contract
  create id vehicle_id tenant_id dto = do
    throw_if (leb dto.end_date dto.start_date) (bad_request "endDate must be after startDate")
    throw_if (is_vehicle_source dto.type && (not (given dto.vehicle_id) && is_none dto.vehicle))
        (bad_request "Provide vehicleId or vehicle for VEHICLE_SOURCE contracts")
    throw_if (given dto.vehicle_id && is_some dto.vehicle)
        (bad_request "Provide only one of vehicleId or vehicle, not both")
    create_for id vehicle_id tenant_id dto (new_source dto)

  pub find_all : ℕ → Option ContractType → Action (List Contract)
  find_all tenant_id type =
      find_many c (λ s. s.contracts)
        (λ k. k.tenant_id == tenant_id && (is_none k.deleted_at && has_type type k))

  pub find_one : ℕ → ℕ → Action Contract
  find_one tenant_id id = do
    found ← find_first c (λ s. s.contracts) (is_tenant_contract tenant_id id)
    or_throw found (not_found "Contract not found")

  -- The write of `update`, with the foreign key.
  unfoldable pub update_contract_row : ℕ → ℕ → ℕ → UpdateContractDto → Action Contract
  update_contract_row id new_start new_end dto = do
    references_vehicle dto.vehicle_id
    update_row c (λ s. s.contracts) put_contracts (has_contract_key id)
        (edited new_start new_end dto)

  unfoldable pub update : ℕ → ℕ → UpdateContractDto → Action Contract
  update tenant_id id dto = do
    found ← find_first c (λ s. s.contracts) (is_tenant_contract tenant_id id)
    contract ← or_throw found (not_found "Contract not found")
    let new_start = get_or dto.start_date contract.start_date
    let new_end = get_or dto.end_date contract.end_date
    throw_if (leb new_end new_start) (bad_request "endDate must be after startDate")
    check_vehicle tenant_id dto.vehicle_id
    update_contract_row id new_start new_end dto

  unfoldable pub remove : ℕ → ℕ → ℕ → Action (Unit {0})
  remove now tenant_id id = do
    found ← find_first c (λ s. s.contracts) (is_tenant_contract tenant_id id)
    contract ← or_throw found (not_found "Contract not found")
    row ←
        update_row c (λ s. s.contracts) put_contracts (has_contract_key id)
          (λ k. record k { deleted_at = some now })
    pure tt

  pub find_expiring : ℕ → ℕ → ℕ → Action (List Contract)
  find_expiring now tenant_id days_ahead =
      find_many c (λ s. s.contracts)
        (λ k.
          k.tenant_id == tenant_id
          && (is_none k.deleted_at
              && (leb now k.end_date && leb k.end_date (now + days_ahead * day))))
