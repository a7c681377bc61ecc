-- ===== src/Vehicles.antt =====
-- src/vehicles/vehicles.service.ts, with its DTOs. The ids are the keys that the database gives to the
-- new rows and `now` the clock. The dates of a request are parsed; `none` for a date that the request
-- does give is null or an empty text. The registration number is the table's unique column.
pub mod Plates
pub mod Sources
pub mod Status
use node_vms.Prelude.{
  ℕ, Bool, true, false, ◌&&◌, not, Option, none, some, List, ◌==◌, leb, is_none, given, is_just,
  get_or, or_else, if◌then◌else◌,
}
use node_vms.Schema.{
  Vehicle, Contract, Branch, VehicleStatus, VehicleSourceType, FuelType, ContractType, is_contract,
  vehicle_status_eq,
}
use node_vms.Database.Client.{Client}
use node_vms.Database.Errors.{bad_request, not_found, record_not_found}
use node_vms.Database.Action.{
  Db, Action, pure, throw_if, or_throw, when, ◌>>=◌, ◌>>◌, find_first, find_many, insert_row,
  update_row, references, unique, transaction, put_vehicles, put_contracts,
}
use node_vms.EntityValidator.{is_tenant_vehicle, assert_registration_unique, assert_branch_exists}

pub record SourceContractDto : Type 0 where
  pub start_date : ℕ
  pub end_date : ℕ
  pub amount : ℕ
  pub commission : Option ℕ
  pub contact_name : Option ℕ
  pub contact_email : Option ℕ
  pub contact_phone : Option ℕ
  pub contact_address : Option ℕ

pub record CreateVehicleDto : Type 0 where
  pub registration_no : ℕ
  pub make : Option ℕ
  pub model : ℕ
  pub year : Option ℕ
  pub color : Option ℕ
  pub fuel_type : Option FuelType
  pub seat_count : Option ℕ
  pub source_type : Option VehicleSourceType
  pub branch_id : Option ℕ
  pub fitness_expiry_date : Option ℕ
  pub tax_token_expiry_date : Option ℕ
  pub contract : Option SourceContractDto

pub record UpdateVehicleDto : Type 0 where
  pub registration_no : Option ℕ
  pub make : Option ℕ
  pub model : Option ℕ
  pub year : Option ℕ
  pub color : Option ℕ
  pub fuel_type : Option FuelType
  pub seat_count : Option ℕ
  pub status : Option VehicleStatus
  pub source_type : Option VehicleSourceType
  pub branch_id : Option (Option ℕ)
  pub fitness_expiry_date : Option (Option ℕ)
  pub tax_token_expiry_date : Option (Option ℕ)

abbrev pub has_vehicle_key : ℕ → Vehicle → Bool
has_vehicle_key id v = v.id == id

-- The source type of the request, OWNED by default.
abbrev pub source_of : CreateVehicleDto → VehicleSourceType
source_of dto = get_or dto.source_type VehicleSourceType.owned

abbrev pub new_vehicle : ℕ → ℕ → CreateVehicleDto → Vehicle
new_vehicle id tenant_id dto = record {
  id = id;
  tenant_id = tenant_id;
  branch_id = dto.branch_id;
  registration_no = dto.registration_no;
  make = dto.make;
  model = dto.model;
  year = dto.year;
  color = dto.color;
  fuel_type = dto.fuel_type;
  seat_count = get_or dto.seat_count 4;
  status = VehicleStatus.available;
  source_type = source_of dto;
  fitness_expiry_date = dto.fitness_expiry_date;
  tax_token_expiry_date = dto.tax_token_expiry_date;
  deleted_at = none;
}

abbrev pub source_contract : ℕ → ℕ → ℕ → SourceContractDto → Contract
source_contract id tenant_id vehicle_id dto = record {
  id = id;
  tenant_id = tenant_id;
  type = ContractType.vehicle_source;
  start_date = dto.start_date;
  end_date = dto.end_date;
  amount = dto.amount;
  commission = get_or dto.commission 0;
  vehicle_id = some vehicle_id;
  contact_name = dto.contact_name;
  contact_email = dto.contact_email;
  contact_phone = dto.contact_phone;
  contact_address = dto.contact_address;
  deleted_at = none;
}

-- `dto.branchId ? { connect: … } : { disconnect: true }`
abbrev pub connected : Option ℕ → Option ℕ
connected branch_id = if given branch_id then branch_id else none

-- The fields that `update` writes.
abbrev pub edited : UpdateVehicleDto → Vehicle → Vehicle
edited dto v = record v {
  registration_no = get_or dto.registration_no v.registration_no;
  make = or_else dto.make v.make;
  model = get_or dto.model v.model;
  year = or_else dto.year v.year;
  color = or_else dto.color v.color;
  fuel_type = or_else dto.fuel_type v.fuel_type;
  seat_count = get_or dto.seat_count v.seat_count;
  status = get_or dto.status v.status;
  source_type = get_or dto.source_type v.source_type;
  branch_id = elim dto.branch_id [ none ↦ v.branch_id | some b ↦ connected b ];
  fitness_expiry_date = get_or dto.fitness_expiry_date v.fitness_expiry_date;
  tax_token_expiry_date = get_or dto.tax_token_expiry_date v.tax_token_expiry_date;
}

-- `Object.keys(data).length === 0`
abbrev pub nothing_given : UpdateVehicleDto → Bool
nothing_given dto =
    is_none dto.registration_no
    && (is_none dto.make
        && (is_none dto.model
            && (is_none dto.year
                && (is_none dto.color
                    && (is_none dto.fuel_type
                        && (is_none dto.seat_count
                            && (is_none dto.status
                                && (is_none dto.source_type
                                    && (is_none dto.branch_id
                                        && (is_none dto.fitness_expiry_date
                                            && is_none dto.tax_token_expiry_date))))))))))

-- Another row with the registration number.
abbrev pub other_registration : ℕ → ℕ → Vehicle → Bool
other_registration id registration_no v = v.registration_no == registration_no && not (v.id == id)

abbrev pub has_status : Option VehicleStatus → Vehicle → Bool
has_status none v = true
has_status (some status) v = vehicle_status_eq v.status status

module _ (c : Client) where
  -- `vehicle.create`, with the unique column and the foreign key.
  unfoldable pub create_row : ℕ → ℕ → CreateVehicleDto → Action Vehicle
  create_row id tenant_id dto = do
    unique c (λ s. s.vehicles) (λ v. v.registration_no == dto.registration_no)
    when (not (is_none dto.branch_id))
        (references c (λ s. s.branches) (λ b. b.id == get_or dto.branch_id 0))
    insert_row c (λ s. s.vehicles) put_vehicles (new_vehicle id tenant_id dto)

  -- The vehicle and its source contract, in one transaction.
  unfoldable pub create_sourced : ℕ → ℕ → ℕ → CreateVehicleDto → SourceContractDto → Action Vehicle
  create_sourced id contract_id tenant_id dto contract = transaction (do
    vehicle ← create_row id tenant_id dto
    row ←
        insert_row c (λ s. s.contracts) put_contracts
          (source_contract contract_id tenant_id vehicle.id contract)
    pure vehicle)

  -- The branch of `create` for a vehicle that comes by contract.
  unfoldable pub create_by_contract : ℕ → ℕ → ℕ → CreateVehicleDto → Action Vehicle
  create_by_contract id contract_id tenant_id dto = do
    contract ←
        or_throw dto.contract (bad_request "contract is required when sourceType is CONTRACT")
    throw_if (leb contract.end_date contract.start_date)
        (bad_request "endDate must be after startDate")
    created ← create_sourced id contract_id tenant_id dto contract
    found ← find_first c (λ s. s.vehicles) (has_vehicle_key created.id)
    or_throw found record_not_found

  unfoldable pub create : ℕ → ℕ → ℕ → CreateVehicleDto → Action Vehicle
  create id contract_id tenant_id dto = do
    assert_registration_unique c dto.registration_no none
    branch ← assert_branch_exists c tenant_id dto.branch_id
    (if is_contract (source_of dto)
        then create_by_contract id contract_id tenant_id dto
        else create_row id tenant_id dto)

  pub find_all : ℕ → Option VehicleStatus → Option ℕ → Action (List Vehicle)
  find_all tenant_id status branch_id =
      find_many c (λ s. s.vehicles)
        (λ v.
          v.tenant_id == tenant_id
          && (is_none v.deleted_at
              && (has_status status v
                  && (if given branch_id then is_just v.branch_id (get_or branch_id 0) else true))))

  pub find_one : ℕ → ℕ → Action Vehicle
  find_one tenant_id id = do
    found ← find_first c (λ s. s.vehicles) (is_tenant_vehicle tenant_id id)
    or_throw found (not_found "Vehicle not found")

  -- The write of `update`, with the unique column.
  unfoldable pub update_vehicle_row : ℕ → UpdateVehicleDto → Action Vehicle
  update_vehicle_row id dto = do
    when (not (is_none dto.registration_no))
        (unique c (λ s. s.vehicles) (other_registration id (get_or dto.registration_no 0)))
    update_row c (λ s. s.vehicles) put_vehicles (has_vehicle_key id) (edited dto)

  unfoldable pub update : ℕ → ℕ → UpdateVehicleDto → Action Vehicle
  update tenant_id id dto = do
    found ← find_first c (λ s. s.vehicles) (is_tenant_vehicle tenant_id id)
    vehicle ← or_throw found (not_found "Vehicle not found")
    when (given dto.registration_no && not (is_just dto.registration_no vehicle.registration_no))
        (assert_registration_unique c (get_or dto.registration_no 0) (some id))
    when (not (is_none dto.branch_id))
        (do branch ← assert_branch_exists c tenant_id (get_or dto.branch_id none); pure tt)
    throw_if (nothing_given dto) (bad_request "No updatable fields provided")
    update_vehicle_row id dto

  unfoldable pub remove : ℕ → ℕ → ℕ → Action (Unit {0})
  remove now tenant_id id = do
    found ← find_first c (λ s. s.vehicles) (is_tenant_vehicle tenant_id id)
    vehicle ← or_throw found (not_found "Vehicle not found")
    row ←
        update_row c (λ s. s.vehicles) put_vehicles (has_vehicle_key id)
          (λ v. record v { deleted_at = some now })
    pure tt
