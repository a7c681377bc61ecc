-- ===== src/Tests/Fleet.antt =====
-- vehicles.service.ts and contracts.service.ts on the example fleet.
use node_vms.Prelude.{◌≡◌, ◌≢◌, refl, inl, inr, none, some, All, arith}
use mathlib.Core.List.{Memᴰ}
use node_vms.Schema.{VehicleStatus, VehicleSourceType, ContractType}
use node_vms.Database.Lists.{lists}
use node_vms.Database.Errors.{ok}
use node_vms.Database.Action.{Db}
use node_vms.Trips.Fleet.{Consistent}
use node_vms.Vehicles.{
  CreateVehicleDto, SourceContractDto, create, create_by_contract, create_sourced, create_row,
  update, edited,
}
use node_vms.EntityValidator.{assert_registration_unique, assert_branch_exists}
use node_vms.Vehicles.Sources.{Sourced, create-Sourced}
use node_vms.Vehicles.Status.{to_status, update_frees_a_driving_vehicle}
use node_vms.Contracts.{CreateContractDto, UpdateContractDto}
use node_vms.Contracts as Deals
use node_vms.Contracts.Sound.{ContractsSound}
use node_vms.Contracts.History.{Step, Reach, Reach-ContractsSound}
use node_vms.Tests.Data.{fleet, car}
use node_vms.Tests.Trips.{two_rows, fleet-Consistent}

abbrev lease : SourceContractDto
lease = record {
  start_date = 10;
  end_date = 90;
  amount = 500;
  commission = none;
  contact_name = none;
  contact_email = none;
  contact_phone = none;
  contact_address = none;
}

abbrev van : CreateVehicleDto
van = record {
  registration_no = 101;
  make = none;
  model = 12;
  year = none;
  color = none;
  fuel_type = none;
  seat_count = none;
  source_type = some VehicleSourceType.contract;
  branch_id = none;
  fitness_expiry_date = none;
  tax_token_expiry_date = none;
  contract = some lease;
}

fleet-Sourced : Sourced fleet
fleet-Sourced v m e =
    elim (two_rows (car 1 VehicleStatus.available) (car 2 VehicleStatus.on_trip) v m) [
      | inl p ↦ absurd (ground arith)
      | inr p ↦ absurd (ground arith)
    ]

create-Sourced_example : Sourced (create lists 5 90 7 van fleet).1
create-Sourced_example = create-Sourced lists 5 90 7 van fleet fleet-Sourced

update_frees_a_driving_vehicle_example :
    (s' : Db) × (update lists 7 2 (to_status VehicleStatus.available) fleet
      ≡ (ok (edited (to_status VehicleStatus.available) (car 2 VehicleStatus.on_trip)), s'))
    × (¬ Consistent s')
update_frees_a_driving_vehicle_example =
    update_frees_a_driving_vehicle lists fleet (car 2 VehicleStatus.on_trip) fleet-Consistent
      (Memᴰ.tail (Memᴰ.head refl)) refl refl

abbrev hire : CreateContractDto
hire = record {
  type = ContractType.client;
  start_date = 20;
  end_date = 40;
  amount = 300;
  commission = some 30;
  vehicle_id = some 1;
  vehicle = none;
  contact_name = none;
  contact_email = none;
  contact_phone = none;
  contact_address = none;
}

abbrev longer : UpdateContractDto
longer = record {
  type = none;
  start_date = none;
  end_date = some 60;
  amount = none;
  commission = none;
  vehicle_id = none;
  contact_name = none;
  contact_email = none;
  contact_phone = none;
  contact_address = none;
}

fleet-ContractsSound : ContractsSound fleet
fleet-ContractsSound = record {
  sound = λ k m. elim m [ ];
  unique = λ a b m. elim m [ ];
  keys = λ v m e.
      elim (two_rows (car 1 VehicleStatus.available) (car 2 VehicleStatus.on_trip) v m) [
        | inl p ↦ ground arith
        | inr p ↦ ground arith
      ];
}

leased : All (λ k. k.id ≢ 91) (create lists 5 90 7 van fleet).1.contracts
unfolding create create_by_contract create_sourced create_row assert_registration_unique
    assert_branch_exists
leased = ((λ e. ground arith), tt)

-- A vehicle comes by contract, another one is hired out, and its contract prolonged.
Reach-ContractsSound_example :
    ContractsSound
      (Deals.update lists 7 91 longer
        (Deals.create lists 91 6 7 hire (create lists 5 90 7 van fleet).1).1).1
Reach-ContractsSound_example =
    Reach-ContractsSound lists
      (Reach.next
        (Reach.next (Reach.next Reach.here (Step.buys 5 90 7 van (λ e. ground arith) tt refl))
          (Step.creates 91 6 7 hire (λ e. ground arith) leased refl))
        (Step.updates 7 91 longer refl))
      fleet-ContractsSound
