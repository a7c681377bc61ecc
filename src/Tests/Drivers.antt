-- ===== src/Tests/Drivers.antt =====
-- drivers.service.ts on two drivers, of whom one is deleted.
use node_vms.Prelude.{◌≡◌, refl, none, some, [], ◌∷◌, Listed, true}
use mathlib.Core.List.{Memᴰ}
use node_vms.Schema.{Driver}
use node_vms.Database.Lists.{lists}
use node_vms.Database.Errors.{err, unique_violation}
use node_vms.Database.Action.{Db, empty_db}
use node_vms.Drivers.{
  CreateDriverDto, UpdateDriverDto, create, create_row, update, update_driver_row,
}
use node_vms.EntityValidator.{assert_phone_unique, assert_license_unique, assert_branch_exists}
use node_vms.Drivers.Outcomes.{Answered, create-Answered}
use node_vms.Tests.Data.{ann}

abbrev gone : Driver
gone = record {
  id = 9;
  tenant_id = 8;
  branch_id = none;
  user_id = none;
  name = 12;
  phone = 99;
  license_no = 98;
  is_available = true;
  deleted_at = some 5;
}

abbrev pool : Db
pool = record empty_db { drivers = ann ∷ (gone ∷ []) }

abbrev hired : CreateDriverDto
hired = record { name = 70; phone = 71; license_no = 72; user_id = none; branch_id = none }

abbrev new_number : UpdateDriverDto
new_number = record {
  name = none;
  phone = some 73;
  license_no = none;
  is_available = none;
  branch_id = none;
}

abbrev renumbered : Driver
renumbered = record ann { phone = 73 }

first_is_renumbered : Listed renumbered (update lists 7 3 new_number pool).1.drivers
unfolding update update_driver_row assert_phone_unique assert_license_unique assert_branch_exists
first_is_renumbered = Memᴰ.head refl

abbrev rehired : CreateDriverDto
rehired = record hired { phone = 99 }

create-Answered_example : Answered lists 94 7 rehired pool (create lists 94 7 rehired pool)
create-Answered_example = create-Answered lists 94 7 rehired pool refl refl

-- The phone number of the deleted driver is refused by the database.
rehired_is_refused : create lists 94 7 rehired pool ≡ (err unique_violation, pool)
unfolding create create_row assert_phone_unique assert_license_unique assert_branch_exists
rehired_is_refused = refl
