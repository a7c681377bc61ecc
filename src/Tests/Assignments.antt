-- ===== src/Tests/Assignments.antt =====
-- assignments.service.ts on the example fleet.
use node_vms.Prelude.{◌≡◌, refl, none, some, arith, [], ◌∷◌}
use mathlib.Core.List.{Memᴰ}
use node_vms.Schema.{Assignment}
use node_vms.Database.Lists.{lists}
use node_vms.Database.Errors.{ok}
use node_vms.Database.Action.{Db}
use node_vms.Database.Pairs.{Pairs-insert}
use node_vms.Assignments.{
  CreateAssignmentDto, UpdateAssignmentDto, new_assignment, with_update, create, update,
}
use node_vms.Assignments.Exclusive.{Exclude, Exclude-of_eq, Exclusive, create-Exclusive}
use node_vms.Assignments.Updates.{as_in, update_overlaps}
use node_vms.Tests.Data.{fleet, ann, ann_drives}

abbrev next_month : CreateAssignmentDto
next_month = record { vehicle_id = 1; driver_id = 3; start_date = 61; end_date = some 90 }

fleet-Exclusive : Exclusive fleet
fleet-Exclusive =
    Pairs-insert lists Exclude ann_drives [] (Exclude-of_eq refl) (λ a m. elim m [ ])
      (λ a b m. elim m [ ])

create-Exclusive_example : Exclusive (create lists 95 7 next_month fleet).1
create-Exclusive_example =
    create-Exclusive lists 95 7 next_month fleet (λ e. ground arith, tt) fleet-Exclusive

assigned : (create lists 95 7 next_month fleet).0 ≡ ok (new_assignment 95 next_month)
unfolding create
assigned = refl

abbrev ann_later : Assignment
ann_later = record {
  id = 93;
  vehicle_id = 2;
  driver_id = 3;
  start_date = 70;
  end_date = none;
  deleted_at = none;
}

abbrev planned : Db
planned = record fleet { assignments = ann_drives ∷ (ann_later ∷ []) }

update_overlaps_example :
    ((a : Assignment) × ((update lists 7 4 (as_in ann_later) planned).0 ≡ ok a))
    × ¬ Exclusive (update lists 7 4 (as_in ann_later) planned).1
update_overlaps_example =
    update_overlaps lists 7 planned ann_drives ann_later refl ann (λ e. ground arith)
      (Memᴰ.head refl) refl tt (Memᴰ.tail (Memᴰ.head refl)) refl (λ e. ground arith)

abbrev longer : UpdateAssignmentDto
longer = record {
  vehicle_id = some 2;
  driver_id = none;
  start_date = none;
  end_date = some (some 65);
}

lengthened : (update lists 7 4 longer fleet).0 ≡ ok (with_update longer ann_drives)
unfolding update
lengthened = refl
