-- ===== src/Tests/Workshop.antt =====
-- workshop.service.ts and maintenance.service.ts on example tables.
use node_vms.Prelude.{◌≡◌, refl, none, some, [], ◌∷◌, Listed, arith}
use mathlib.Core.List.{Memᴰ}
use node_vms.Schema.{WorkshopJob, WorkshopItem, WorkshopJobStatus}
use node_vms.Database.Lists.{lists}
use node_vms.Database.Errors.{err, bad_request}
use node_vms.Database.Action.{Db}
use node_vms.Workshop.{
  CreateWorkshopJobDto, AddWorkshopItemDto, create_job, add_item, update_status,
}
use node_vms.Workshop.Bills.{BillsAgree, Step, Reach, Reach-BillsAgree}
use node_vms.Maintenance.{CreateMaintenanceLogDto}
use node_vms.Maintenance as Upkeep
use node_vms.Maintenance.Itemised.{Itemised, create-Itemised}
use node_vms.Tests.Data.{fleet}

abbrev brakes : WorkshopJob
brakes = record {
  id = 71;
  tenant_id = 7;
  branch_id = none;
  vehicle_id = 1;
  issue = 1;
  status = WorkshopJobStatus.in_progress;
  total_cost = 40;
  deleted_at = none;
}

abbrev pads : WorkshopItem
pads = record { job_id = 71; name = 2; cost = 40 }

abbrev yard : Db
yard = record fleet { workshop_jobs = brakes ∷ []; workshop_items = pads ∷ [] }

abbrev oil : AddWorkshopItemDto
oil = record { name = 3; cost = 25 }

abbrev noise : CreateWorkshopJobDto
noise = record { vehicle_id = 1; issue = 4 }

only_brakes : (j : WorkshopJob) → Listed j yard.workshop_jobs → j ≡ brakes
only_brakes j (Memᴰ.head e) = e
only_brakes j (Memᴰ.tail m) = elim m [ ]

only_pads : (i : WorkshopItem) → Listed i yard.workshop_items → i ≡ pads
only_pads i (Memᴰ.head e) = e
only_pads i (Memᴰ.tail m) = elim m [ ]

yard-BillsAgree : BillsAgree yard
yard-BillsAgree = record {
  billed = λ j m. rw (only_brakes j m) refl;
  owned = λ i m. (brakes, Memᴰ.head refl, rw (only_pads i m) refl);
}

abbrev closed : Db
closed = (update_status lists 7 71 WorkshopJobStatus.completed yard).1

-- A closed job takes no more items.
closed_refuses :
    (add_item lists 7 71 oil closed).0 ≡ err (bad_request "Cannot add items to a completed job")
unfolding add_item update_status
closed_refuses = refl

-- A job is opened, an item added to the other one, and that one closed.
Reach-BillsAgree_example :
    BillsAgree
      (update_status lists 7 71 WorkshopJobStatus.completed
        (add_item lists 7 71 oil (create_job lists 72 7 noise yard).1).1).1
Reach-BillsAgree_example =
    Reach-BillsAgree lists
      (Reach.next
        (Reach.next (Reach.next Reach.here (Step.opens 72 7 noise ((λ e. ground arith), tt) refl))
          (Step.adds 7 71 oil refl))
        (Step.moves 7 71 WorkshopJobStatus.completed refl))
      yard-BillsAgree

abbrev stock : Db
stock = record fleet { maintenance_logs = []; maintenance_items = [] }

abbrev service_dto : CreateMaintenanceLogDto
service_dto = record {
  vehicle_id = 1;
  date = 66;
  note = none;
  total_cost = some 1;
  items = some (record { name = 1; cost = 30 } ∷ (record { name = 2; cost = 12 } ∷ []));
}

stock-Itemised : Itemised stock
stock-Itemised = record { priced = λ m i n l. elim l [ ]; owned = λ i l. elim l [ ] }

create-Itemised_example : Itemised (Upkeep.create lists 81 7 service_dto stock).1
create-Itemised_example = create-Itemised lists stock 81 7 service_dto stock-Itemised tt
