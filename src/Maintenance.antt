-- ===== src/Maintenance.antt =====
-- src/maintenance/maintenance.service.ts, with its DTO: maintenance logs with a price, or with items.
pub mod Itemised
use node_vms.Prelude.{
  ℕ, Bool, true, ◌&&◌, Option, none, some, List, [], ◌∷◌, map, given, get_or, ◌==◌, is_none, sum_of,
  if◌then◌else◌,
}
use node_vms.Schema.{MaintenanceLog, MaintenanceItem}
use node_vms.Database.Client.{Client}
use node_vms.Database.Errors.{bad_request, not_found, ok}
use node_vms.Database.Action.{
  Db, Action, modify, or_throw, ◌>>=◌, ◌>>◌, find_first, insert_row, put_maintenance_logs,
  put_maintenance_items,
}
use node_vms.EntityValidator.{is_tenant_vehicle}

pub record CreateMaintenanceItemDto : Type 0 where
  pub name : ℕ
  pub cost : ℕ

pub record CreateMaintenanceLogDto : Type 0 where
  pub vehicle_id : ℕ
  pub date : ℕ
  pub note : Option ℕ
  pub total_cost : Option ℕ
  pub items : Option (List CreateMaintenanceItemDto)

-- What `maintenanceLogSelect` picks.
pub record LogCard : Type 0 where
  pub log : MaintenanceLog
  pub items : List MaintenanceItem

abbrev pub is_tenant_log : ℕ → ℕ → MaintenanceLog → Bool
is_tenant_log tenant_id id m = m.id == id && (m.tenant_id == tenant_id && is_none m.deleted_at)

abbrev pub part_of : ℕ → MaintenanceItem → Bool
part_of log_id i = i.maintenance_id == log_id

abbrev pub items_given : CreateMaintenanceLogDto → List CreateMaintenanceItemDto
items_given dto = get_or dto.items []

-- `totalCost`: the sum of the items if there are any, or else the price that the request gives.
abbrev pub price : List CreateMaintenanceItemDto → Option ℕ → Option ℕ
price [] total_cost = total_cost
price (i ∷ items) total_cost = some (sum_of (λ x. x.cost) (i ∷ items))

abbrev pub new_log : ℕ → ℕ → ℕ → CreateMaintenanceLogDto → MaintenanceLog
new_log id tenant_id total_cost dto = record {
  id = id;
  tenant_id = tenant_id;
  vehicle_id = dto.vehicle_id;
  total_cost = total_cost;
  note = dto.note;
  date = dto.date;
  deleted_at = none;
}

abbrev pub new_part : ℕ → CreateMaintenanceItemDto → MaintenanceItem
new_part log_id i = record { maintenance_id = log_id; name = i.name; cost = i.cost }

module _ (c : Client) where
  abbrev pub insert_parts :
      ℕ → List CreateMaintenanceItemDto → List MaintenanceItem → List MaintenanceItem
  insert_parts log_id [] t = t
  insert_parts log_id (i ∷ items) t = c.insert (new_part log_id i) (insert_parts log_id items t)

  abbrev pub log_select : MaintenanceLog → Action LogCard
  log_select log s =
      (ok (record { log = log; items = c.find_many (part_of log.id) s.maintenance_items }), s)

  -- The nested `create`, one statement for the log and its items.
  unfoldable pub create_log : ℕ → ℕ → ℕ → CreateMaintenanceLogDto → Action LogCard
  create_log id tenant_id total_cost dto = do
    log ←
        insert_row c (λ s. s.maintenance_logs) put_maintenance_logs
          (new_log id tenant_id total_cost dto)
    modify (λ s. put_maintenance_items (insert_parts id (items_given dto) s.maintenance_items) s)
    log_select log

  unfoldable pub create : ℕ → ℕ → CreateMaintenanceLogDto → Action LogCard
  create id tenant_id dto = do
    found ← find_first c (λ s. s.vehicles) (is_tenant_vehicle tenant_id dto.vehicle_id)
    vehicle ← or_throw found (not_found "Vehicle not found")
    total_cost ←
        or_throw (price (items_given dto) dto.total_cost)
          (bad_request "Provide either totalCost (simple) or items[] (breakdown)")
    create_log id tenant_id total_cost dto

  pub find_all : ℕ → Option ℕ → Action (List LogCard)
  find_all tenant_id vehicle_id s = (
    ok (
        map (λ log. record { log = log; items = c.find_many (part_of log.id) s.maintenance_items })
          (c.find_many
            (λ m.
              m.tenant_id == tenant_id
              && (is_none m.deleted_at
                  && (if given vehicle_id then m.vehicle_id == get_or vehicle_id 0 else true)))
            s.maintenance_logs)),
    s,
  )

  unfoldable pub find_one : ℕ → ℕ → Action LogCard
  find_one tenant_id id = do
    found ← find_first c (λ s. s.maintenance_logs) (is_tenant_log tenant_id id)
    log ← or_throw found (not_found "Maintenance log not found")
    log_select log
