-- ===== src/Assignments.antt =====
-- src/assignments/assignments.service.ts, with its DTOs: which driver has which vehicle, and when.
-- The dates of a DTO are parsed, an empty one counting as absent; `id` is the key that the database
-- gives to a new row and `now` the clock. The foreign keys that are written name rows just found,
-- or were there before.
pub mod Exclusive
pub mod Updates
use node_vms.Prelude.{
  ℕ, Bool, true, false, ◌&&◌, not, Option, none, some, List, leb, ◌==◌, is_none, is_some, given,
  is_just, get_or, or_else, if◌then◌else◌,
}
use node_vms.Schema.{Assignment, Vehicle, Driver}
use node_vms.Database.Client.{Client}
use node_vms.Database.Errors.{Result, bad_request, not_found}
use node_vms.Database.Action.{
  Db, Action, pure, throw_if, or_throw, when, ◌>>=◌, ◌>>◌, find_first, insert_row, update_row,
  put_assignments,
}

pub record CreateAssignmentDto : Type 0 where
  pub vehicle_id : ℕ
  pub driver_id : ℕ
  pub start_date : ℕ
  pub end_date : Option ℕ

-- `end_date` is undefined, null, or a date.
pub record UpdateAssignmentDto : Type 0 where
  pub vehicle_id : Option ℕ
  pub driver_id : Option ℕ
  pub start_date : Option ℕ
  pub end_date : Option (Option ℕ)

-- `where: { id, tenantId, deletedAt: null }` on vehicles and on drivers.
abbrev pub is_own_vehicle : ℕ → ℕ → Vehicle → Bool
is_own_vehicle tenant_id id v = v.id == id && (v.tenant_id == tenant_id && is_none v.deleted_at)

abbrev pub is_own_driver : ℕ → ℕ → Driver → Bool
is_own_driver tenant_id id d = d.id == id && (d.tenant_id == tenant_id && is_none d.deleted_at)

-- `end && end <= start`
abbrev pub ends_too_early : Option ℕ → ℕ → Bool
ends_too_early none start = false
ends_too_early (some e) start = leb e start

-- `startDate: end ? { lte: end } : undefined`
abbrev pub starts_by : ℕ → Option ℕ → Bool
starts_by start none = true
starts_by start (some e) = leb start e

-- `OR: [{ endDate: null }, { endDate: { gte: start } }]`
abbrev pub reaches : Option ℕ → ℕ → Bool
reaches none start = true
reaches (some e) start = leb start e

abbrev pub vehicle_overlap : ℕ → ℕ → Option ℕ → Assignment → Bool
vehicle_overlap vehicle_id start end_ a =
    a.vehicle_id == vehicle_id
    && (is_none a.deleted_at && (starts_by a.start_date end_ && reaches a.end_date start))

abbrev pub driver_overlap : ℕ → ℕ → Option ℕ → Assignment → Bool
driver_overlap driver_id start end_ a =
    a.driver_id == driver_id
    && (is_none a.deleted_at && (starts_by a.start_date end_ && reaches a.end_date start))

abbrev pub has_assignment_id : ℕ → Assignment → Bool
has_assignment_id id a = a.id == id

-- `...(vehicleId && { vehicleId })`
abbrev pub matches_filter : Option ℕ → ℕ → Bool
matches_filter filter value = if given filter then is_just filter value else true

abbrev pub new_assignment : ℕ → CreateAssignmentDto → Assignment
new_assignment id dto = record {
  id = id;
  vehicle_id = dto.vehicle_id;
  driver_id = dto.driver_id;
  start_date = dto.start_date;
  end_date = dto.end_date;
  deleted_at = none;
}

-- `...(id && { id })`
abbrev pub replaced : Option ℕ → ℕ → ℕ
replaced key old = if given key then get_or key old else old

-- The fields that `update` writes.
abbrev pub with_update : UpdateAssignmentDto → Assignment → Assignment
with_update dto a = record a {
  vehicle_id = replaced dto.vehicle_id a.vehicle_id;
  driver_id = replaced dto.driver_id a.driver_id;
  start_date = get_or dto.start_date a.start_date;
  end_date = get_or dto.end_date a.end_date;
}

abbrev pub removed : ℕ → Assignment → Assignment
removed now a = record a { deleted_at = some now }

module _ (c : Client) where
  -- `vehicle: { tenantId }`
  abbrev pub has_own_vehicle : ℕ → Db → Assignment → Bool
  has_own_vehicle tenant_id s a =
      is_some (c.find_first (λ v. v.id == a.vehicle_id && v.tenant_id == tenant_id) s.vehicles)

  -- `where: { id, deletedAt: null, vehicle: { tenantId } }`
  abbrev pub is_assignment : ℕ → ℕ → Db → Assignment → Bool
  is_assignment tenant_id id s a =
      a.id == id && (is_none a.deleted_at && has_own_vehicle tenant_id s a)

  abbrev pub find_assignment : ℕ → ℕ → Action (Option Assignment)
  find_assignment tenant_id id s =
      (Result.ok (c.find_first (is_assignment tenant_id id s) s.assignments), s)

  abbrev pub own_vehicle : ℕ → ℕ → Action Vehicle
  own_vehicle tenant_id id = do
    found ← find_first c (λ s. s.vehicles) (is_own_vehicle tenant_id id)
    or_throw found (not_found "Vehicle not found")

  abbrev pub own_driver : ℕ → ℕ → Action Driver
  own_driver tenant_id id = do
    found ← find_first c (λ s. s.drivers) (is_own_driver tenant_id id)
    or_throw found (not_found "Driver not found")

  unfoldable pub create : ℕ → ℕ → CreateAssignmentDto → Action Assignment
  create id tenant_id dto = do
    throw_if (ends_too_early dto.end_date dto.start_date)
        (bad_request "endDate must be after startDate")
    vehicle ← own_vehicle tenant_id dto.vehicle_id
    driver ← own_driver tenant_id dto.driver_id
    by_vehicle ←
        find_first c (λ s. s.assignments)
          (vehicle_overlap dto.vehicle_id dto.start_date dto.end_date)
    throw_if (is_some by_vehicle)
        (bad_request "Vehicle already has an overlapping assignment in this period")
    by_driver ←
        find_first c (λ s. s.assignments) (driver_overlap dto.driver_id dto.start_date dto.end_date)
    throw_if (is_some by_driver)
        (bad_request "Driver already has an overlapping assignment in this period")
    insert_row c (λ s. s.assignments) put_assignments (new_assignment id dto)

  pub find_all : ℕ → Option ℕ → Option ℕ → Action (List Assignment)
  find_all tenant_id vehicle_id driver_id s = (
    Result.ok (
        c.find_many
          (λ a.
            is_none a.deleted_at
            && (has_own_vehicle tenant_id s a
                && (matches_filter vehicle_id a.vehicle_id
                    && matches_filter driver_id a.driver_id)))
          s.assignments),
    s,
  )

  pub find_one : ℕ → ℕ → Action Assignment
  find_one tenant_id id = do
    found ← find_assignment tenant_id id
    or_throw found (not_found "Assignment not found")

  unfoldable pub update : ℕ → ℕ → UpdateAssignmentDto → Action Assignment
  update tenant_id id dto = do
    found ← find_assignment tenant_id id
    assignment ← or_throw found (not_found "Assignment not found")
    throw_if
        (ends_too_early (get_or dto.end_date assignment.end_date)
          (get_or dto.start_date assignment.start_date))
        (bad_request "endDate must be after startDate")
    when (given dto.vehicle_id && not (is_just dto.vehicle_id assignment.vehicle_id))
        (do vehicle ← own_vehicle tenant_id (get_or dto.vehicle_id 0); pure tt)
    when (given dto.driver_id && not (is_just dto.driver_id assignment.driver_id))
        (do driver ← own_driver tenant_id (get_or dto.driver_id 0); pure tt)
    update_row c (λ s. s.assignments) put_assignments (has_assignment_id id) (with_update dto)

  pub remove : ℕ → ℕ → ℕ → Action (Unit {0})
  remove now tenant_id id = do
    found ← find_assignment tenant_id id
    assignment ← or_throw found (not_found "Assignment not found")
    row ← update_row c (λ s. s.assignments) put_assignments (has_assignment_id id) (removed now)
    pure tt
