-- ===== src/Scheduling.antt =====
-- src/scheduling/scheduling.service.ts: whether a vehicle or a driver is free over a period.
pub mod Instants
pub mod Sound
use node_vms.Prelude.{
  ℕ, Bool, true, false, ◌&&◌, ◌||◌, Option, none, some, List, [], ◌∷◌, ◌++◌, ltb, leb, ◌==◌,
  is_none,
}
use node_vms.Schema.{
  Vehicle, Assignment, Booking, Trip, MaintenanceLog, is_maintenance, booking_is_pending,
  booking_is_confirmed,
}
use node_vms.Database.Client.{Client}
use node_vms.Database.Errors.{
  Reason, conflicting_booking, active_trip_from, overlapping_trip, under_maintenance,
  maintenance_on, assigned_until, assigned_with_no_end, driver_overlapping_trip,
  driver_on_active_trip,
}
use node_vms.Database.Action.{Db, Action, pure, ◌>>=◌, find_first}

pub record AvailabilityResult : Type 0 where
  pub available : Bool
  pub reasons : List Reason

-- `{ available: reasons.length === 0, reasons }`
abbrev pub to_result : List Reason → AvailabilityResult
to_result [] = record { available = true; reasons = [] }
to_result (r ∷ rs) = record { available = false; reasons = r ∷ rs }

-- `OR: [{ end: null }, { end: { gt: start } }]`
abbrev pub ends_after : Option ℕ → ℕ → Bool
ends_after none start = true
ends_after (some e) start = ltb start e

-- The `where` clauses of the five queries.
abbrev pub booking_conflicts : ℕ → ℕ → ℕ → ℕ → Booking → Bool
booking_conflicts vehicle_id tenant_id start end_ b =
    b.vehicle_id == vehicle_id
    && (b.tenant_id == tenant_id
        && (is_none b.deleted_at
            && ((booking_is_pending b.status || booking_is_confirmed b.status)
                && (ltb b.start_date end_ && ltb start b.end_date))))

abbrev pub vehicle_trip_conflicts : ℕ → ℕ → ℕ → ℕ → Trip → Bool
vehicle_trip_conflicts vehicle_id tenant_id start end_ t =
    t.vehicle_id == vehicle_id
    && (t.tenant_id == tenant_id
        && (is_none t.deleted_at && (ltb t.start_time end_ && ends_after t.end_time start)))

abbrev pub driver_trip_conflicts : ℕ → ℕ → ℕ → ℕ → Trip → Bool
driver_trip_conflicts driver_id tenant_id start end_ t =
    t.driver_id == driver_id
    && (t.tenant_id == tenant_id
        && (is_none t.deleted_at && (ltb t.start_time end_ && ends_after t.end_time start)))

abbrev pub maintenance_conflicts : ℕ → ℕ → ℕ → ℕ → MaintenanceLog → Bool
maintenance_conflicts vehicle_id tenant_id start end_ m =
    m.vehicle_id == vehicle_id
    && (m.tenant_id == tenant_id && (is_none m.deleted_at && (leb start m.date && leb m.date end_)))

abbrev pub assignment_conflicts : ℕ → ℕ → ℕ → Assignment → Bool
assignment_conflicts driver_id start end_ a =
    a.driver_id == driver_id
    && (is_none a.deleted_at && (ltb a.start_date end_ && ends_after a.end_date start))

abbrev booking_reason : Option Booking → List Reason
booking_reason none = []
booking_reason (some b) = conflicting_booking b.start_date b.end_date ∷ []

abbrev vehicle_trip_reason : Option Trip → List Reason
vehicle_trip_reason none = []
vehicle_trip_reason (some t) = elim t.end_time [
  | none ↦ overlapping_trip ∷ []
  | some _ ↦ active_trip_from t.start_time ∷ []
]

abbrev maintenance_reason : Option MaintenanceLog → List Reason
maintenance_reason none = []
maintenance_reason (some m) = maintenance_on m.date ∷ []

-- `vehicle?.status === 'MAINTENANCE'`
abbrev pub in_maintenance : Option Vehicle → Bool
in_maintenance none = false
in_maintenance (some v) = is_maintenance v.status

abbrev assignment_reason : Option Assignment → List Reason
assignment_reason none = []
assignment_reason (some a) = elim a.end_date [
  | none ↦ assigned_with_no_end ∷ []
  | some e ↦ assigned_until e ∷ []
]

abbrev driver_trip_reason : Option Trip → List Reason
driver_trip_reason none = []
driver_trip_reason (some t) = elim t.end_time [
  | none ↦ driver_on_active_trip ∷ []
  | some _ ↦ driver_overlapping_trip ∷ []
]

module _ (c : Client) where
  -- Step 3: the log is looked up only where the status does not already say it.
  maintenance_reasons : ℕ → ℕ → ℕ → ℕ → Action (List Reason)
  maintenance_reasons vehicle_id tenant_id start end_ = do
    vehicle ← find_first c (λ s. s.vehicles) (λ v. v.id == vehicle_id)
    elim (in_maintenance vehicle) [
      | true ↦ pure (under_maintenance ∷ [])
      | false ↦ do
        log ←
            find_first c (λ s. s.maintenance_logs)
              (maintenance_conflicts vehicle_id tenant_id start end_)
        pure (maintenance_reason log)
    ]

  unfoldable pub check_vehicle_availability : ℕ → ℕ → ℕ → ℕ → Action AvailabilityResult
  unfolding maintenance_reasons
  check_vehicle_availability vehicle_id tenant_id start end_ = do
    booking ← find_first c (λ s. s.bookings) (booking_conflicts vehicle_id tenant_id start end_)
    trip ← find_first c (λ s. s.trips) (vehicle_trip_conflicts vehicle_id tenant_id start end_)
    upkeep ← maintenance_reasons vehicle_id tenant_id start end_
    pure (to_result (booking_reason booking ++ (vehicle_trip_reason trip ++ upkeep)))

  unfoldable pub check_driver_availability : ℕ → ℕ → ℕ → ℕ → Action AvailabilityResult
  check_driver_availability driver_id tenant_id start end_ = do
    assignment ← find_first c (λ s. s.assignments) (assignment_conflicts driver_id start end_)
    trip ← find_first c (λ s. s.trips) (driver_trip_conflicts driver_id tenant_id start end_)
    pure (to_result (assignment_reason assignment ++ driver_trip_reason trip))
