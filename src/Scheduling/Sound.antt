-- ===== src/Scheduling/Sound.antt =====
-- What the answer of scheduling.service.ts means, in instants: a period is the instants from its
-- start up to its end, and two periods are in conflict when they share an instant.
use node_vms.Prelude.{
  ℕ, ◌<◌, ◌≡◌, ◌↔◌, false, none, some, [], arith, All, All-mono, All-mono₂, ◌==◌,
}
use node_vms.Database.Client.{Client}
use node_vms.Database.Action.{Db}
use node_vms.Database.Errors.{ok}
use node_vms.Database.Lookup.{find_first-none_iff}
use node_vms.Scheduling.{
  to_result, booking_conflicts, vehicle_trip_conflicts, driver_trip_conflicts,
  maintenance_conflicts, assignment_conflicts, in_maintenance, check_vehicle_availability,
  check_driver_availability,
}
use node_vms.Scheduling.Instants.{
  NonEmpty, BookingApart, VehicleTripApart, DriverTripApart, MaintenanceApart, AssignmentApart,
  booking-Apart, vehicle_trip-Apart, driver_trip-Apart, maintenance-Apart, assignment-Apart,
  Apart-booking, Apart-vehicle_trip, Apart-driver_trip, Apart-assignment, Apart-maintenance,
}

-- Nothing of the tenant holds the vehicle between `start` and `end_`.
pub record VehicleFree (vehicle_id tenant_id start end_ : ℕ) (s : Db) : Type 0 where
  pub no_booking : All (BookingApart vehicle_id tenant_id start end_) s.bookings
  pub no_trip : All (VehicleTripApart vehicle_id tenant_id start end_) s.trips
  pub no_maintenance : All (MaintenanceApart vehicle_id tenant_id start end_) s.maintenance_logs

-- No assignment and no trip holds the driver between `start` and `end_`.
pub record DriverFree (driver_id tenant_id start end_ : ℕ) (s : Db) : Type 0 where
  pub no_assignment : All (AssignmentApart driver_id start end_) s.assignments
  pub no_trip : All (DriverTripApart driver_id tenant_id start end_) s.trips

-- Every stored period has its start before its end.
pub record HasPeriods (s : Db) : Type 0 where
  pub bookings : All (λ b. NonEmpty b.start_date (some b.end_date)) s.bookings
  pub trips : All (λ t. NonEmpty t.start_time t.end_time) s.trips
  pub assignments : All (λ a. NonEmpty a.start_date a.end_date) s.assignments

-- The vehicle's own row does not say that it is in the workshop.
abbrev pub NotInMaintenance : Client → ℕ → Db → Type 0
NotInMaintenance c id s = in_maintenance (c.find_first (λ v. v.id == id) s.vehicles) ≡ false

module _ (c : Client) (id tenant_id start end_ : ℕ) (s : Db) where
  -- The four lookups behind the answer.
  abbrev VehicleLookups : Type 0
  VehicleLookups =
      (c.find_first (booking_conflicts id tenant_id start end_) s.bookings ≡ none)
      × (c.find_first (vehicle_trip_conflicts id tenant_id start end_) s.trips ≡ none)
      × NotInMaintenance c id s
      × (c.find_first (maintenance_conflicts id tenant_id start end_) s.maintenance_logs ≡ none)

  vehicle_available-lookups :
      (check_vehicle_availability c id tenant_id start end_ s ≡ (ok (to_result []), s))
      ↔ VehicleLookups
  unfolding check_vehicle_availability
  vehicle_available-lookups = (λ h. ground arith, λ h. ground arith)

  -- A vehicle is reported free exactly when no pending or confirmed booking, no trip and no
  -- maintenance day of the tenant meets the period and the vehicle is not in maintenance. The
  -- period and every stored period must have their starts before their ends.
  pub vehicle_available_iff :
      start < end_
      → HasPeriods s
      → (check_vehicle_availability c id tenant_id start end_ s ≡ (ok (to_result []), s))
        ↔ (NotInMaintenance c id s × VehicleFree id tenant_id start end_ s)
  vehicle_available_iff lt w = (
    λ h.
        let (b, t, m, l) = vehicle_available-lookups.0 h in
        (
          m,
          record {
            no_booking =
                All-mono _ _ s.bookings (booking-Apart id tenant_id start end_)
                  (c.find_first-none _ _ b);
            no_trip =
                All-mono _ _ s.trips (vehicle_trip-Apart id tenant_id start end_)
                  (c.find_first-none _ _ t);
            no_maintenance =
                All-mono _ _ s.maintenance_logs (maintenance-Apart id tenant_id start end_)
                  (c.find_first-none _ _ l);
          },
        ),
    λ (m, f). vehicle_available-lookups.1 (
      (find_first-none_iff c _ s.bookings).1 (
          All-mono₂ _ _ _ s.bookings (Apart-booking id tenant_id start end_ lt) w.bookings
            f.no_booking),
      (find_first-none_iff c _ s.trips).1 (
          All-mono₂ _ _ _ s.trips (Apart-vehicle_trip id tenant_id start end_ lt) w.trips
            f.no_trip),
      m,
      (find_first-none_iff c _ s.maintenance_logs).1 (
          All-mono _ _ s.maintenance_logs (Apart-maintenance id tenant_id start end_)
            f.no_maintenance),
    ),
  )

  driver_available-lookups :
      (check_driver_availability c id tenant_id start end_ s ≡ (ok (to_result []), s)) ↔ (
        (c.find_first (assignment_conflicts id start end_) s.assignments ≡ none)
        × (c.find_first (driver_trip_conflicts id tenant_id start end_) s.trips ≡ none))
  unfolding check_driver_availability
  driver_available-lookups = (λ h. ground arith, λ h. ground arith)

  -- A driver is reported free exactly when no assignment, of whatever tenant, and no trip of the
  -- tenant meets the period; open ends count as later than everything. The period and every
  -- stored period must have their starts before their ends.
  pub driver_available_iff :
      start < end_
      → HasPeriods s
      → (check_driver_availability c id tenant_id start end_ s ≡ (ok (to_result []), s))
        ↔ DriverFree id tenant_id start end_ s
  driver_available_iff lt w = (
    λ h.
        let (a, t) = driver_available-lookups.0 h in
        record {
          no_assignment =
              All-mono _ _ s.assignments (assignment-Apart id tenant_id start end_)
                (c.find_first-none _ _ a);
          no_trip =
              All-mono _ _ s.trips (driver_trip-Apart id tenant_id start end_)
                (c.find_first-none _ _ t);
        },
    λ f. driver_available-lookups.1 (
      (find_first-none_iff c _ s.assignments).1 (
          All-mono₂ _ _ _ s.assignments (Apart-assignment id tenant_id start end_ lt) w.assignments
            f.no_assignment),
      (find_first-none_iff c _ s.trips).1 (
          All-mono₂ _ _ _ s.trips (Apart-driver_trip id tenant_id start end_ lt) w.trips f.no_trip),
    ),
  )
