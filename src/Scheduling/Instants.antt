-- ===== src/Scheduling/Instants.antt =====
-- Periods as the instants from their start up to their end, and the `where` clauses of
-- scheduling.service.ts as statements about them.
use node_vms.Prelude.{
  ℕ, ◌≤◌, ◌<◌, ◌≡◌, ◌⊎◌, inl, inr, false, Option, none, some, arith, Bool-cases, leb, if◌then◌else◌,
}
use node_vms.Schema.{Assignment, Booking, Trip, MaintenanceLog, BookingStatus}
use node_vms.Scheduling.{
  booking_conflicts, vehicle_trip_conflicts, driver_trip_conflicts, maintenance_conflicts,
  assignment_conflicts,
}

-- An open end is later than every instant.
abbrev pub Before : ℕ → Option ℕ → Type 0
Before t none = Unit {0}
Before t (some e) = t < e

-- No instant of the period from `start` to `end_` lies in the one from `from` to `to`.
abbrev pub Apart : ℕ → ℕ → ℕ → Option ℕ → Type 0
Apart start end_ from to = (t : ℕ) → start ≤ t → t < end_ → from ≤ t → Before t to → ⊥

-- A booking that holds its vehicle.
abbrev pub IsHeld : Booking → Type 0
IsHeld b =
    (b.deleted_at ≡ none)
    × ((b.status ≡ BookingStatus.pending) ⊎ (b.status ≡ BookingStatus.confirmed))

-- The later of two instants.
abbrev later : ℕ → ℕ → ℕ
later a b = if leb a b then b else a

-- A period that is not empty has its start before its end.
abbrev pub NonEmpty : ℕ → Option ℕ → Type 0
NonEmpty from to = Before from to

-- What a row must say to hold the vehicle or the driver, and what it then must satisfy.
abbrev pub BookingApart : ℕ → ℕ → ℕ → ℕ → Booking → Type 0
BookingApart vehicle_id tenant_id start end_ b =
    b.vehicle_id ≡ vehicle_id
    → b.tenant_id ≡ tenant_id
    → IsHeld b
    → Apart start end_ b.start_date (some b.end_date)

abbrev pub VehicleTripApart : ℕ → ℕ → ℕ → ℕ → Trip → Type 0
VehicleTripApart vehicle_id tenant_id start end_ t =
    t.vehicle_id ≡ vehicle_id
    → t.tenant_id ≡ tenant_id
    → t.deleted_at ≡ none
    → Apart start end_ t.start_time t.end_time

abbrev pub DriverTripApart : ℕ → ℕ → ℕ → ℕ → Trip → Type 0
DriverTripApart driver_id tenant_id start end_ t =
    t.driver_id ≡ driver_id
    → t.tenant_id ≡ tenant_id
    → t.deleted_at ≡ none
    → Apart start end_ t.start_time t.end_time

-- Both ends count for a day of maintenance.
abbrev pub MaintenanceApart : ℕ → ℕ → ℕ → ℕ → MaintenanceLog → Type 0
MaintenanceApart vehicle_id tenant_id start end_ m =
    m.vehicle_id ≡ vehicle_id
    → m.tenant_id ≡ tenant_id
    → m.deleted_at ≡ none
    → start ≤ m.date
    → m.date ≤ end_
    → ⊥

abbrev pub AssignmentApart : ℕ → ℕ → ℕ → Assignment → Type 0
AssignmentApart driver_id start end_ a =
    a.driver_id ≡ driver_id → a.deleted_at ≡ none → Apart start end_ a.start_date a.end_date

-- The tests of the `where` clauses, as statements about instants.
module _ (id tenant_id start end_ : ℕ) where
  pub booking-Apart :
      (b : Booking)
      → booking_conflicts id tenant_id start end_ b ≡ false
      → BookingApart id tenant_id start end_ b
  booking-Apart b h v n held t p q r w = ground arith

  pub vehicle_trip-Apart :
      (t : Trip)
      → vehicle_trip_conflicts id tenant_id start end_ t ≡ false
      → VehicleTripApart id tenant_id start end_ t
  vehicle_trip-Apart b h v n held t p q r w = ground arith

  pub driver_trip-Apart :
      (t : Trip)
      → driver_trip_conflicts id tenant_id start end_ t ≡ false
      → DriverTripApart id tenant_id start end_ t
  driver_trip-Apart b h v n held t p q r w = ground arith

  pub maintenance-Apart :
      (m : MaintenanceLog)
      → maintenance_conflicts id tenant_id start end_ m ≡ false
      → MaintenanceApart id tenant_id start end_ m
  maintenance-Apart m h v n held p q = ground arith

  pub assignment-Apart :
      (a : Assignment)
      → assignment_conflicts id start end_ a ≡ false
      → AssignmentApart id start end_ a
  assignment-Apart a h v held t p q r w = ground arith

  module _ (lt : start < end_) where
    pub Apart-booking :
        (b : Booking)
        → NonEmpty b.start_date (some b.end_date)
        → BookingApart id tenant_id start end_ b
        → booking_conflicts id tenant_id start end_ b ≡ false
    Apart-booking b ne h = elim (Bool-cases (booking_conflicts id tenant_id start end_ b)) [
      | inl e ↦ absurd (
          h (ground arith) (ground arith) (ground arith) (later start b.start_date) (ground arith)
            (ground arith) (ground arith) (ground arith))
      | inr e ↦ e
    ]

    pub Apart-vehicle_trip :
        (t : Trip)
        → NonEmpty t.start_time t.end_time
        → VehicleTripApart id tenant_id start end_ t
        → vehicle_trip_conflicts id tenant_id start end_ t ≡ false
    Apart-vehicle_trip t ne h =
        elim (Bool-cases (vehicle_trip_conflicts id tenant_id start end_ t)) [
          | inl e ↦ absurd (
              h (ground arith) (ground arith) (ground arith) (later start t.start_time)
                (ground arith) (ground arith) (ground arith) (ground arith))
          | inr e ↦ e
        ]

    pub Apart-driver_trip :
        (t : Trip)
        → NonEmpty t.start_time t.end_time
        → DriverTripApart id tenant_id start end_ t
        → driver_trip_conflicts id tenant_id start end_ t ≡ false
    Apart-driver_trip t ne h = elim (Bool-cases (driver_trip_conflicts id tenant_id start end_ t)) [
      | inl e ↦ absurd (
          h (ground arith) (ground arith) (ground arith) (later start t.start_time) (ground arith)
            (ground arith) (ground arith) (ground arith))
      | inr e ↦ e
    ]

    pub Apart-assignment :
        (a : Assignment)
        → NonEmpty a.start_date a.end_date
        → AssignmentApart id start end_ a
        → assignment_conflicts id start end_ a ≡ false
    Apart-assignment a ne h = elim (Bool-cases (assignment_conflicts id start end_ a)) [
      | inl e ↦ absurd (
          h (ground arith) (ground arith) (later start a.start_date) (ground arith) (ground arith)
            (ground arith) (ground arith))
      | inr e ↦ e
    ]

  pub Apart-maintenance :
      (m : MaintenanceLog)
      → MaintenanceApart id tenant_id start end_ m
      → maintenance_conflicts id tenant_id start end_ m ≡ false
  Apart-maintenance m h = elim (Bool-cases (maintenance_conflicts id tenant_id start end_ m)) [
    | inl e ↦ absurd (h (ground arith) (ground arith) (ground arith) (ground arith) (ground arith))
    | inr e ↦ e
  ]
