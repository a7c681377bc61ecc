-- ===== src/Bookings/Outcomes.antt =====
-- bookings.service.ts: when a booking is accepted, what a refusal leaves behind, and what happens
-- when two requests run their checks before either of them writes.
use node_vms.Prelude.{
  ℕ, sym, ◌∙◌, ◌≤◌, ◌<◌, ◌≡◌, ◌≢◌, refl, inl, Option, none, some, String, arith, Listed, ◌==◌,
  get_or, [],
}
use node_vms.Schema.{Booking, Vehicle, Driver}
use node_vms.Database.Client.{Client}
use node_vms.Database.Errors.{ok, err, Error}
use node_vms.Database.Action.{Db, Action, put_bookings, ◌>>◌}
use node_vms.Database.Lookup.{find_first-total, Listed-insert, Listed-insert_self}
use node_vms.Scheduling.Instants.{IsHeld, Apart}
use node_vms.Scheduling.{check_vehicle_availability, check_driver_availability, to_result}
use node_vms.Scheduling.Sound.{
  VehicleFree, DriverFree, HasPeriods, NotInMaintenance, vehicle_available_iff,
  driver_available_iff,
}
use node_vms.Bookings.{
  CreateBookingDto, new_booking, create_checks, create_write, create, vehicle_must_be_free,
  driver_must_be_free,
}
use node_vms.Bookings.Conflicts.{
  NoDoubleBooking, vehicle_must_be_free-keeps, driver_must_be_free-keeps,
}

module _ (c : Client) (id tenant_id start end_ : ℕ) (text : String) (s : Db) where
  vehicle_must_be_free_of_available :
      check_vehicle_availability c id tenant_id start end_ s ≡ (ok (to_result []), s)
      → vehicle_must_be_free c id tenant_id start end_ text s ≡ (ok tt, s)
  unfolding vehicle_must_be_free
  vehicle_must_be_free_of_available h = ground arith

  driver_must_be_free_of_available :
      check_driver_availability c id tenant_id start end_ s ≡ (ok (to_result []), s)
      → driver_must_be_free c id tenant_id start end_ text s ≡ (ok tt, s)
  unfolding driver_must_be_free
  driver_must_be_free_of_available h = ground arith

-- The driver that a request names, if it names one, exists and is free.
abbrev pub DriverReady : Option ℕ → ℕ → ℕ → ℕ → Db → Type 0
DriverReady none tenant_id start end_ s = Unit {0}
DriverReady (some d) tenant_id start end_ s =
    (d ≢ 0) × DriverFree d tenant_id start end_ s × ((w : Driver) × Listed w s.drivers × (w.id ≡ d))

module _ (c : Client) (id tenant_id : ℕ) (dto : CreateBookingDto) (s : Db) where
  create_by_driver :
      (driver : Option ℕ)
      → dto.driver_id ≡ driver
      → dto.start_date < dto.end_date
      → HasPeriods s
      → check_vehicle_availability c dto.vehicle_id tenant_id dto.start_date dto.end_date s
        ≡ (ok (to_result []), s)
      → ((v : Vehicle) × (c.find_first (λ x. x.id == dto.vehicle_id) s.vehicles ≡ some v))
      → DriverReady driver tenant_id dto.start_date dto.end_date s
      → create c id tenant_id dto s ≡ (
        ok (new_booking id tenant_id dto),
        put_bookings (c.insert (new_booking id tenant_id dto) s.bookings) s,
      )
  unfolding create create_checks create_write
  create_by_driver none e lt w free (v, row) ready = ground (
    arith,
    vehicle_must_be_free_of_available c dto.vehicle_id tenant_id dto.start_date dto.end_date
        "Vehicle is not available for the requested period" s free,
  )
  create_by_driver (some d) e lt w free (v, row) (ne, idle, (x, m, k)) =
      let (y, found) =
        find_first-total c (λ (z : Driver). z.id == d) s.drivers x m (ground arith) in
      ground (
        arith,
        vehicle_must_be_free_of_available c dto.vehicle_id tenant_id dto.start_date dto.end_date
            "Vehicle is not available for the requested period" s free,
        driver_must_be_free_of_available c d tenant_id dto.start_date dto.end_date
            "Driver is not available for the requested period" s
            ((driver_available_iff c d tenant_id dto.start_date dto.end_date s lt w).1 idle),
      )

  -- A booking of a free vehicle is accepted: the method returns a pending booking with the
  -- requested values and the table gains exactly that row. The requested period must end after it
  -- starts and no stored period may be empty or reversed; the vehicle must exist, not be in
  -- maintenance and be met by no held booking, no trip and no maintenance day of the tenant in the
  -- period; and the driver, if one is named, must have a key that is not empty, exist and be free.
  pub create_accepts :
      (v : Vehicle)
      → Listed v s.vehicles
      → v.id ≡ dto.vehicle_id
      → dto.start_date < dto.end_date
      → HasPeriods s
      → NotInMaintenance c dto.vehicle_id s
      → VehicleFree dto.vehicle_id tenant_id dto.start_date dto.end_date s
      → DriverReady dto.driver_id tenant_id dto.start_date dto.end_date s
      → create c id tenant_id dto s ≡ (
        ok (new_booking id tenant_id dto),
        put_bookings (c.insert (new_booking id tenant_id dto) s.bookings) s,
      )
  create_accepts v m e lt w idle free ready =
      create_by_driver dto.driver_id refl lt w
        ((vehicle_available_iff c dto.vehicle_id tenant_id dto.start_date dto.end_date s lt w).1
          (idle, free))
        (find_first-total c (λ (x : Vehicle). x.id == dto.vehicle_id) s.vehicles v m (ground arith))
        ready

  -- Nothing keeps two tenants from booking one vehicle: if a booking of another tenant, which owns
  -- the vehicle, holds it at an instant of the requested period, and the request meets the conditions
  -- under which the tenant's own booking of a free vehicle is accepted, it is accepted, and both
  -- bookings, whose periods share the instant, are in the table. The conditions are that the period
  -- ends after it starts and no stored period is empty or reversed, that the vehicle is not in
  -- maintenance and met by no held booking, no trip and no maintenance day of the requesting tenant
  -- in the period, and that the driver, if one is named, has a key that is not empty, exists and is
  -- free.
  pub create_accepts_foreign_vehicle :
      (v : Vehicle) (x : Booking) (t : ℕ)
      → Listed v s.vehicles
      → v.id ≡ dto.vehicle_id
      → v.tenant_id ≡ x.tenant_id
      → x.tenant_id ≢ tenant_id
      → Listed x s.bookings
      → IsHeld x
      → x.vehicle_id ≡ dto.vehicle_id
      → (x.start_date ≤ t) × (t < x.end_date)
      → (dto.start_date ≤ t) × (t < dto.end_date)
      → dto.start_date < dto.end_date
      → HasPeriods s
      → NotInMaintenance c dto.vehicle_id s
      → VehicleFree dto.vehicle_id tenant_id dto.start_date dto.end_date s
      → DriverReady dto.driver_id tenant_id dto.start_date dto.end_date s
      → (b : Booking) × (s' : Db) × (create c id tenant_id dto s ≡ (ok b, s'))
        × Listed x s'.bookings
        × Listed b s'.bookings
        × IsHeld b
        × (b.vehicle_id ≡ x.vehicle_id)
        × (b.tenant_id ≢ v.tenant_id)
        × ¬ Apart x.start_date x.end_date b.start_date (some b.end_date)
  create_accepts_foreign_vehicle v x t m e owner foreign mx held same (xa, xb) (da, db) lt w idle
        free ready =
      (
        new_booking id tenant_id dto,
        put_bookings (c.insert (new_booking id tenant_id dto) s.bookings) s,
        create_accepts v m e lt w idle free ready,
        Listed-insert c s.bookings _ mx,
        Listed-insert_self c s.bookings,
        (refl, inl refl),
        sym same,
        λ own. foreign (sym owner ∙ sym own),
        λ apart. apart t xa xb da db,
      )

  -- A request that is refused leaves every table as it was.
  pub create_atomic :
      (e : Error) → (create c id tenant_id dto s).0 ≡ err e → (create c id tenant_id dto s).1 ≡ s
  unfolding create create_checks create_write
  create_atomic e h = ground (
    arith,
    vehicle_must_be_free-keeps c dto.vehicle_id tenant_id dto.start_date dto.end_date
        "Vehicle is not available for the requested period" s,
    driver_must_be_free-keeps c (get_or dto.driver_id 0) tenant_id dto.start_date dto.end_date
        "Driver is not available for the requested period" s,
  )

-- Two requests for one vehicle of which both have run their checks before the first one writes.
abbrev pub interleaved : Client → ℕ → ℕ → ℕ → CreateBookingDto → CreateBookingDto → Action Booking
interleaved c id id' tenant_id dto dto' = do
  create_checks c tenant_id dto
  create_checks c tenant_id dto'
  create_write c id tenant_id dto
  create_write c id' tenant_id dto'

module _ (c : Client) (id id' tenant_id : ℕ) (dto : CreateBookingDto) (s : Db) where
  create_checks-keeps : (create_checks c tenant_id dto s).1 ≡ s
  unfolding create_checks
  create_checks-keeps = ground (
    arith,
    vehicle_must_be_free-keeps c dto.vehicle_id tenant_id dto.start_date dto.end_date
        "Vehicle is not available for the requested period" s,
    driver_must_be_free-keeps c (get_or dto.driver_id 0) tenant_id dto.start_date dto.end_date
        "Driver is not available for the requested period" s,
  )

  interleaved_writes :
      (create c id tenant_id dto s).0 ≡ ok (new_booking id tenant_id dto)
      → interleaved c id id' tenant_id dto dto s ≡ (
        ok (new_booking id' tenant_id dto),
        put_bookings
            (c.insert
              (new_booking id' tenant_id dto)
              (c.insert (new_booking id tenant_id dto) s.bookings))
            s,
      )
  unfolding create create_write
  interleaved_writes h = ground (arith, create_checks-keeps)

  accepted_lt :
      (create c id tenant_id dto s).0 ≡ ok (new_booking id tenant_id dto)
      → dto.start_date < dto.end_date
  unfolding create create_checks
  accepted_lt h = ground arith

  -- Whenever a request is accepted, the same request sent twice, with both running their checks
  -- before the first one writes, is accepted twice and books the vehicle twice.
  pub interleaved_double_books :
      id ≢ id'
      → (create c id tenant_id dto s).0 ≡ ok (new_booking id tenant_id dto)
      → ((interleaved c id id' tenant_id dto dto s).0 ≡ ok (new_booking id' tenant_id dto))
        × ¬ NoDoubleBooking (interleaved c id id' tenant_id dto dto s).1
  interleaved_double_books ne h =
      let e = interleaved_writes h in
      let lt = accepted_lt h in
      rw e (
        refl,
        λ all.
            (all (new_booking id tenant_id dto) (new_booking id' tenant_id dto)
                (Listed-insert c _ _ (Listed-insert_self c _)) (Listed-insert_self c _)).apart
              ne (refl, inl refl) (refl, inl refl) refl refl dto.start_date (omega arith) lt
              (omega arith) lt,
      )
