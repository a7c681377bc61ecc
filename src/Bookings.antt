-- ===== src/Bookings.antt =====
-- src/bookings/bookings.service.ts, with its DTOs. `id` is the key that the database gives to a new
-- row; the dates of a DTO are parsed.
pub mod Conflicts
pub mod Status
pub mod Reassign
pub mod Outcomes
pub mod History
use node_vms.Prelude.{
  ℕ, String, Bool, true, false, ◌&&◌, ◌||◌, not, Option, none, some, List, leb, ◌==◌, is_none,
  given, is_just, get_or, or_else, if◌then◌else◌,
}
use node_vms.Schema.{
  Booking, BookingStatus, booking_is_pending, booking_is_completed, booking_is_cancelled,
  booking_status_name,
}
use node_vms.Database.Client.{Client}
use node_vms.Database.Errors.{Result, bad_request, forbidden, not_found, unavailable}
use node_vms.Database.Action.{
  Db, Action, pure, throw_if, or_throw, when, ◌>>=◌, ◌>>◌, find_first, find_many, insert_row,
  update_row, references, put_bookings,
}
use node_vms.Scheduling.{AvailabilityResult, check_vehicle_availability, check_driver_availability}

pub record CreateBookingDto : Type 0 where
  pub vehicle_id : ℕ
  pub driver_id : Option ℕ
  pub start_date : ℕ
  pub end_date : ℕ
  pub customer_name : ℕ
  pub contact : ℕ
  pub advance_paid : Option ℕ

-- `driver_id` is undefined, null, or a key. A null vehicle or advance, which Prisma refuses for a
-- required column, is left out.
pub record AssignDriverVehicleDto : Type 0 where
  pub vehicle_id : Option ℕ
  pub driver_id : Option (Option ℕ)
  pub advance_paid : Option ℕ

-- `where: { id, tenantId, deletedAt: null }`
abbrev pub is_booking : ℕ → ℕ → Booking → Bool
is_booking tenant_id id b = b.id == id && (b.tenant_id == tenant_id && is_none b.deleted_at)

abbrev pub has_id : ℕ → Booking → Bool
has_id id b = b.id == id

abbrev pub is_closed : BookingStatus → Bool
is_closed status = booking_is_completed status || booking_is_cancelled status

abbrev pub with_status : String → BookingStatus → String
with_status text status = Prim.Native.String.◌++◌ text (booking_status_name status)

-- `if (dto.vehicleId && dto.vehicleId !== booking.vehicleId)`
abbrev pub changes : Option ℕ → Option ℕ → Bool
changes none old = false
changes (some k) old = given (some k) && not (is_just old k)

abbrev pub unless_available : AvailabilityResult → String → Action (Unit {0})
unless_available r text s =
    (if r.available then Result.ok tt else Result.err (unavailable text r.reasons), s)

-- The row that `create` writes.
abbrev pub new_booking : ℕ → ℕ → CreateBookingDto → Booking
new_booking id tenant_id dto = record {
  id = id;
  tenant_id = tenant_id;
  branch_id = none;
  vehicle_id = dto.vehicle_id;
  driver_id = dto.driver_id;
  start_date = dto.start_date;
  end_date = dto.end_date;
  status = BookingStatus.pending;
  advance_paid = get_or dto.advance_paid 0;
  customer_name = dto.customer_name;
  contact = dto.contact;
  deleted_at = none;
}

-- The fields that `assign` writes: those that the DTO gives.
abbrev pub reassigned : AssignDriverVehicleDto → Booking → Booking
reassigned dto b = record b {
  vehicle_id = get_or dto.vehicle_id b.vehicle_id;
  driver_id = get_or dto.driver_id b.driver_id;
  advance_paid = get_or dto.advance_paid b.advance_paid;
}

module _ (c : Client) where
  pub vehicle_must_be_free : ℕ → ℕ → ℕ → ℕ → String → Action (Unit {0})
  vehicle_must_be_free vehicle_id tenant_id start end_ text = do
    check ← check_vehicle_availability c vehicle_id tenant_id start end_
    unless_available check text

  pub driver_must_be_free : ℕ → ℕ → ℕ → ℕ → String → Action (Unit {0})
  driver_must_be_free driver_id tenant_id start end_ text = do
    check ← check_driver_availability c driver_id tenant_id start end_
    unless_available check text

  -- All that `create` does before it writes.
  unfoldable pub create_checks : ℕ → CreateBookingDto → Action (Unit {0})
  create_checks tenant_id dto = do
    throw_if (leb dto.end_date dto.start_date) (bad_request "endDate must be after startDate")
    vehicle_must_be_free dto.vehicle_id tenant_id dto.start_date dto.end_date
        "Vehicle is not available for the requested period"
    when (given dto.driver_id) (
        driver_must_be_free (get_or dto.driver_id 0) tenant_id dto.start_date dto.end_date
          "Driver is not available for the requested period")

  -- The write of `create`, with its foreign keys.
  pub create_write : ℕ → ℕ → CreateBookingDto → Action Booking
  create_write id tenant_id dto = do
    references c (λ s. s.vehicles) (λ v. v.id == dto.vehicle_id)
    when (not (is_none dto.driver_id))
        (references c (λ s. s.drivers) (λ d. d.id == get_or dto.driver_id 0))
    insert_row c (λ s. s.bookings) put_bookings (new_booking id tenant_id dto)

  unfoldable pub create : ℕ → ℕ → CreateBookingDto → Action Booking
  create id tenant_id dto = do create_checks tenant_id dto; create_write id tenant_id dto

  pub find_all : ℕ → Action (List Booking)
  find_all tenant_id =
      find_many c (λ s. s.bookings) (λ b. b.tenant_id == tenant_id && is_none b.deleted_at)

  pub find_one : ℕ → ℕ → Action Booking
  find_one tenant_id id = do
    found ← find_first c (λ s. s.bookings) (is_booking tenant_id id)
    or_throw found (not_found "Booking not found")

  pub confirm : ℕ → ℕ → Action Booking
  confirm tenant_id id = do
    found ← find_first c (λ s. s.bookings) (is_booking tenant_id id)
    booking ← or_throw found (not_found "Booking not found")
    throw_if (not (booking_is_pending booking.status))
        (bad_request (with_status "Cannot confirm a booking with status: " booking.status))
    update_row c (λ s. s.bookings) put_bookings (has_id id)
        (λ b. record b { status = BookingStatus.confirmed })

  pub cancel : ℕ → ℕ → Action Booking
  cancel tenant_id id = do
    found ← find_first c (λ s. s.bookings) (is_booking tenant_id id)
    booking ← or_throw found (not_found "Booking not found")
    throw_if (is_closed booking.status)
        (bad_request (with_status "Cannot cancel a booking with status: " booking.status))
    update_row c (λ s. s.bookings) put_bookings (has_id id)
        (λ b. record b { status = BookingStatus.cancelled })

  pub recheck_vehicle : ℕ → AssignDriverVehicleDto → Booking → Action (Unit {0})
  recheck_vehicle tenant_id dto booking = when (changes dto.vehicle_id (some booking.vehicle_id)) (
      vehicle_must_be_free (get_or dto.vehicle_id 0) tenant_id booking.start_date booking.end_date
        "Vehicle is not available for the booking period")

  pub recheck_driver : ℕ → AssignDriverVehicleDto → Booking → Action (Unit {0})
  recheck_driver tenant_id dto booking =
      when (changes (get_or dto.driver_id none) booking.driver_id) (
        driver_must_be_free (get_or (get_or dto.driver_id none) 0) tenant_id booking.start_date
          booking.end_date "Driver is not available for the booking period")

  -- The foreign keys that the update writes.
  pub keys_exist : AssignDriverVehicleDto → Action (Unit {0})
  keys_exist dto = do
    when (not (is_none dto.vehicle_id))
        (references c (λ s. s.vehicles) (λ v. v.id == get_or dto.vehicle_id 0))
    when (not (is_none (get_or dto.driver_id none)))
        (references c (λ s. s.drivers) (λ d. d.id == get_or (get_or dto.driver_id none) 0))

  pub assign : ℕ → ℕ → AssignDriverVehicleDto → Action Booking
  assign tenant_id id dto = do
    found ← find_first c (λ s. s.bookings) (is_booking tenant_id id)
    booking ← or_throw found (not_found "Booking not found")
    throw_if (is_closed booking.status)
        (forbidden (with_status "Cannot assign to a booking with status: " booking.status))
    recheck_vehicle tenant_id dto booking
    recheck_driver tenant_id dto booking
    keys_exist dto
    update_row c (λ s. s.bookings) put_bookings (has_id id) (reassigned dto)
