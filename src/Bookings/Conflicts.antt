-- ===== src/Bookings/Conflicts.antt =====
-- bookings.service.ts: what it means that no tenant books a vehicle twice, and `create`.
use node_vms.Prelude.{
  ℕ, ◌<◌, ◌≡◌, ◌≢◌, refl, sym, ap, ◌⊎◌, inl, inr, none, some, String, arith, All, All-Listed,
  get_or,
}
use node_vms.Schema.{Booking}
use node_vms.Database.Client.{Client}
use node_vms.Database.Errors.{ok}
use node_vms.Database.Action.{Db, put_bookings}
use node_vms.Database.Pairs.{Pairs, Pairs-insert}
use node_vms.Scheduling.{booking_conflicts, check_vehicle_availability, check_driver_availability}
use node_vms.Scheduling.Instants.{IsHeld, Apart, BookingApart, booking-Apart}
use node_vms.Bookings.{
  CreateBookingDto, new_booking, vehicle_must_be_free, driver_must_be_free, create_checks,
  create_write, create,
}

-- Two rows of the booking table: the id is a key, and two bookings that hold one vehicle of a
-- tenant share no instant.
pub record Coexist (a b : Booking) : Type 0 where
  pub key : a.id ≡ b.id → a ≡ b
  pub apart :
      a.id ≢ b.id
      → IsHeld a
      → IsHeld b
      → a.vehicle_id ≡ b.vehicle_id
      → a.tenant_id ≡ b.tenant_id
      → Apart a.start_date a.end_date b.start_date (some b.end_date)

pub Coexist-of_eq : {a b : Booking} → a ≡ b → Coexist a b
Coexist-of_eq e = record { key = λ _. e; apart = λ ne. absurd (ne (ap (λ x. x.id) e)) }

-- The booking table of a state in which no tenant has booked a vehicle twice. Bookings of different
-- tenants are not compared.
abbrev pub NoDoubleBooking : Db → Type 0
NoDoubleBooking s = Pairs Coexist s.bookings

abbrev pub IsFreshId : ℕ → Db → Type 0
IsFreshId id s = All (λ b. b.id ≢ id) s.bookings

module _ (c : Client) (vehicle_id tenant_id start end_ : ℕ) (text : String) (s : Db) where
  pub vehicle_must_be_free-keeps :
      (vehicle_must_be_free c vehicle_id tenant_id start end_ text s).1 ≡ s
  unfolding vehicle_must_be_free check_vehicle_availability
  vehicle_must_be_free-keeps = ground arith

  pub driver_must_be_free-keeps :
      (driver_must_be_free c vehicle_id tenant_id start end_ text s).1 ≡ s
  unfolding driver_must_be_free check_driver_availability
  driver_must_be_free-keeps = ground arith

  pub vehicle_must_be_free-ok :
      (vehicle_must_be_free c vehicle_id tenant_id start end_ text s).0 ≡ ok tt
      → c.find_first (booking_conflicts vehicle_id tenant_id start end_) s.bookings ≡ none
  unfolding vehicle_must_be_free check_vehicle_availability
  vehicle_must_be_free-ok h = ground arith

module _ (c : Client) (id tenant_id : ℕ) (dto : CreateBookingDto) (s : Db) where
  create_cases :
      ((create c id tenant_id dto s).1 ≡ s)
      ⊎ ((dto.start_date < dto.end_date)
          × (c.find_first
                (booking_conflicts dto.vehicle_id tenant_id dto.start_date dto.end_date)
                s.bookings
              ≡ none)
          × ((create c id tenant_id dto s).1
              ≡ put_bookings (c.insert (new_booking id tenant_id dto) s.bookings) s))
  unfolding create create_checks create_write
  create_cases = ground (
    arith,
    vehicle_must_be_free-keeps c dto.vehicle_id tenant_id dto.start_date dto.end_date
        "Vehicle is not available for the requested period" s,
    vehicle_must_be_free-ok c dto.vehicle_id tenant_id dto.start_date dto.end_date
        "Vehicle is not available for the requested period" s,
    driver_must_be_free-keeps c (get_or dto.driver_id 0) tenant_id dto.start_date dto.end_date
        "Driver is not available for the requested period" s,
  )

  -- A new booking of a free vehicle stands beside every other.
  new_booking-Coexist :
      dto.start_date < dto.end_date
      → (b : Booking) → b.id ≢ id
      → BookingApart dto.vehicle_id tenant_id dto.start_date dto.end_date b
      → Coexist b (new_booking id tenant_id dto) × Coexist (new_booking id tenant_id dto) b
  new_booking-Coexist lt b ne h = (
    record { key = λ e. absurd (ne e); apart = λ _ held _ v n t p q r w. h v n held t r w p q },
    record {
      key = λ e. absurd (ne (sym e));
      apart = λ _ _ held v n t p q r w. h (sym v) (sym n) held t p q r w;
    },
  )

  -- If no tenant has booked a vehicle twice, creating a booking under a fresh id, or being refused,
  -- leaves none that has.
  pub create-NoDoubleBooking :
      IsFreshId id s → NoDoubleBooking s → NoDoubleBooking (create c id tenant_id dto s).1
  create-NoDoubleBooking fresh h = elim create_cases [
    | inl e ↦ rw e h
    | inr (lt, free, e) ↦ rw e (
        Pairs-insert c Coexist (new_booking id tenant_id dto) s.bookings (Coexist-of_eq refl)
          (λ b m. new_booking-Coexist lt b (All-Listed _ s.bookings fresh m) (
            booking-Apart dto.vehicle_id tenant_id dto.start_date dto.end_date b
              (All-Listed _ s.bookings (c.find_first-none _ _ free) m)))
          h)
  ]

-- Rows that keep their key, vehicle and period, and hold the vehicle only if they did before.
pub Coexist-refine :
    (a b a' b' : Booking)
    → Coexist a b
    → (a ≡ b → a' ≡ b')
    → (a'.id ≡ a.id)
      × (a'.vehicle_id ≡ a.vehicle_id)
      × (a'.tenant_id ≡ a.tenant_id)
      × (a'.start_date ≡ a.start_date)
      × (a'.end_date ≡ a.end_date)
    → (b'.id ≡ b.id)
      × (b'.vehicle_id ≡ b.vehicle_id)
      × (b'.tenant_id ≡ b.tenant_id)
      × (b'.start_date ≡ b.start_date)
      × (b'.end_date ≡ b.end_date)
    → (IsHeld a' → IsHeld a)
    → (IsHeld b' → IsHeld b)
    → Coexist a' b'
Coexist-refine a b a' b' h same p q ha hb = record {
  key = λ e. same (h.key (omega arith));
  apart = λ ne ka kb v n t x y z w.
      h.apart (λ e. ne (omega arith)) (ha ka) (hb kb) (omega arith) (omega arith) t (omega arith)
        (omega arith) (omega arith) (omega arith);
}
