-- ===== src/Bookings/Reassign.antt =====
-- bookings.service.ts: `assign` against double booking.
use node_vms.Prelude.{
  ℕ, ◌≡◌, ◌≢◌, refl, sym, ap, ◌∙◌, ◌⊎◌, inl, inr, true, false, none, some, arith, All, All-Listed,
  All-mono, Listed, Bool-cases, ◌==◌, get_or, if◌then◌else◌,
}
use node_vms.Schema.{Booking}
use node_vms.Database.Client.{Client}
use node_vms.Database.Errors.{ok}
use node_vms.Database.Action.{Db, put_bookings}
use node_vms.Database.Lookup.{find_first-none_iff}
use node_vms.Database.Pairs.{Pairs-update}
use node_vms.Scheduling.{booking_conflicts}
use node_vms.Scheduling.Instants.{IsHeld, BookingApart, booking-Apart}
use node_vms.Bookings.{
  AssignDriverVehicleDto, reassigned, has_id, is_booking, recheck_vehicle, recheck_driver,
  keys_exist, assign,
}
use node_vms.Bookings.Conflicts.{
  Coexist, Coexist-refine, Coexist-of_eq, NoDoubleBooking, vehicle_must_be_free-keeps,
  driver_must_be_free-keeps, vehicle_must_be_free-ok,
}
use node_vms.Bookings.Status.{lookup, by_lookup}

-- No vehicle row has the empty text for its key.
abbrev pub HasVehicleKeys : Db → Type 0
HasVehicleKeys s = All (λ v. v.id ≢ 0) s.vehicles

module _ (c : Client) (tenant_id id : ℕ) (dto : AssignDriverVehicleDto) (s : Db) where
  -- The vehicle that a booking has afterwards.
  abbrev new_vehicle : Booking → ℕ
  new_vehicle x = get_or dto.vehicle_id x.vehicle_id

  assign_missing : lookup c tenant_id id s ≡ none → (assign c tenant_id id dto s).1 ≡ s
  unfolding assign
  assign_missing e = ground arith

  -- A key that some vehicle row has is not the empty text.
  no_empty_vehicle : HasVehicleKeys s → c.find_first (λ v. v.id == 0) s.vehicles ≡ none
  no_empty_vehicle keys =
      (find_first-none_iff c _ s.vehicles).1 (All-mono _ _ s.vehicles (λ v ne. ground arith) keys)

  recheck_vehicle_lem :
      (x : Booking)
      → ((recheck_vehicle c tenant_id dto x s).1 ≡ s)
        × ((recheck_vehicle c tenant_id dto x s).0 ≡ ok tt
            → (new_vehicle x ≡ x.vehicle_id)
              ⊎ (new_vehicle x ≡ 0)
              ⊎ (c.find_first
                    (booking_conflicts (new_vehicle x) tenant_id x.start_date x.end_date)
                    s.bookings
                  ≡ none))
  unfolding recheck_vehicle
  recheck_vehicle_lem x = ground (
    arith,
    vehicle_must_be_free-keeps c (get_or dto.vehicle_id 0) tenant_id x.start_date x.end_date
        "Vehicle is not available for the booking period" s,
    vehicle_must_be_free-ok c (get_or dto.vehicle_id 0) tenant_id x.start_date x.end_date
        "Vehicle is not available for the booking period" s,
  )

  recheck_driver-keeps : (x : Booking) → (recheck_driver c tenant_id dto x s).1 ≡ s
  unfolding recheck_driver
  recheck_driver-keeps x = ground (
    arith,
    driver_must_be_free-keeps c (get_or (get_or dto.driver_id none) 0) tenant_id x.start_date
        x.end_date "Driver is not available for the booking period" s,
  )

  keys_exist_lem :
      HasVehicleKeys s
      → (x : Booking)
      → ((keys_exist c dto s).1 ≡ s)
        × ((keys_exist c dto s).0 ≡ ok tt → (new_vehicle x ≡ x.vehicle_id) ⊎ (new_vehicle x ≢ 0))
  unfolding keys_exist
  keys_exist_lem keys x = ground (arith, no_empty_vehicle keys)

  assign_cases :
      HasVehicleKeys s
      → (x : Booking) → lookup c tenant_id id s ≡ some x
      → ((assign c tenant_id id dto s).1 ≡ s)
        ⊎ (((new_vehicle x ≡ x.vehicle_id)
              ⊎ (c.find_first
                    (booking_conflicts (new_vehicle x) tenant_id x.start_date x.end_date)
                    s.bookings
                  ≡ none))
            × ((assign c tenant_id id dto s).1
                ≡ put_bookings (c.update (has_id id) (reassigned dto) s.bookings) s))
  unfolding assign
  assign_cases keys x e =
      ground (arith, recheck_vehicle_lem x, recheck_driver-keeps x, keys_exist_lem keys x)

module _ (c : Client) (tenant_id id : ℕ) (dto : AssignDriverVehicleDto) (s : Db) (x : Booking)
    (listed : Listed x s.bookings) (found : is_booking tenant_id id x ≡ true)
    (h : NoDoubleBooking s) where
  abbrev moved : Booking → Booking
  moved b = if has_id id b then reassigned dto b else b

  -- The row with the key is the one that was found.
  is_found : (b : Booking) → Listed b s.bookings → has_id id b ≡ true → b ≡ x
  is_found b m e = (h b x m listed).key (ground arith)

  moved_Coexist :
      (b : Booking)
      → has_id id b ≡ false
      → BookingApart (get_or dto.vehicle_id x.vehicle_id) tenant_id x.start_date x.end_date b
      → Coexist (reassigned dto x) b × Coexist b (reassigned dto x)
  moved_Coexist b other free = (
    record {
      key = λ e. absurd (ground arith);
      apart = λ _ _ held v n t p q r w. free (sym v) (ground arith) held t p q r w;
    },
    record {
      key = λ e. absurd (ground arith);
      apart = λ _ held _ v n t p q r w. free v (ground arith) held t r w p q;
    },
  )

  moved_pair :
      c.find_first
          (booking_conflicts (get_or dto.vehicle_id x.vehicle_id) tenant_id x.start_date x.end_date)
          s.bookings
        ≡ none
      → (a b : Booking) → Listed a s.bookings
      → Listed b s.bookings
      → Coexist a b
      → Coexist (moved a) (moved b)
  moved_pair free a b m n k =
      let apart = λ (y : Booking) (l : Listed y s.bookings).
        booking-Apart (get_or dto.vehicle_id x.vehicle_id) tenant_id x.start_date x.end_date y
          (All-Listed _ s.bookings (c.find_first-none _ _ free) l) in
      elim (Bool-cases (has_id id a)) [
        | inl p ↦ elim (Bool-cases (has_id id b)) [
          | inl q ↦ Coexist-of_eq (ap moved (is_found a m p ∙ sym (is_found b n q)))
          | inr q ↦ rw (p, q, is_found a m p) (moved_Coexist b q (apart b n)).0
        ]
        | inr p ↦ elim (Bool-cases (has_id id b)) [
          | inl q ↦ rw (p, q, is_found b n q) (moved_Coexist a p (apart a m)).1
          | inr q ↦ rw (p, q) k
        ]
      ]

  kept_fields :
      get_or dto.vehicle_id x.vehicle_id ≡ x.vehicle_id
      → (b : Booking) → Listed b s.bookings
      → ((moved b).id ≡ b.id)
        × ((moved b).vehicle_id ≡ b.vehicle_id)
        × ((moved b).tenant_id ≡ b.tenant_id)
        × ((moved b).start_date ≡ b.start_date)
        × ((moved b).end_date ≡ b.end_date)
  kept_fields same b m = elim (Bool-cases (has_id id b)) [
    | inl e ↦ let y = is_found b m e in rw (e, y) (refl, same, refl, refl, refl)
    | inr e ↦ rw e (refl, refl, refl, refl, refl)
  ]

  kept-IsHeld : (b : Booking) → IsHeld (moved b) → IsHeld b
  kept-IsHeld b k = ground arith

  moved-NoDoubleBooking :
      ((get_or dto.vehicle_id x.vehicle_id ≡ x.vehicle_id)
        ⊎ (c.find_first
              (booking_conflicts
                (get_or dto.vehicle_id x.vehicle_id)
                tenant_id
                x.start_date
                x.end_date)
              s.bookings
            ≡ none))
      → NoDoubleBooking (put_bookings (c.update (has_id id) (reassigned dto) s.bookings) s)
  moved-NoDoubleBooking (inl same) =
      Pairs-update c Coexist (has_id id) (reassigned dto) s.bookings
        (λ a b m n k.
          Coexist-refine a b (moved a) (moved b) k (ap moved) (kept_fields same a m)
            (kept_fields same b n) (kept-IsHeld a) (kept-IsHeld b))
        h
  moved-NoDoubleBooking (inr free) =
      Pairs-update c Coexist (has_id id) (reassigned dto) s.bookings (moved_pair free) h

-- If no tenant has booked a vehicle twice, giving a booking another vehicle or driver, or being
-- refused, leaves none that has, provided that no vehicle row has the empty text for its key.
pub assign-NoDoubleBooking :
    (c : Client) (tenant_id id : ℕ) (dto : AssignDriverVehicleDto) (s : Db)
    → HasVehicleKeys s
    → NoDoubleBooking s
    → NoDoubleBooking (assign c tenant_id id dto s).1
assign-NoDoubleBooking c tenant_id id dto s keys h =
    by_lookup c tenant_id id s _ (assign_missing c tenant_id id dto s)
      (λ x e m k. elim (assign_cases c tenant_id id dto s keys x e) [
        | inl same ↦ rw same h
        | inr (free, new) ↦ rw new (moved-NoDoubleBooking c tenant_id id dto s x m k h free)
      ])
      h
