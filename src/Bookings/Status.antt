-- ===== src/Bookings/Status.antt =====
-- bookings.service.ts: `confirm` and `cancel` against double booking.
use node_vms.Prelude.{
  ℕ, ◌≡◌, refl, ap, ◌⊎◌, inl, inr, true, Option, none, some, arith, Listed, Bool-cases,
  Option-cases, if◌then◌else◌,
}
use node_vms.Schema.{Booking, BookingStatus}
use node_vms.Database.Client.{Client}
use node_vms.Database.Action.{Db, put_bookings}
use node_vms.Database.Pairs.{Pairs-update}
use node_vms.Scheduling.Instants.{IsHeld}
use node_vms.Bookings.{has_id, is_booking, confirm, cancel}
use node_vms.Bookings.Conflicts.{Coexist, Coexist-refine, NoDoubleBooking}

abbrev with_new_status : BookingStatus → Booking → Booking
with_new_status status b = record b { status = status }

module _ (c : Client) (id : ℕ) (status : BookingStatus) (s : Db) (x : Booking)
    (listed : Listed x s.bookings) (found : x.id ≡ id)
    (held : (status ≡ BookingStatus.cancelled) ⊎ IsHeld x) (h : NoDoubleBooking s) where
  abbrev stated : Booking → Booking
  stated b = if has_id id b then with_new_status status b else b

  stated-IsHeld : (b : Booking) → Listed b s.bookings → IsHeld (stated b) → IsHeld b
  stated-IsHeld b m k = elim (Bool-cases (has_id id b)) [
    | inl e ↦ rw ((h b x m listed).key (ground arith)) (ground arith)
    | inr e ↦ rw e at k
  ]

  stated_fields :
      (b : Booking)
      → ((stated b).id ≡ b.id)
        × ((stated b).vehicle_id ≡ b.vehicle_id)
        × ((stated b).tenant_id ≡ b.tenant_id)
        × ((stated b).start_date ≡ b.start_date)
        × ((stated b).end_date ≡ b.end_date)
  stated_fields b = ground arith

  status_update-NoDoubleBooking :
      NoDoubleBooking (put_bookings (c.update (has_id id) (with_new_status status) s.bookings) s)
  status_update-NoDoubleBooking =
      Pairs-update c Coexist (has_id id) (with_new_status status) s.bookings
        (λ a b m n k.
          Coexist-refine a b (stated a) (stated b) k (ap stated) (stated_fields a) (stated_fields b)
            (stated-IsHeld a m) (stated-IsHeld b n))
        h

module _ (c : Client) (tenant_id id : ℕ) (s : Db) where
  abbrev pub lookup : Option Booking
  lookup = c.find_first (is_booking tenant_id id) s.bookings

  -- A method that changes nothing where the lookup finds no row, and keeps the invariant where it
  -- finds one, keeps the invariant.
  pub by_lookup :
      (s' : Db)
      → (lookup ≡ none → s' ≡ s)
      → ((x : Booking)
          → lookup ≡ some x
          → Listed x s.bookings
          → is_booking tenant_id id x ≡ true
          → NoDoubleBooking s')
      → NoDoubleBooking s
      → NoDoubleBooking s'
  by_lookup s' missing found h = elim (Option-cases lookup) [
    | inl e ↦ rw (missing e) h
    | inr (x, e) ↦ let (m, k) = c.find_first-some _ _ x e in found x e m k
  ]

  confirm_cases :
      (x : Booking)
      → lookup ≡ some x
      → ((confirm c tenant_id id s).1 ≡ s)
        ⊎ ((x.status ≡ BookingStatus.pending)
            × ((confirm c tenant_id id s).1
                ≡ put_bookings
                    (c.update (has_id id) (with_new_status BookingStatus.confirmed) s.bookings)
                    s))
  unfolding confirm
  confirm_cases x e = ground arith

  cancel_cases :
      (x : Booking)
      → lookup ≡ some x
      → ((cancel c tenant_id id s).1 ≡ s)
        ⊎ ((cancel c tenant_id id s).1
            ≡ put_bookings
                (c.update (has_id id) (with_new_status BookingStatus.cancelled) s.bookings)
                s)
  unfolding cancel
  cancel_cases x e = ground arith

  missing_keeps :
      lookup ≡ none → ((confirm c tenant_id id s).1 ≡ s) × ((cancel c tenant_id id s).1 ≡ s)
  unfolding confirm cancel
  missing_keeps e = ground arith

  -- If no tenant has booked a vehicle twice, confirming a booking, or being refused, leaves none that
  -- has.
  pub confirm-NoDoubleBooking : NoDoubleBooking s → NoDoubleBooking (confirm c tenant_id id s).1
  confirm-NoDoubleBooking h =
      by_lookup _ (λ e. (missing_keeps e).0)
        (λ x e m k. elim (confirm_cases x e) [
          | inl same ↦ rw same h
          | inr (pending, new) ↦ rw new (
              status_update-NoDoubleBooking c id BookingStatus.confirmed s x m (ground arith)
                (inr (ground arith)) h)
        ])
        h

  -- If no tenant has booked a vehicle twice, cancelling a booking, or being refused, leaves none that
  -- has.
  pub cancel-NoDoubleBooking : NoDoubleBooking s → NoDoubleBooking (cancel c tenant_id id s).1
  cancel-NoDoubleBooking h =
      by_lookup _ (λ e. (missing_keeps e).1)
        (λ x e m k. elim (cancel_cases x e) [
          | inl same ↦ rw same h
          | inr new ↦ rw new (
              status_update-NoDoubleBooking c id BookingStatus.cancelled s x m (ground arith)
                (inl refl) h)
        ])
        h
