-- ===== src/Tests/Bookings.antt =====
-- bookings.service.ts on the example fleet.
use node_vms.Prelude.{inl, ◌≢◌, Listed, ◌≡◌, refl, none, some, arith, [], ◌∷◌, ap}
use mathlib.Core.List.{Memᴰ}
use node_vms.Schema.{Booking, VehicleStatus}
use node_vms.Database.Lists.{lists}
use node_vms.Database.Errors.{ok, err, bad_request}
use node_vms.Database.Action.{Db, put_bookings}
use node_vms.Database.Pairs.{Pairs-insert}
use node_vms.Scheduling.Instants.{IsHeld, Apart}
use node_vms.Scheduling.Sound.{VehicleFree}
use node_vms.Bookings.{
  CreateBookingDto, AssignDriverVehicleDto, create, confirm, new_booking, create_checks,
}
use node_vms.Bookings.Conflicts.{Coexist, Coexist-of_eq, NoDoubleBooking}
use node_vms.Bookings.Outcomes.{
  create_accepts_foreign_vehicle, create_accepts, interleaved, interleaved_double_books,
}
use node_vms.Bookings.History.{here, next, creates, confirms, Reach-NoDoubleBooking}
use node_vms.Tests.Data.{fleet, june, car}
use node_vms.Tests.Scheduling.{fleet-HasPeriods}

abbrev ask : CreateBookingDto
ask = record {
  vehicle_id = 1;
  driver_id = none;
  start_date = 20;
  end_date = 60;
  customer_name = 70;
  contact = 71;
  advance_paid = some 500;
}

abbrev to_bus : AssignDriverVehicleDto
to_bus = record { vehicle_id = some 2; driver_id = none; advance_paid = none }

fleet-NoDoubleBooking : NoDoubleBooking fleet
fleet-NoDoubleBooking =
    Pairs-insert lists Coexist june [] (Coexist-of_eq refl) (λ a m. elim m [ ])
      (λ a b m. elim m [ ])

free : VehicleFree 1 7 20 60 fleet
free = record {
  no_booking = (λ v n held t p q r w. omega arith, tt);
  no_trip = (λ v n live. ground arith, (λ v n live t p q r w. ground arith, tt));
  no_maintenance = (λ v n live p q. ground arith, tt);
}

create_accepts_example :
    create lists 90 7 ask fleet
    ≡ (ok (new_booking 90 7 ask), put_bookings (new_booking 90 7 ask ∷ fleet.bookings) fleet)
create_accepts_example =
    create_accepts lists 90 7 ask fleet (car 1 VehicleStatus.available) (Memᴰ.head refl) refl
      (omega arith) fleet-HasPeriods refl free tt

-- Tenant 8 books the vehicle of tenant 7 for a day on which tenant 7 has it booked.
abbrev clash : CreateBookingDto
clash = record ask { start_date = 72; end_date = 78 }

free_for_8 : VehicleFree 1 8 72 78 fleet
free_for_8 = record {
  no_booking = (λ v n. ground arith, tt);
  no_trip = (λ v n. ground arith, (λ v n. ground arith, tt));
  no_maintenance = (λ v n. ground arith, tt);
}

create_accepts_foreign_vehicle_example :
    (b : Booking) × (s' : Db) × (create lists 90 8 clash fleet ≡ (ok b, s'))
    × Listed june s'.bookings
    × Listed b s'.bookings
    × IsHeld b
    × (b.vehicle_id ≡ 1)
    × (b.tenant_id ≢ 7)
    × ¬ Apart 70 80 b.start_date (some b.end_date)
create_accepts_foreign_vehicle_example =
    create_accepts_foreign_vehicle lists 90 8 clash fleet (car 1 VehicleStatus.available) june 74
      (Memᴰ.head refl) refl refl (λ e. ground arith) (Memᴰ.head refl) (refl, inl refl) refl
      (omega arith, omega arith) (omega arith, omega arith) (omega arith) fleet-HasPeriods refl
      free_for_8 tt

abbrev reversed : CreateBookingDto
reversed = record ask { end_date = 20 }

reversed_is_refused :
    (create lists 90 7 reversed fleet).0 ≡ err (bad_request "endDate must be after startDate")
unfolding create create_checks
reversed_is_refused = refl

ask_is_accepted : (create lists 90 7 ask fleet).0 ≡ ok (new_booking 90 7 ask)
ask_is_accepted = ap (λ r. r.0) create_accepts_example

interleaved_double_books_example :
    ((interleaved lists 90 91 7 ask ask fleet).0 ≡ ok (new_booking 91 7 ask))
    × ¬ NoDoubleBooking (interleaved lists 90 91 7 ask ask fleet).1
interleaved_double_books_example =
    interleaved_double_books lists 90 91 7 ask fleet (λ e. ground arith) ask_is_accepted

abbrev booked : Db
booked = (create lists 90 7 ask fleet).1

Reach-NoDoubleBooking_example : NoDoubleBooking (confirm lists 7 90 booked).1
Reach-NoDoubleBooking_example =
    Reach-NoDoubleBooking lists
      (next (next here (creates 90 7 ask (λ e. ground arith, tt) refl)) (confirms 7 90 refl))
      fleet-NoDoubleBooking
