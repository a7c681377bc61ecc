-- ===== src/Bookings/History.antt =====
-- The bookings component over time: requests are served one after another, in any order, between
-- writes of the other components, which leave the booking table alone.
use node_vms.Prelude.{ℕ, ◌≡◌}
use node_vms.Database.Client.{Client}
use node_vms.Database.Action.{Db}
use node_vms.Bookings.{CreateBookingDto, AssignDriverVehicleDto, create, confirm, cancel, assign}
use node_vms.Bookings.Conflicts.{NoDoubleBooking, IsFreshId, create-NoDoubleBooking}
use node_vms.Bookings.Status.{confirm-NoDoubleBooking, cancel-NoDoubleBooking}
use node_vms.Bookings.Reassign.{HasVehicleKeys, assign-NoDoubleBooking}

-- One request, served to its end.
pub data Step (c : Client) (s s' : Db) : Type 0 where
  creates :
      (id tenant_id : ℕ) (dto : CreateBookingDto)
      → IsFreshId id s
      → s' ≡ (create c id tenant_id dto s).1
      → Step c s s'
  confirms : (tenant_id id : ℕ) → s' ≡ (confirm c tenant_id id s).1 → Step c s s'
  cancels : (tenant_id id : ℕ) → s' ≡ (cancel c tenant_id id s).1 → Step c s s'
  assigns :
      (tenant_id id : ℕ) (dto : AssignDriverVehicleDto)
      → HasVehicleKeys s
      → s' ≡ (assign c tenant_id id dto s).1
      → Step c s s'
  others : s'.bookings ≡ s.bookings → Step c s s'

pub data Reach (c : Client) (s : Db) : Db → Type 0 where
  here : Reach c s s
  next : {t u : Db} → Reach c s t → Step c t u → Reach c s u

Step-NoDoubleBooking :
    (c : Client) (s s' : Db) → Step c s s' → NoDoubleBooking s → NoDoubleBooking s'
Step-NoDoubleBooking c s s' (creates id tenant_id dto fresh e) h =
    rw e (create-NoDoubleBooking c id tenant_id dto s fresh h)
Step-NoDoubleBooking c s s' (confirms tenant_id id e) h =
    rw e (confirm-NoDoubleBooking c tenant_id id s h)
Step-NoDoubleBooking c s s' (cancels tenant_id id e) h =
    rw e (cancel-NoDoubleBooking c tenant_id id s h)
Step-NoDoubleBooking c s s' (assigns tenant_id id dto keys e) h =
    rw e (assign-NoDoubleBooking c tenant_id id dto s keys h)
Step-NoDoubleBooking c s s' (others e) h = rw e h

-- From tables in which no two bookings of one tenant hold one vehicle at one instant, no history of
-- served requests reaches tables in which two do. A new booking must have an id that no booking has,
-- and where a booking is reassigned no vehicle may have the empty text for its key. Bookings of
-- different tenants are not compared.
pub Reach-NoDoubleBooking :
    (c : Client) {s s' : Db} → Reach c s s' → NoDoubleBooking s → NoDoubleBooking s'
Reach-NoDoubleBooking c here h = h
Reach-NoDoubleBooking c (next {t} {u} r st) h =
    Step-NoDoubleBooking c t u st (Reach-NoDoubleBooking c r h)
