-- ===== src/Trips/History.antt =====
-- The trips over time: requests are served one after another, in any order, between writes of the
-- other components, which leave the trips and the vehicles alone.
use node_vms.Prelude.{ℕ, ◌≡◌, ◌≢◌, All}
use node_vms.Schema.{Role}
use node_vms.Database.Client.{Client}
use node_vms.Database.Action.{Db}
use node_vms.Trips.{UpdateTripDto, start_trip, end_trip, update_trip}
use node_vms.Trips.Fleet.{Consistent}
use node_vms.Trips.Start.{start_trip-Consistent}
use node_vms.Trips.End.{end_trip-Consistent, update_trip-Consistent}

-- One request, served to its end.
pub data Step (c : Client) (s s' : Db) : Type 0 where
  starts :
      (id now vehicle_id tenant_id user_id : ℕ)
      → All (λ t. t.id ≢ id) s.trips
      → s' ≡ (start_trip c id now vehicle_id tenant_id user_id s).1
      → Step c s s'
  ends :
      (now trip_id tenant_id user_id : ℕ) (dto : UpdateTripDto) (role : Role)
      → s' ≡ (end_trip c now trip_id tenant_id user_id dto role s).1
      → Step c s s'
  updates :
      (trip_id tenant_id : ℕ) (dto : UpdateTripDto)
      → s' ≡ (update_trip c trip_id tenant_id dto s).1
      → Step c s s'
  others : s'.trips ≡ s.trips → s'.vehicles ≡ s.vehicles → Step c s s'

pub data Reach (c : Client) (s : Db) : Db → Type 0 where
  here : Reach c s s
  next : {t u : Db} → Reach c s t → Step c t u → Reach c s u

Step-Consistent : (c : Client) (s s' : Db) → Step c s s' → Consistent s → Consistent s'
Step-Consistent c s s' (starts id now vehicle_id tenant_id user_id fresh e) h =
    rw e (start_trip-Consistent c id now vehicle_id tenant_id user_id s fresh h)
Step-Consistent c s s' (ends now trip_id tenant_id user_id dto role e) h =
    rw e (end_trip-Consistent c now trip_id tenant_id user_id dto role s h)
Step-Consistent c s s' (updates trip_id tenant_id dto e) h =
    rw e (update_trip-Consistent c trip_id tenant_id dto s h)
Step-Consistent c s s' (others e f) h = record {
  trip_key = λ a b m n. h.trip_key a b (rw e at m) (rw e at n);
  vehicle_key = λ a b m n. h.vehicle_key a b (rw f at m) (rw f at n);
  single = λ a b m n. h.single a b (rw e at m) (rw e at n);
  driving = λ t v m n. h.driving t v (rw e at m) (rw f at n);
  busy = λ v m k. let (t, n, g, i) = h.busy v (rw f at m) k in (t, rw e n, g, i);
}

-- Take tables in which ids of trips and of vehicles are unique, no vehicle is on two trips under way
-- and the vehicles that are ON_TRIP are exactly those of the trips under way. No history of
-- requests to start, end and update trips, accepted or refused, between writes of components that
-- leave trips and vehicles alone, reaches tables in which one of these fails. A new trip takes an
-- id that no trip has.
pub Reach-Consistent : (c : Client) {s s' : Db} → Reach c s s' → Consistent s → Consistent s'
Reach-Consistent c here h = h
Reach-Consistent c (next {t} {u} r st) h = Step-Consistent c t u st (Reach-Consistent c r h)
