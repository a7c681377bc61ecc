-- ===== src/Trips/Outcomes.antt =====
-- trips.service.ts: when a trip is started, and what ending it undoes.
use node_vms.Prelude.{
  ℕ, ◌≡◌, ◌≢◌, refl, sym, ◌∙◌, inl, inr, Bool, true, false, none, some, arith, Listed, All,
  All-Listed, All-mono, Bool-cases, ◌≤◌, ◌⊎◌,
}
use node_vms.Schema.{Trip, Vehicle, Driver, Assignment, VehicleStatus, Role, is_driver}
use node_vms.Database.Client.{Client}
use node_vms.Database.Errors.{ok}
use node_vms.Database.Action.{Db}
use node_vms.Database.Lookup.{
  find_first-none_iff, find_first-total, find_first-Unique, Listed-insert, Listed-insert_self,
}
use node_vms.Database.Pairs.{changed, Listed-inserted, Listed-changed, update-update_undo}
use node_vms.Trips.{
  UpdateTripDto, is_driver_of_user, is_current_assignment, is_vehicle, is_active_trip, is_trip,
  has_trip_id, has_vehicle_id, has_driver_id, new_trip, ended, with_vehicle_status,
  with_availability, start_writes, start_trip, end_writes, end_trip,
}
use node_vms.Trips.Fleet.{started, finished}

-- The driver's row is of the tenant, linked to the user and not deleted.
abbrev pub IsDriverOf : ℕ → ℕ → Driver → Type 0
IsDriverOf tenant_id user_id d =
    (d.user_id ≡ some user_id) × (d.tenant_id ≡ tenant_id) × (d.deleted_at ≡ none)

-- The trip is the driver's, has started and not ended, and is not deleted.
abbrev pub IsUnderWay : ℕ → Trip → Type 0
IsUnderWay driver_id t = (t.driver_id ≡ driver_id) × (t.end_time ≡ none) × (t.deleted_at ≡ none)

-- The assignment gives the vehicle to the driver at the time, its last instant included, and is not
-- deleted.
abbrev pub IsCurrent : ℕ → ℕ → ℕ → Assignment → Type 0
IsCurrent vehicle_id driver_id now a =
    (a.vehicle_id ≡ vehicle_id)
    × (a.driver_id ≡ driver_id)
    × (a.deleted_at ≡ none)
    × (a.start_date ≤ now)
    × ((a.end_date ≡ none) ⊎ ((e : ℕ) × (a.end_date ≡ some e) × (now ≤ e)))

module _ (c : Client) (s : Db) where
  start_writes_ok :
      (trip : Trip) (v : Vehicle) (d : Driver)
      → Listed v s.vehicles
      → v.id ≡ trip.vehicle_id
      → Listed d s.drivers
      → d.id ≡ trip.driver_id
      → start_writes c trip s ≡ (ok trip, started c trip s)
  unfolding start_writes
  start_writes_ok trip v d mv ev md ed =
      let (v', fv) =
        find_first-total c (has_vehicle_id trip.vehicle_id) s.vehicles v mv (ground arith) in
      let (d', fd) =
        find_first-total c (has_driver_id trip.driver_id) s.drivers d md (ground arith) in
      ground arith

  end_writes_ok :
      (now trip_id : ℕ) (trip : Trip) (dto : UpdateTripDto) (x : Trip) (v : Vehicle) (d : Driver)
      → c.find_first (has_trip_id trip_id) s.trips ≡ some x
      → Listed v s.vehicles
      → v.id ≡ trip.vehicle_id
      → Listed d s.drivers
      → d.id ≡ trip.driver_id
      → end_writes c now trip_id trip dto s
        ≡ (ok (ended now dto x), finished c now trip_id trip dto s)
  unfolding end_writes
  end_writes_ok now trip_id trip dto x v d fx mv ev md ed =
      let (v', fv) =
        find_first-total c (has_vehicle_id trip.vehicle_id) s.vehicles v mv (ground arith) in
      let (d', fd) =
        find_first-total c (has_driver_id trip.driver_id) s.drivers d md (ground arith) in
      ground arith

  user_driver :
      (tenant_id user_id : ℕ) (d : Driver)
      → is_driver_of_user tenant_id user_id d ≡ true
      → IsDriverOf tenant_id user_id d
  user_driver tenant_id user_id d h = (ground arith, ground arith, ground arith)

  current_assignment :
      (vehicle_id driver_id now : ℕ) (a : Assignment)
      → IsCurrent vehicle_id driver_id now a
      → is_current_assignment vehicle_id driver_id now a ≡ true
  current_assignment vehicle_id driver_id now a (ev, ed, live, from, inl open_) = ground arith
  current_assignment vehicle_id driver_id now a (ev, ed, live, from, inr (e, end_, until)) =
      ground arith

  idle_trip :
      (tenant_id vehicle_id : ℕ) (t : Trip)
      → (t.vehicle_id ≡ vehicle_id → t.tenant_id ≡ tenant_id → ¬ IsUnderWay t.driver_id t)
      → is_active_trip tenant_id vehicle_id t ≡ false
  idle_trip tenant_id vehicle_id t h = elim (Bool-cases (is_active_trip tenant_id vehicle_id t)) [
    | inl e ↦ absurd (h (ground arith) (ground arith) (refl, ground arith, ground arith))
    | inr e ↦ e
  ]

  start_accepted :
      (id now vehicle_id tenant_id user_id : ℕ) (d : Driver) (a : Assignment) (v : Vehicle)
      → c.find_first (is_driver_of_user tenant_id user_id) s.drivers ≡ some d
      → c.find_first (is_current_assignment vehicle_id d.id now) s.assignments ≡ some a
      → c.find_first (is_vehicle tenant_id vehicle_id) s.vehicles ≡ some v
      → v.status ≡ VehicleStatus.available
      → All (λ t. is_active_trip tenant_id vehicle_id t ≡ false) s.trips
      → let trip = new_trip id tenant_id vehicle_id d.id now in
        start_trip c id now vehicle_id tenant_id user_id s ≡ (ok trip, started c trip s)
  unfolding start_trip
  start_accepted id now vehicle_id tenant_id user_id d a v fd fa fv idle none_active =
      let (md, kd) = c.find_first-some _ _ d fd in
      let (mv, kv) = c.find_first-some _ _ v fv in
      let free =
        (find_first-none_iff c (is_active_trip tenant_id vehicle_id) s.trips).1 none_active in
      ground (
        arith,
        start_writes_ok (new_trip id tenant_id vehicle_id d.id now) v d mv (ground arith) md refl,
      )

  -- A driver who is on a trip can start a second one. If the user's driver has a trip under way and
  -- is assigned at the time to a vehicle of the tenant that is AVAILABLE and has no trip of the tenant
  -- under way, the start is accepted, and afterwards two different trips of the driver are under way.
  -- The user must have one driver in the tenant, the vehicle's id must be a key, and the new trip's
  -- id must be fresh.
  pub start_accepts_second_trip :
      (id now vehicle_id tenant_id user_id : ℕ) (d : Driver) (a : Assignment) (v : Vehicle)
      (x : Trip)
      → Listed d s.drivers
      → IsDriverOf tenant_id user_id d
      → ((e : Driver) → Listed e s.drivers → IsDriverOf tenant_id user_id e → e ≡ d)
      → Listed x s.trips
      → IsUnderWay d.id x
      → Listed a s.assignments
      → IsCurrent vehicle_id d.id now a
      → Listed v s.vehicles
      → v.id ≡ vehicle_id
      → v.tenant_id ≡ tenant_id
      → v.deleted_at ≡ none
      → v.status ≡ VehicleStatus.available
      → ((w : Vehicle) → Listed w s.vehicles → w.id ≡ vehicle_id → w ≡ v)
      → All
          (λ t. t.vehicle_id ≡ vehicle_id → t.tenant_id ≡ tenant_id → ¬ IsUnderWay t.driver_id t)
          s.trips
      → All (λ t. t.id ≢ id) s.trips
      → (trip : Trip) × (s' : Db) × (start_trip c id now vehicle_id tenant_id user_id s
          ≡ (ok trip, s'))
        × Listed trip s'.trips
        × IsUnderWay d.id trip
        × Listed x s'.trips
        × (x.id ≢ trip.id)
  start_accepts_second_trip id now vehicle_id tenant_id user_id d a v x md kd one_driver mx on_trip
        ma current mv vid vt vl idle one_vehicle no_trip fresh =
      let fd =
        find_first-Unique c (is_driver_of_user tenant_id user_id) s.drivers d
          (λ e f m n h k.
            one_driver e m (user_driver tenant_id user_id e h)
            ∙ sym (one_driver f n (user_driver tenant_id user_id f k)))
          md (ground (arith, kd)) in
      let (b, fa) =
        find_first-total c (is_current_assignment vehicle_id d.id now) s.assignments a ma
          (current_assignment vehicle_id d.id now a current) in
      let fv =
        find_first-Unique c (is_vehicle tenant_id vehicle_id) s.vehicles v
          (λ e f m n h k. one_vehicle e m (ground arith) ∙ sym (one_vehicle f n (ground arith))) mv
          (ground arith) in
      let free =
        All-mono _ (λ t. is_active_trip tenant_id vehicle_id t ≡ false) s.trips
          (λ t h. idle_trip tenant_id vehicle_id t h) no_trip in
      (
        new_trip id tenant_id vehicle_id d.id now,
        started c (new_trip id tenant_id vehicle_id d.id now) s,
        start_accepted id now vehicle_id tenant_id user_id d b v fd fa fv idle free,
        Listed-insert_self c s.trips,
        (refl, refl, refl),
        Listed-insert c s.trips _ mx,
        All-Listed _ s.trips fresh mx,
      )

module _ (c : Client) (s : Db) (trip : Trip) (v : Vehicle) (d : Driver) (mv : Listed v s.vehicles)
    (ev : v.id ≡ trip.vehicle_id) (md : Listed d s.drivers) (ed : d.id ≡ trip.driver_id)
    (fresh : All (λ t. t.id ≢ trip.id) s.trips)
    (live : (trip.deleted_at ≡ none) × (trip.end_time ≡ none)) where
  only_new : (t : Trip) → Listed t (c.insert trip s.trips) → t.id ≡ trip.id → t ≡ trip
  only_new t m e = elim (Listed-inserted c s.trips t trip m) [
    | inl p ↦ p
    | inr p ↦ absurd (All-Listed _ s.trips fresh p e)
  ]

  found_new :
      (p : Trip → Bool)
      → ((t : Trip) → p t ≡ true → t.id ≡ trip.id)
      → p trip ≡ true
      → c.find_first p (c.insert trip s.trips) ≡ some trip
  found_new p k hit =
      find_first-Unique c p (c.insert trip s.trips) trip
        (λ a b m n x y. only_new a m (k a x) ∙ sym (only_new b n (k b y)))
        (Listed-insert_self c s.trips) hit

  -- Ending a trip that was just started under a fresh id, by a user whose role is not DRIVER,
  -- succeeds with the given end time and costs, and puts the vehicle table back as it was before
  -- the start, if every vehicle row with the trip's vehicle key was AVAILABLE. The trip's vehicle
  -- and driver must exist.
  pub end_trip_undoes_start :
      (now user_id : ℕ) (dto : UpdateTripDto) (role : Role)
      → is_driver role ≡ false
      → ((w : Vehicle)
          → Listed w s.vehicles
          → w.id ≡ trip.vehicle_id
          → w.status ≡ VehicleStatus.available)
      → let end_ = end_trip c now trip.id trip.tenant_id user_id dto role (started c trip s) in
        (end_.0 ≡ ok (ended now dto trip)) × (end_.1.vehicles ≡ s.vehicles)
  unfolding end_trip
  end_trip_undoes_start now user_id dto role staff idle =
      let f1 = found_new (is_trip trip.tenant_id trip.id) (λ t e. ground arith) (ground arith) in
      let f2 = found_new (has_trip_id trip.id) (λ t e. ground arith) (ground arith) in
      let writes =
        end_writes_ok c (started c trip s) now trip.id trip dto trip
          (changed (has_vehicle_id trip.vehicle_id) (with_vehicle_status VehicleStatus.on_trip) v)
          (changed (has_driver_id trip.driver_id) (with_availability false) d) f2
          (Listed-changed c _ _ s.vehicles v mv) (ground arith)
          (Listed-changed c _ _ s.drivers d md) (ground arith) in
      let undone =
        update-update_undo c (has_vehicle_id trip.vehicle_id)
          (with_vehicle_status VehicleStatus.on_trip) (with_vehicle_status VehicleStatus.available)
          s.vehicles (λ w m e. (e, let st = idle w m (ground arith) in ground arith)) in
      ground (arith, undone, writes)
