-- ===== src/Trips/Fleet.antt =====
-- trips.service.ts: trips beside the status of vehicles.
use node_vms.Prelude.{ℕ, ◌≡◌, ◌⊎◌, true, false, none, some, arith, Listed}
use node_vms.Schema.{Trip, Vehicle, Driver, VehicleStatus, Role}
use node_vms.Database.Client.{Client}
use node_vms.Database.Action.{Db}
use node_vms.Trips.{
  UpdateTripDto, is_driver_of_user, is_vehicle, is_trip, has_trip_id, has_vehicle_id, has_driver_id,
  new_trip, ended, with_vehicle_status, with_availability, start_writes, start_trip, end_writes,
  end_trip,
}

-- A trip under way.
abbrev pub IsActive : Trip → Type 0
IsActive t = (t.end_time ≡ none) × (t.deleted_at ≡ none)

-- The state of the fleet: keys are keys, no vehicle is on two trips, and the vehicles that are
-- ON_TRIP are those of the active trips.
pub record Consistent (s : Db) : Type 0 where
  pub trip_key : (a b : Trip) → Listed a s.trips → Listed b s.trips → a.id ≡ b.id → a ≡ b
  pub vehicle_key :
      (v w : Vehicle) → Listed v s.vehicles → Listed w s.vehicles → v.id ≡ w.id → v ≡ w
  pub single :
      (a b : Trip)
      → Listed a s.trips
      → Listed b s.trips
      → IsActive a
      → IsActive b
      → a.vehicle_id ≡ b.vehicle_id
      → a ≡ b
  pub driving :
      (t : Trip) (v : Vehicle)
      → Listed t s.trips
      → Listed v s.vehicles
      → IsActive t
      → v.id ≡ t.vehicle_id
      → v.status ≡ VehicleStatus.on_trip
  pub busy :
      (v : Vehicle)
      → Listed v s.vehicles
      → v.status ≡ VehicleStatus.on_trip
      → (t : Trip) × Listed t s.trips × IsActive t × (t.vehicle_id ≡ v.id)

-- What a completed start and a completed end leave behind.
abbrev pub started : Client → Trip → Db → Db
started c trip s = record s {
  trips = c.insert trip s.trips;
  vehicles =
      c.update (has_vehicle_id trip.vehicle_id) (with_vehicle_status VehicleStatus.on_trip)
        s.vehicles;
  drivers = c.update (has_driver_id trip.driver_id) (with_availability false) s.drivers;
}

abbrev pub finished : Client → ℕ → ℕ → Trip → UpdateTripDto → Db → Db
finished c now trip_id trip dto s = record s {
  trips = c.update (has_trip_id trip_id) (ended now dto) s.trips;
  vehicles =
      c.update (has_vehicle_id trip.vehicle_id) (with_vehicle_status VehicleStatus.available)
        s.vehicles;
  drivers = c.update (has_driver_id trip.driver_id) (with_availability true) s.drivers;
}

module _ (c : Client) (s : Db) where
  pub start_writes_cases :
      (trip : Trip)
      → ((start_writes c trip s).1 ≡ s) ⊎ ((start_writes c trip s).1 ≡ started c trip s)
  unfolding start_writes
  start_writes_cases trip = ground arith

  pub end_writes_cases :
      (now trip_id : ℕ) (trip : Trip) (dto : UpdateTripDto)
      → ((end_writes c now trip_id trip dto s).1 ≡ s)
        ⊎ ((end_writes c now trip_id trip dto s).1 ≡ finished c now trip_id trip dto s)
  unfolding end_writes
  end_writes_cases now trip_id trip dto = ground arith

  module _ (id now vehicle_id tenant_id user_id : ℕ) where
    pub start_cases :
        (d : Driver) (v : Vehicle)
        → c.find_first (is_driver_of_user tenant_id user_id) s.drivers ≡ some d
        → c.find_first (is_vehicle tenant_id vehicle_id) s.vehicles ≡ some v
        → ((start_trip c id now vehicle_id tenant_id user_id s).1 ≡ s)
          ⊎ ((v.status ≡ VehicleStatus.available)
              × ((start_trip c id now vehicle_id tenant_id user_id s).1
                  ≡ started c (new_trip id tenant_id vehicle_id d.id now) s))
    unfolding start_trip
    start_cases d v ed ev =
        ground (arith, start_writes_cases (new_trip id tenant_id vehicle_id d.id now))

    pub start_missing :
        (c.find_first (is_driver_of_user tenant_id user_id) s.drivers ≡ none)
          ⊎ (c.find_first (is_vehicle tenant_id vehicle_id) s.vehicles ≡ none)
        → (start_trip c id now vehicle_id tenant_id user_id s).1 ≡ s
    unfolding start_trip
    start_missing h = ground arith

  module _ (now trip_id tenant_id user_id : ℕ) (dto : UpdateTripDto) (role : Role) where
    pub end_cases :
        (x : Trip)
        → c.find_first (is_trip tenant_id trip_id) s.trips ≡ some x
        → ((end_trip c now trip_id tenant_id user_id dto role s).1 ≡ s)
          ⊎ ((x.end_time ≡ none)
              × ((end_trip c now trip_id tenant_id user_id dto role s).1
                  ≡ finished c now trip_id x dto s))
    unfolding end_trip
    end_cases x e = ground (arith, end_writes_cases now trip_id x dto)

    pub end_missing :
        c.find_first (is_trip tenant_id trip_id) s.trips ≡ none
        → (end_trip c now trip_id tenant_id user_id dto role s).1 ≡ s
    unfolding end_trip
    end_missing h = ground arith
