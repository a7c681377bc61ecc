-- ===== src/Trips.antt =====
-- src/trips/trips.service.ts, with its DTO. `now` is the clock, `id` the key that the database gives
-- to a new row.
pub mod Fleet
pub mod History
pub mod Start
pub mod End
pub mod Outcomes
use node_vms.Prelude.{
  ℕ, String, Bool, true, false, ◌&&◌, ◌||◌, not, Option, none, some, List, leb, ◌==◌, is_none,
  is_some, is_just, get_or, if◌then◌else◌,
}
use node_vms.Schema.{
  Trip, Vehicle, Driver, Assignment, VehicleStatus, is_available, vehicle_status_name, Role,
  is_driver,
}
use node_vms.Database.Client.{Client}
use node_vms.Database.Errors.{bad_request, forbidden, not_found}
use node_vms.Database.Action.{
  Db, Action, pure, throw_if, or_throw, when, transaction, ◌>>=◌, ◌>>◌, find_first, find_many,
  insert_row, update_row, put_trips, put_vehicles, put_drivers,
}

pub record UpdateTripDto : Type 0 where
  pub toll_cost : Option ℕ
  pub police_cost : Option ℕ
  pub income : Option ℕ
  pub distance : Option ℕ

-- The `where` clauses.
abbrev pub is_driver_of_user : ℕ → ℕ → Driver → Bool
is_driver_of_user tenant_id user_id d =
    is_just d.user_id user_id && (d.tenant_id == tenant_id && is_none d.deleted_at)

-- `OR: [{ endDate: null }, { endDate: { gte: now } }]`
abbrev pub lasts_until : Option ℕ → ℕ → Bool
lasts_until none now = true
lasts_until (some e) now = leb now e

abbrev pub is_current_assignment : ℕ → ℕ → ℕ → Assignment → Bool
is_current_assignment vehicle_id driver_id now a =
    a.vehicle_id == vehicle_id
    && (a.driver_id == driver_id
        && (is_none a.deleted_at && (leb a.start_date now && lasts_until a.end_date now)))

abbrev pub is_vehicle : ℕ → ℕ → Vehicle → Bool
is_vehicle tenant_id id v = v.id == id && (v.tenant_id == tenant_id && is_none v.deleted_at)

abbrev pub is_active_trip : ℕ → ℕ → Trip → Bool
is_active_trip tenant_id vehicle_id t =
    t.vehicle_id == vehicle_id
    && (t.tenant_id == tenant_id && (is_none t.deleted_at && is_none t.end_time))

abbrev pub is_trip : ℕ → ℕ → Trip → Bool
is_trip tenant_id id t = t.id == id && (t.tenant_id == tenant_id && is_none t.deleted_at)

abbrev pub has_trip_id : ℕ → Trip → Bool
has_trip_id id t = t.id == id

abbrev pub has_vehicle_id : ℕ → Vehicle → Bool
has_vehicle_id id v = v.id == id

abbrev pub has_driver_id : ℕ → Driver → Bool
has_driver_id id d = d.id == id

-- The rows that the methods write.
abbrev pub new_trip : ℕ → ℕ → ℕ → ℕ → ℕ → Trip
new_trip id tenant_id vehicle_id driver_id now = record {
  id = id;
  tenant_id = tenant_id;
  vehicle_id = vehicle_id;
  driver_id = driver_id;
  start_time = now;
  end_time = none;
  distance = 0;
  income = 0;
  toll_cost = 0;
  police_cost = 0;
  deleted_at = none;
}

abbrev pub with_costs : UpdateTripDto → Trip → Trip
with_costs dto t = record t {
  toll_cost = get_or dto.toll_cost t.toll_cost;
  police_cost = get_or dto.police_cost t.police_cost;
  income = get_or dto.income t.income;
  distance = get_or dto.distance t.distance;
}

abbrev pub ended : ℕ → UpdateTripDto → Trip → Trip
ended now dto t = with_costs dto (record t { end_time = some now })

abbrev pub with_vehicle_status : VehicleStatus → Vehicle → Vehicle
with_vehicle_status status v = record v { status = status }

abbrev pub with_availability : Bool → Driver → Driver
with_availability b d = record d { is_available = b }

-- `!driver || driver.id !== trip.driverId`
abbrev pub is_other_driver : Option Driver → Trip → Bool
is_other_driver none t = true
is_other_driver (some d) t = not (d.id == t.driver_id)

module _ (c : Client) where
  -- Step 5 of `startTrip`: the trip, the vehicle and the driver in one transaction.
  pub start_writes : Trip → Action Trip
  start_writes trip = transaction (do
    created ← insert_row c (λ s. s.trips) put_trips trip
    vehicle ←
        update_row c (λ s. s.vehicles) put_vehicles (has_vehicle_id trip.vehicle_id)
          (with_vehicle_status VehicleStatus.on_trip)
    driver ←
        update_row c (λ s. s.drivers) put_drivers (has_driver_id trip.driver_id)
          (with_availability false)
    pure created)

  pub start_trip : ℕ → ℕ → ℕ → ℕ → ℕ → Action Trip
  start_trip id now vehicle_id tenant_id user_id = do
    found ← find_first c (λ s. s.drivers) (is_driver_of_user tenant_id user_id)
    driver ← or_throw found (forbidden "No driver profile found for this user")
    assigned ← find_first c (λ s. s.assignments) (is_current_assignment vehicle_id driver.id now)
    assignment ←
        or_throw assigned (forbidden "You are not assigned to this vehicle for the current period")
    listed ← find_first c (λ s. s.vehicles) (is_vehicle tenant_id vehicle_id)
    vehicle ← or_throw listed (not_found "Vehicle not found")
    throw_if (not (is_available vehicle.status)) (
        bad_request (
          Prim.Native.String.◌++◌ "Vehicle is not available (current status: "
            (vehicle_status_name vehicle.status)))
    active ← find_first c (λ s. s.trips) (is_active_trip tenant_id vehicle_id)
    throw_if (is_some active) (bad_request "Vehicle already has an active trip in progress")
    start_writes (new_trip id tenant_id vehicle_id driver.id now)

  -- The transaction of `endTrip`.
  pub end_writes : ℕ → ℕ → Trip → UpdateTripDto → Action Trip
  end_writes now trip_id trip dto = transaction (do
    updated ← update_row c (λ s. s.trips) put_trips (has_trip_id trip_id) (ended now dto)
    vehicle ←
        update_row c (λ s. s.vehicles) put_vehicles (has_vehicle_id trip.vehicle_id)
          (with_vehicle_status VehicleStatus.available)
    driver ←
        update_row c (λ s. s.drivers) put_drivers (has_driver_id trip.driver_id)
          (with_availability true)
    pure updated)

  pub end_trip : ℕ → ℕ → ℕ → ℕ → UpdateTripDto → Role → Action Trip
  end_trip now trip_id tenant_id user_id dto user_role = do
    found ← find_first c (λ s. s.trips) (is_trip tenant_id trip_id)
    trip ← or_throw found (not_found "Trip not found")
    throw_if (is_some trip.end_time) (bad_request "Trip has already ended")
    driver ← find_first c (λ s. s.drivers) (is_driver_of_user tenant_id user_id)
    throw_if (is_driver user_role && is_other_driver driver trip)
        (forbidden "You are not the driver for this trip")
    end_writes now trip_id trip dto

  pub update_trip : ℕ → ℕ → UpdateTripDto → Action Trip
  update_trip trip_id tenant_id dto = do
    found ← find_first c (λ s. s.trips) (is_trip tenant_id trip_id)
    trip ← or_throw found (not_found "Trip not found")
    update_row c (λ s. s.trips) put_trips (has_trip_id trip_id) (with_costs dto)

  pub list_trips : ℕ → Action (List Trip)
  list_trips tenant_id =
      find_many c (λ s. s.trips) (λ t. t.tenant_id == tenant_id && is_none t.deleted_at)

  pub get_trip : ℕ → ℕ → Action Trip
  get_trip trip_id tenant_id = do
    found ← find_first c (λ s. s.trips) (is_trip tenant_id trip_id)
    or_throw found (not_found "Trip not found")
