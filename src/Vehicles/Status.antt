-- ===== src/Vehicles/Status.antt =====
-- vehicles.service.ts: `update` beside the status that trips.service.ts keeps.
use node_vms.Prelude.{◌≡◌, none, some, arith, Listed}
use node_vms.Schema.{Vehicle, VehicleStatus}
use node_vms.Database.Client.{Client}
use node_vms.Database.Errors.{ok}
use node_vms.Database.Action.{Db, put_vehicles}
use node_vms.Database.Lookup.{find_first-Unique}
use node_vms.Database.Pairs.{Listed-changed, changed}
use node_vms.EntityValidator.{is_tenant_vehicle}
use node_vms.Trips.Fleet.{Consistent}
use node_vms.Vehicles.{UpdateVehicleDto, has_vehicle_key, edited, update_vehicle_row, update}

-- A request that sets the status and nothing else.
abbrev pub to_status : VehicleStatus → UpdateVehicleDto
to_status status = record {
  registration_no = none;
  make = none;
  model = none;
  year = none;
  color = none;
  fuel_type = none;
  seat_count = none;
  status = some status;
  source_type = none;
  branch_id = none;
  fitness_expiry_date = none;
  tax_token_expiry_date = none;
}

module _ (c : Client) (s : Db) (v : Vehicle) (h : Consistent s) (m : Listed v s.vehicles)
    (live : v.deleted_at ≡ none) where
  abbrev after : Db
  after =
      put_vehicles
        (c.update (has_vehicle_key v.id) (edited (to_status VehicleStatus.available)) s.vehicles) s

  update_accepted :
      update c v.tenant_id v.id (to_status VehicleStatus.available) s
      ≡ (ok (edited (to_status VehicleStatus.available) v), after)
  unfolding update update_vehicle_row
  update_accepted =
      let found =
        find_first-Unique c (is_tenant_vehicle v.tenant_id v.id) s.vehicles v
          (λ a b n k e f. h.vehicle_key a b n k (ground arith)) m (ground arith) in
      let row =
        find_first-Unique c (has_vehicle_key v.id) s.vehicles v
          (λ a b n k e f. h.vehicle_key a b n k (ground arith)) m (ground arith) in
      ground arith

  -- In a fleet with unique ids, no vehicle on two trips under way, and those vehicles ON_TRIP that
  -- are on one, `update` lets a tenant set a vehicle of its own that is ON_TRIP, and not deleted,
  -- to AVAILABLE: the request is accepted, and afterwards this does not hold of the fleet any more.
  pub update_frees_a_driving_vehicle :
      v.status ≡ VehicleStatus.on_trip
      → (s' : Db) × (update c v.tenant_id v.id (to_status VehicleStatus.available) s
          ≡ (ok (edited (to_status VehicleStatus.available) v), s'))
        × (¬ Consistent s')
  update_frees_a_driving_vehicle e = (
    after,
    update_accepted,
    λ k.
        let (t, n, active, same) = h.busy v m e in
        let listed =
          Listed-changed c (has_vehicle_key v.id) (edited (to_status VehicleStatus.available))
            s.vehicles v m in
        let status =
          k.driving t
            (changed (has_vehicle_key v.id) (edited (to_status VehicleStatus.available)) v) n listed
            active (ground arith) in
        ground arith,
  )
