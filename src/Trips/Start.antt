-- ===== src/Trips/Start.antt =====
-- trips.service.ts: `startTrip` against the status of vehicles.
use node_vms.Prelude.{
  ℕ, ◌≡◌, ◌≢◌, refl, sym, ap, ◌∙◌, inl, inr, arith, All, All-Listed, Listed, Bool-cases,
  Option-cases,
}
use node_vms.Schema.{Trip, Vehicle, VehicleStatus}
use node_vms.Database.Client.{Client}
use node_vms.Database.Action.{Db}
use node_vms.Database.Lookup.{Listed-insert, Listed-insert_self}
use node_vms.Database.Pairs.{changed, Listed-update, Listed-inserted}
use node_vms.Trips.{
  is_driver_of_user, is_vehicle, has_vehicle_id, new_trip, with_vehicle_status, start_trip,
}
use node_vms.Trips.Fleet.{Consistent, IsActive, started, start_cases, start_missing}

module _ (c : Client) (s : Db) (trip : Trip) (v : Vehicle) (h : Consistent s)
    (listed : Listed v s.vehicles) (same : v.id ≡ trip.vehicle_id)
    (idle : v.status ≡ VehicleStatus.available) (active : IsActive trip)
    (fresh : All (λ t. t.id ≢ trip.id) s.trips) where
  abbrev sent : Vehicle → Vehicle
  sent = changed (has_vehicle_id trip.vehicle_id) (with_vehicle_status VehicleStatus.on_trip)

  -- No trip under way uses the vehicle.
  unused : (a : Trip) → Listed a s.trips → IsActive a → a.vehicle_id ≢ trip.vehicle_id
  unused a m k e = let moving = h.driving a v m listed k (same ∙ sym e) in cc (sym moving ∙ idle)

  started_key :
      (a b : Trip)
      → Listed a (c.insert trip s.trips)
      → Listed b (c.insert trip s.trips)
      → a.id ≡ b.id
      → a ≡ b
  started_key a b m n e = elim (Listed-inserted c s.trips a trip m) [
    | inl p ↦ elim (Listed-inserted c s.trips b trip n) [
      | inl q ↦ p ∙ sym q
      | inr q ↦ absurd (All-Listed _ s.trips fresh q (sym e ∙ ap (λ x. x.id) p))
    ]
    | inr p ↦ elim (Listed-inserted c s.trips b trip n) [
      | inl q ↦ absurd (All-Listed _ s.trips fresh p (e ∙ ap (λ x. x.id) q))
      | inr q ↦ h.trip_key a b p q e
    ]
  ]

  started_single :
      (a b : Trip)
      → Listed a (c.insert trip s.trips)
      → Listed b (c.insert trip s.trips)
      → IsActive a
      → IsActive b
      → a.vehicle_id ≡ b.vehicle_id
      → a ≡ b
  started_single a b m n ka kb e = elim (Listed-inserted c s.trips a trip m) [
    | inl p ↦ elim (Listed-inserted c s.trips b trip n) [
      | inl q ↦ p ∙ sym q
      | inr q ↦ absurd (unused b q kb (sym e ∙ ap (λ x. x.vehicle_id) p))
    ]
    | inr p ↦ elim (Listed-inserted c s.trips b trip n) [
      | inl q ↦ absurd (unused a p ka (e ∙ ap (λ x. x.vehicle_id) q))
      | inr q ↦ h.single a b p q ka kb e
    ]
  ]

  started_vehicle_key :
      (x y : Vehicle)
      → Listed x (started c trip s).vehicles
      → Listed y (started c trip s).vehicles
      → x.id ≡ y.id
      → x ≡ y
  started_vehicle_key x y m n e =
      let (x', m', p) = Listed-update c _ _ s.vehicles x m in
      let (y', n', q) = Listed-update c _ _ s.vehicles y n in
      p ∙ ap sent (h.vehicle_key x' y' m' n' (ground arith)) ∙ sym q

  started_driving :
      (t : Trip) (x : Vehicle)
      → Listed t (c.insert trip s.trips)
      → Listed x (started c trip s).vehicles
      → IsActive t
      → x.id ≡ t.vehicle_id
      → x.status ≡ VehicleStatus.on_trip
  started_driving t x m n k e =
      let (x', n', q) = Listed-update c _ _ s.vehicles x n in
      elim (Listed-inserted c s.trips t trip m) [
        | inl p ↦ ground arith
        | inr p ↦ let moving = h.driving t x' p n' k (ground arith) in ground arith
      ]

  started_busy :
      (x : Vehicle)
      → Listed x (started c trip s).vehicles
      → x.status ≡ VehicleStatus.on_trip
      → (t : Trip) × Listed t (c.insert trip s.trips) × IsActive t × (t.vehicle_id ≡ x.id)
  started_busy x n e =
      let (x', n', q) = Listed-update c _ _ s.vehicles x n in
      elim (Bool-cases (has_vehicle_id trip.vehicle_id x')) [
        | inl p ↦ (trip, Listed-insert_self c s.trips, active, ground arith)
        | inr p ↦
            let (t, m, k, f) = h.busy x' n' (ground arith) in
            (t, Listed-insert c s.trips trip m, k, ground arith)
      ]

  started-Consistent : Consistent (started c trip s)
  started-Consistent = record {
    trip_key = started_key;
    vehicle_key = started_vehicle_key;
    single = started_single;
    driving = started_driving;
    busy = started_busy;
  }

-- Starting a trip under a fresh id, or being refused, leaves a consistent fleet consistent: the
-- vehicles that are ON_TRIP are those of the active trips, one trip each.
pub start_trip-Consistent :
    (c : Client) (id now vehicle_id tenant_id user_id : ℕ) (s : Db)
    → All (λ t. t.id ≢ id) s.trips
    → Consistent s
    → Consistent (start_trip c id now vehicle_id tenant_id user_id s).1
start_trip-Consistent c id now vehicle_id tenant_id user_id s fresh h =
    elim (Option-cases (c.find_first (is_driver_of_user tenant_id user_id) s.drivers)) [
      | inl e ↦ rw (start_missing c s id now vehicle_id tenant_id user_id (inl e)) h
      | inr (d, ed) ↦
          elim (Option-cases (c.find_first (is_vehicle tenant_id vehicle_id) s.vehicles)) [
            | inl e ↦ rw (start_missing c s id now vehicle_id tenant_id user_id (inr e)) h
            | inr (v, ev) ↦
                let (m, k) = c.find_first-some _ _ v ev in
                elim (start_cases c s id now vehicle_id tenant_id user_id d v ed ev) [
                  | inl e ↦ rw e h
                  | inr (idle, e) ↦ rw e (
                      started-Consistent c s (new_trip id tenant_id vehicle_id d.id now) v h m
                        (ground arith) idle (refl, refl) fresh)
                ]
          ]
    ]
