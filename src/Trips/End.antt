-- ===== src/Trips/End.antt =====
-- trips.service.ts: `endTrip` and `updateTrip` against the status of vehicles.
use node_vms.Prelude.{
  ℕ, ◌≡◌, ◌≢◌, refl, sym, ap, subst, ◌∙◌, ◌⊎◌, inl, inr, arith, Listed, Bool-cases, Option-cases,
}
use node_vms.Schema.{Trip, Vehicle, VehicleStatus, Role}
use node_vms.Database.Client.{Client}
use node_vms.Database.Action.{Db, put_trips}
use node_vms.Database.Pairs.{changed, Listed-update, Listed-changed}
use node_vms.Trips.{
  UpdateTripDto, is_trip, has_trip_id, has_vehicle_id, with_costs, ended, with_vehicle_status,
  end_trip, update_trip,
}
use node_vms.Trips.Fleet.{Consistent, IsActive, finished, end_cases, end_missing}

module _ (c : Client) (s : Db) (now : ℕ) (dto : UpdateTripDto) (x : Trip) (h : Consistent s)
    (listed : Listed x s.trips) (active : IsActive x) where
  abbrev closed : Trip → Trip
  closed = changed (has_trip_id x.id) (ended now dto)

  abbrev parked : Vehicle → Vehicle
  parked = changed (has_vehicle_id x.vehicle_id) (with_vehicle_status VehicleStatus.available)

  -- A trip that is still under way was so before, and is another trip.
  closed-IsActive : (t : Trip) → IsActive (closed t) → IsActive t × (t.id ≢ x.id) × (closed t ≡ t)
  closed-IsActive t k = elim (Bool-cases (has_trip_id x.id t)) [
    | inl e ↦ absurd (ground arith)
    | inr e ↦ rw e (rw e at k, λ f. ground arith, refl)
  ]

  finished_key :
      (a b : Trip)
      → Listed a (finished c now x.id x dto s).trips
      → Listed b (finished c now x.id x dto s).trips
      → a.id ≡ b.id
      → a ≡ b
  finished_key a b m n e =
      let (a', m', p) = Listed-update c _ _ s.trips a m in
      let (b', n', q) = Listed-update c _ _ s.trips b n in
      p ∙ ap closed (h.trip_key a' b' m' n' (ground arith)) ∙ sym q

  finished_vehicle_key :
      (v w : Vehicle)
      → Listed v (finished c now x.id x dto s).vehicles
      → Listed w (finished c now x.id x dto s).vehicles
      → v.id ≡ w.id
      → v ≡ w
  finished_vehicle_key v w m n e =
      let (v', m', p) = Listed-update c _ _ s.vehicles v m in
      let (w', n', q) = Listed-update c _ _ s.vehicles w n in
      p ∙ ap parked (h.vehicle_key v' w' m' n' (ground arith)) ∙ sym q

  finished_single :
      (a b : Trip)
      → Listed a (finished c now x.id x dto s).trips
      → Listed b (finished c now x.id x dto s).trips
      → IsActive a
      → IsActive b
      → a.vehicle_id ≡ b.vehicle_id
      → a ≡ b
  finished_single a b m n ka kb e =
      let (a', m', p) = Listed-update c _ _ s.trips a m in
      let (b', n', q) = Listed-update c _ _ s.trips b n in
      let (ja, _, ia) = closed-IsActive a' (rw p at ka) in
      let (jb, _, ib) = closed-IsActive b' (rw q at kb) in
      p ∙ ap closed (h.single a' b' m' n' ja jb (ground arith)) ∙ sym q

  finished_driving :
      (t : Trip) (v : Vehicle)
      → Listed t (finished c now x.id x dto s).trips
      → Listed v (finished c now x.id x dto s).vehicles
      → IsActive t
      → v.id ≡ t.vehicle_id
      → v.status ≡ VehicleStatus.on_trip
  finished_driving t v m n k e =
      let (t', m', p) = Listed-update c _ _ s.trips t m in
      let (v', n', q) = Listed-update c _ _ s.vehicles v n in
      let (j, ne, i) = closed-IsActive t' (rw p at k) in
      let moving = h.driving t' v' m' n' j (ground arith) in
      elim (Bool-cases (has_vehicle_id x.vehicle_id v')) [
        | inl f ↦
            let same = h.single t' x m' listed j active (ground arith) in
            absurd (ne (ap (λ y. y.id) same))
        | inr f ↦ ground arith
      ]

  finished_busy :
      (v : Vehicle)
      → Listed v (finished c now x.id x dto s).vehicles
      → v.status ≡ VehicleStatus.on_trip
      → (t : Trip) × Listed t (finished c now x.id x dto s).trips
        × IsActive t
        × (t.vehicle_id ≡ v.id)
  finished_busy v n e =
      let (v', n', q) = Listed-update c _ _ s.vehicles v n in
      elim (Bool-cases (has_vehicle_id x.vehicle_id v')) [
        | inl f ↦ absurd (ground arith)
        | inr f ↦
            let (t, m, k, g) = h.busy v' n' (ground arith) in
            elim (Bool-cases (has_trip_id x.id t)) [
              | inl a ↦ let same = h.trip_key t x m listed (ground arith) in absurd (ground arith)
              | inr a ↦ (
                t,
                subst (λ y. Listed y (finished c now x.id x dto s).trips) (ground arith)
                    (Listed-changed c (has_trip_id x.id) (ended now dto) s.trips t m),
                k,
                ground arith,
              )
            ]
      ]

  finished-Consistent : Consistent (finished c now x.id x dto s)
  finished-Consistent = record {
    trip_key = finished_key;
    vehicle_key = finished_vehicle_key;
    single = finished_single;
    driving = finished_driving;
    busy = finished_busy;
  }

-- Ending a trip, or being refused, leaves a consistent fleet consistent.
pub end_trip-Consistent :
    (c : Client) (now trip_id tenant_id user_id : ℕ) (dto : UpdateTripDto) (role : Role) (s : Db)
    → Consistent s
    → Consistent (end_trip c now trip_id tenant_id user_id dto role s).1
end_trip-Consistent c now trip_id tenant_id user_id dto role s h =
    elim (Option-cases (c.find_first (is_trip tenant_id trip_id) s.trips)) [
      | inl e ↦ rw (end_missing c s now trip_id tenant_id user_id dto role e) h
      | inr (x, ex) ↦
          let (m, k) = c.find_first-some _ _ x ex in
          elim (end_cases c s now trip_id tenant_id user_id dto role x ex) [
            | inl e ↦ rw e h
            | inr (open_, e) ↦
                let same : x.id ≡ trip_id = ground arith in
                rw (e, ← same) (finished-Consistent c s now dto x h m (open_, ground arith))
          ]
    ]

module _ (c : Client) (trip_id tenant_id : ℕ) (dto : UpdateTripDto) (s : Db) where
  update_cases :
      ((update_trip c trip_id tenant_id dto s).1 ≡ s)
      ⊎ ((update_trip c trip_id tenant_id dto s).1
          ≡ put_trips (c.update (has_trip_id trip_id) (with_costs dto) s.trips) s)
  unfolding update_trip
  update_cases = ground arith

  abbrev priced : Trip → Trip
  priced = changed (has_trip_id trip_id) (with_costs dto)

  priced_fields :
      (t : Trip)
      → ((priced t).id ≡ t.id)
        × ((priced t).vehicle_id ≡ t.vehicle_id)
        × ((priced t).end_time ≡ t.end_time)
        × ((priced t).deleted_at ≡ t.deleted_at)
  priced_fields t = ground arith

  priced-Consistent :
      Consistent s
      → Consistent (put_trips (c.update (has_trip_id trip_id) (with_costs dto) s.trips) s)
  priced-Consistent h = record {
    trip_key = λ a b m n e.
        let (a', m', p) = Listed-update c _ _ s.trips a m in
        let (b', n', q) = Listed-update c _ _ s.trips b n in
        p ∙ ap priced (h.trip_key a' b' m' n' (ground arith)) ∙ sym q;
    vehicle_key = h.vehicle_key;
    single = λ a b m n ka kb e.
        let (a', m', p) = Listed-update c _ _ s.trips a m in
        let (b', n', q) = Listed-update c _ _ s.trips b n in
        p ∙ ap priced (h.single a' b' m' n' (ground arith) (ground arith) (ground arith)) ∙ sym q;
    driving = λ t v m n k e.
        let (t', m', p) = Listed-update c _ _ s.trips t m in
        h.driving t' v m' n (ground arith) (ground arith);
    busy = λ v n e.
        let (t, m, k, g) = h.busy v n e in
        (priced t, Listed-changed c _ _ s.trips t m, ground arith, ground arith);
  }

  -- Changing the costs of a trip, or being refused, leaves a consistent fleet consistent.
  pub update_trip-Consistent : Consistent s → Consistent (update_trip c trip_id tenant_id dto s).1
  update_trip-Consistent h = elim update_cases [
    | inl e ↦ rw e h
    | inr e ↦ rw e (priced-Consistent h)
  ]
