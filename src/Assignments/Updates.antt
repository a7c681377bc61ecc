-- ===== src/Assignments/Updates.antt =====
-- assignments.service.ts, `update`: what it checks, and what it does not.
use node_vms.Prelude.{
  ℕ, ◌<◌, ◌≡◌, ◌≢◌, refl, ◌⊎◌, inl, inr, true, none, some, arith, Listed, Option-cases,
}
use node_vms.Schema.{Assignment, Vehicle, Driver}
use node_vms.Database.Client.{Client}
use node_vms.Database.Errors.{ok}
use node_vms.Database.Action.{Db, put_assignments}
use node_vms.Database.Lookup.{find_first-total}
use node_vms.Database.Pairs.{changed, Listed-changed}
use node_vms.Assignments.{
  UpdateAssignmentDto, is_own_vehicle, is_own_driver, has_assignment_id, with_update, is_assignment,
  update,
}
use node_vms.Assignments.Exclusive.{Until, Exclusive}

-- The request that moves an assignment to the driver and the period of another.
abbrev pub as_in : Assignment → UpdateAssignmentDto
as_in y = record {
  vehicle_id = none;
  driver_id = some y.driver_id;
  start_date = some y.start_date;
  end_date = some y.end_date;
}

-- A period whose end, if it has one, is after its start.
abbrev pub IsProper : Assignment → Type 0
IsProper a = elim a.end_date [ none ↦ Unit {0} | some e ↦ a.start_date < e ]

module _ (c : Client) (tenant_id : ℕ) (s : Db) (x y : Assignment)
    (found : c.find_first (is_assignment c tenant_id x.id s) s.assignments ≡ some x) where
  proper_time : IsProper y → Until y.start_date y.end_date
  proper_time p = ground arith

  module _ (d : Driver) (key : y.driver_id ≢ 0) (driver : Listed d s.drivers)
      (own : is_own_driver tenant_id y.driver_id d ≡ true) (proper : IsProper y) where
    moved_ok :
        (r : Assignment)
        → c.find_first (has_assignment_id x.id) s.assignments ≡ some r
        → update c tenant_id x.id (as_in y) s ≡ (
          ok (with_update (as_in y) r),
          put_assignments
              (c.update (has_assignment_id x.id) (with_update (as_in y)) s.assignments)
              s,
        )
    unfolding update
    moved_ok r row =
        let (w, fd) =
          find_first-total c (is_own_driver tenant_id y.driver_id) s.drivers d driver own in
        ground arith

    -- `update` does not look for overlaps: moving an assignment of the tenant to the driver and the
    -- period of another one is accepted, and the driver then has two assignments at one instant.
    -- The driver must be one of the tenant, not deleted, and the other assignment's end, if it has
    -- one, after its start.
    pub update_overlaps :
        Listed y s.assignments
        → y.deleted_at ≡ none
        → x.id ≢ y.id
        → ((a : Assignment) × ((update c tenant_id x.id (as_in y) s).0 ≡ ok a))
          × ¬ Exclusive (update c tenant_id x.id (as_in y) s).1
    update_overlaps my live ne =
        let (mx, kx) = c.find_first-some _ _ x found in
        let (r, row) =
          find_first-total c (has_assignment_id x.id) s.assignments x mx (ground arith) in
        let e = moved_ok r row in
        let f = changed (has_assignment_id x.id) (with_update (as_in y)) in
        let nx =
          Listed-changed c (has_assignment_id x.id) (with_update (as_in y)) s.assignments x mx in
        let ny =
          Listed-changed c (has_assignment_id x.id) (with_update (as_in y)) s.assignments y my in
        let t = proper_time proper in
        rw e (
          (with_update (as_in y) r, refl),
          λ all.
              (all (f x) (f y) nx ny).apart (λ q. ne (ground arith)) (ground arith) (ground arith)
                (inr (ground arith)) y.start_date (ground arith) (ground arith) (ground arith)
                (ground arith),
        )

module _ (c : Client) (tenant_id id : ℕ) (dto : UpdateAssignmentDto) (s : Db) (a x : Assignment)
    (found : c.find_first (is_assignment c tenant_id id s) s.assignments ≡ some x)
    (row : c.find_first (has_assignment_id id) s.assignments ≡ some x)
    (done : (update c tenant_id id dto s).0 ≡ ok a) where
  updated_row : a ≡ with_update dto x
  unfolding update
  updated_row = ground arith

  updated-IsProper : IsProper (with_update dto x)
  unfolding update
  updated-IsProper = ground arith

  updated_vehicle :
      ((with_update dto x).vehicle_id ≡ x.vehicle_id)
      ⊎ ((v : Vehicle) × (c.find_first
              (is_own_vehicle tenant_id (with_update dto x).vehicle_id)
              s.vehicles
            ≡ some v))
  unfolding update
  updated_vehicle =
      elim (Option-cases
        (c.find_first (is_own_vehicle tenant_id (with_update dto x).vehicle_id) s.vehicles)) [
          | inl e ↦ inl (ground arith)
          | inr found ↦ inr found
        ]

  updated_driver :
      ((with_update dto x).driver_id ≡ x.driver_id)
      ⊎ ((d : Driver) × (c.find_first
              (is_own_driver tenant_id (with_update dto x).driver_id)
              s.drivers
            ≡ some d))
  unfolding update
  updated_driver =
      elim (Option-cases
        (c.find_first (is_own_driver tenant_id (with_update dto x).driver_id) s.drivers)) [
          | inl e ↦ inl (ground arith)
          | inr found ↦ inr found
        ]

  -- An accepted update returns the row with the given fields changed, with the end after the start
  -- where there is one, and a vehicle or driver that changed is one of the tenant and not deleted.
  -- The row must be the one that the key names.
  pub update_sound :
      (a ≡ with_update dto x)
      × IsProper a
      × ((a.vehicle_id ≡ x.vehicle_id)
          ⊎ ((v : Vehicle) × Listed v s.vehicles
              × (is_own_vehicle tenant_id a.vehicle_id v ≡ true)))
      × ((a.driver_id ≡ x.driver_id)
          ⊎ ((d : Driver) × Listed d s.drivers × (is_own_driver tenant_id a.driver_id d ≡ true)))
  update_sound = rw updated_row (
    refl,
    updated-IsProper,
    elim updated_vehicle [
      | inl e ↦ inl e
      | inr (v, e) ↦ let (m, k) = c.find_first-some _ _ v e in inr (v, m, k)
    ],
    elim updated_driver [
      | inl e ↦ inl e
      | inr (d, e) ↦ let (m, k) = c.find_first-some _ _ d e in inr (d, m, k)
    ],
  )
