-- ===== src/Assignments/Exclusive.antt =====
-- assignments.service.ts: `create` and `remove` against assignments that overlap.
use node_vms.Prelude.{
  ℕ, ◌≤◌, ◌≡◌, ◌≢◌, refl, sym, ap, ◌⊎◌, inl, inr, false, Option, none, some, arith, All, All-Listed,
  Listed, Option-cases,
}
use node_vms.Schema.{Assignment, Vehicle, Driver}
use node_vms.Database.Client.{Client}
use node_vms.Database.Errors.{ok}
use node_vms.Database.Action.{Db, put_assignments}
use node_vms.Database.Pairs.{Pairs, Pairs-insert, Pairs-update, changed}
use node_vms.Assignments.{
  CreateAssignmentDto, is_own_vehicle, is_own_driver, vehicle_overlap, driver_overlap,
  has_assignment_id, new_assignment, removed, create, remove,
}

-- An assignment counts its last instant; an open end is later than every instant.
abbrev pub Until : ℕ → Option ℕ → Type 0
Until t none = Unit {0}
Until t (some e) = t ≤ e

-- The two rows share no instant.
abbrev pub Disjoint : Assignment → Assignment → Type 0
Disjoint a b =
    (t : ℕ) → a.start_date ≤ t → Until t a.end_date → b.start_date ≤ t → Until t b.end_date → ⊥

-- Two rows of the assignment table: two that are not deleted and have the vehicle or the driver in
-- common share no instant.
pub record Exclude (a b : Assignment) : Type 0 where
  pub key : a.id ≡ b.id → a ≡ b
  pub apart :
      a.id ≢ b.id
      → a.deleted_at ≡ none
      → b.deleted_at ≡ none
      → (a.vehicle_id ≡ b.vehicle_id) ⊎ (a.driver_id ≡ b.driver_id)
      → Disjoint a b

abbrev pub Exclusive : Db → Type 0
Exclusive s = Pairs Exclude s.assignments

pub Exclude-of_eq : {a b : Assignment} → a ≡ b → Exclude a b
Exclude-of_eq e = record { key = λ _. e; apart = λ ne. absurd (ne (ap (λ x. x.id) e)) }

module _ (c : Client) (id tenant_id : ℕ) (dto : CreateAssignmentDto) (s : Db) where
  create_cases :
      ((create c id tenant_id dto s).1 ≡ s)
      ⊎ ((c.find_first (vehicle_overlap dto.vehicle_id dto.start_date dto.end_date) s.assignments
            ≡ none)
          × (c.find_first (driver_overlap dto.driver_id dto.start_date dto.end_date) s.assignments
              ≡ none)
          × ((create c id tenant_id dto s).1
              ≡ put_assignments (c.insert (new_assignment id dto) s.assignments) s))
  unfolding create
  create_cases = ground arith

  overlap-Disjoint :
      (a : Assignment)
      → vehicle_overlap dto.vehicle_id dto.start_date dto.end_date a ≡ false
      → driver_overlap dto.driver_id dto.start_date dto.end_date a ≡ false
      → a.deleted_at ≡ none
      → (a.vehicle_id ≡ dto.vehicle_id) ⊎ (a.driver_id ≡ dto.driver_id)
      → Disjoint a (new_assignment id dto)
  overlap-Disjoint a v d live same t p q r w = ground arith

  new-Exclude :
      (a : Assignment)
      → a.id ≢ id
      → vehicle_overlap dto.vehicle_id dto.start_date dto.end_date a ≡ false
      → driver_overlap dto.driver_id dto.start_date dto.end_date a ≡ false
      → Exclude a (new_assignment id dto) × Exclude (new_assignment id dto) a
  new-Exclude a ne v d = (
    record { key = λ e. absurd (ne e); apart = λ _ live _ same. overlap-Disjoint a v d live same },
    record {
      key = λ e. absurd (ne (sym e));
      apart = λ _ _ live same t p q r w.
          overlap-Disjoint a v d live (elim same [ inl e ↦ inl (sym e) | inr e ↦ inr (sym e) ]) t r
            w p q;
    },
  )

  -- If no vehicle and no driver has two assignments at one instant, creating an assignment under a
  -- fresh id, or being refused, gives none two.
  pub create-Exclusive :
      All (λ a. a.id ≢ id) s.assignments → Exclusive s → Exclusive (create c id tenant_id dto s).1
  create-Exclusive fresh h = elim create_cases [
    | inl e ↦ rw e h
    | inr (v, d, e) ↦ rw e (
        Pairs-insert c Exclude (new_assignment id dto) s.assignments (Exclude-of_eq refl)
          (λ a m.
            new-Exclude a (All-Listed _ s.assignments fresh m)
              (All-Listed _ s.assignments (c.find_first-none _ _ v) m)
              (All-Listed _ s.assignments (c.find_first-none _ _ d) m))
          h)
  ]

  -- An accepted assignment joins a vehicle and a driver of the tenant, neither of them deleted, and
  -- has the values of the request.
  pub create_sound :
      (a : Assignment)
      → (create c id tenant_id dto s).0 ≡ ok a
      → (v : Vehicle) × (d : Driver) × Listed v s.vehicles
        × (v.id ≡ a.vehicle_id)
        × (v.tenant_id ≡ tenant_id)
        × (v.deleted_at ≡ none)
        × Listed d s.drivers
        × (d.id ≡ a.driver_id)
        × (d.tenant_id ≡ tenant_id)
        × (d.deleted_at ≡ none)
        × (a ≡ new_assignment id dto)
  unfolding create
  create_sound a h =
      elim (Option-cases (c.find_first (is_own_vehicle tenant_id dto.vehicle_id) s.vehicles)) [
        | inl e ↦ absurd (ground arith)
        | inr (v, ev) ↦
            elim (Option-cases (c.find_first (is_own_driver tenant_id dto.driver_id) s.drivers)) [
              | inl e ↦ absurd (ground arith)
              | inr (d, ed) ↦
                  let (mv, kv) = c.find_first-some _ _ v ev in
                  let (md, kd) = c.find_first-some _ _ d ed in
                  let same : a ≡ new_assignment id dto = ground arith in
                  (
                    v,
                    d,
                    mv,
                    ground arith,
                    ground arith,
                    ground arith,
                    md,
                    ground arith,
                    ground arith,
                    ground arith,
                    same,
                  )
            ]
      ]

module _ (c : Client) (now tenant_id id : ℕ) (s : Db) where
  remove_cases :
      ((remove c now tenant_id id s).1 ≡ s)
      ⊎ ((remove c now tenant_id id s).1
          ≡ put_assignments (c.update (has_assignment_id id) (removed now) s.assignments) s)
  unfolding remove
  remove_cases = ground arith

  abbrev gone : Assignment → Assignment
  gone = changed (has_assignment_id id) (removed now)

  gone_fields : (a : Assignment) → ((gone a).id ≡ a.id) × ((gone a).deleted_at ≡ none → gone a ≡ a)
  gone_fields a = ground arith

  gone-Exclude : (a b : Assignment) → Exclude a b → Exclude (gone a) (gone b)
  gone-Exclude a b h =
      let (ia, la) = gone_fields a in
      let (ib, lb) = gone_fields b in
      record {
        key = λ e. ap gone (h.key (ground arith));
        apart = λ ne da db.
            let ea = la da in
            let eb = lb db in
            rw (ea, eb) (h.apart (λ e. ne (ground arith)) (rw ea at da) (rw eb at db));
      }

  -- If no vehicle and no driver has two assignments at one instant, removing an assignment, or being
  -- refused, gives none two.
  pub remove-Exclusive : Exclusive s → Exclusive (remove c now tenant_id id s).1
  remove-Exclusive h = elim remove_cases [
    | inl e ↦ rw e h
    | inr e ↦ rw e (
        Pairs-update c Exclude (has_assignment_id id) (removed now) s.assignments
          (λ a b _ _. gone-Exclude a b) h)
  ]
