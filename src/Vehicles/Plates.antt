-- ===== src/Vehicles/Plates.antt =====
-- vehicles.service.ts: the unique column.
use node_vms.Prelude.{
  ℕ, ◌≡◌, ◌≢◌, refl, sym, ap, ◌⊎◌, inl, inr, true, false, none, some, arith, All, All-Listed,
  Listed, Bool-cases, Option-cases, get_or, ◌==◌,
}
use node_vms.Schema.{Vehicle}
use node_vms.Database.Errors.{ok, err, Error, unique_violation, foreign_key_violation}
use node_vms.Database.Client.{Client}
use node_vms.Database.Action.{Db, put_vehicles}
use node_vms.Database.Pairs.{Pairs, Pairs-insert, Pairs-update, changed}
use node_vms.EntityValidator.{assert_registration_unique, assert_branch_exists}
use node_vms.Vehicles.{
  CreateVehicleDto, UpdateVehicleDto, SourceContractDto, new_vehicle, has_vehicle_key, edited,
  other_registration, create_row, create_sourced, create_by_contract, create, update_vehicle_row,
  update,
}

-- Two rows of the vehicle table, deleted or not.
pub record Distinct (a b : Vehicle) : Type 0 where
  pub key : a.id ≡ b.id → a ≡ b
  pub plate : a.id ≢ b.id → a.registration_no ≢ b.registration_no

abbrev pub DistinctVehicles : Db → Type 0
DistinctVehicles s = Pairs Distinct s.vehicles

Distinct-of_eq : {a b : Vehicle} → a ≡ b → Distinct a b
Distinct-of_eq e = record { key = λ _. e; plate = λ ne. absurd (ne (ap (λ x. x.id) e)) }

module _ (c : Client) (id tenant_id : ℕ) (dto : CreateVehicleDto) (s : Db) where
  abbrev pub Unused : Type 0
  Unused = c.find_first (λ v. v.registration_no == dto.registration_no) s.vehicles ≡ none

  pub create_row_cases :
      ((create_row c id tenant_id dto s).1 ≡ s)
      ⊎ (Unused
          × ((create_row c id tenant_id dto s).1
              ≡ put_vehicles (c.insert (new_vehicle id tenant_id dto) s.vehicles) s))
  unfolding create_row
  create_row_cases = ground arith

  pub create_row_outcome :
      ((e : Error) × (create_row c id tenant_id dto s ≡ (err e, s)))
      ⊎ (create_row c id tenant_id dto s ≡ (
        ok (new_vehicle id tenant_id dto),
        put_vehicles (c.insert (new_vehicle id tenant_id dto) s.vehicles) s,
      ))
  unfolding create_row
  create_row_outcome =
      elim (Option-cases
        (c.find_first (λ v. v.registration_no == dto.registration_no) s.vehicles)) [
          | inr (v, e) ↦ inl (unique_violation, ground arith)
          | inl e ↦ elim (Option-cases dto.branch_id) [
            | inl f ↦ inr (ground arith)
            | inr (b, f) ↦
                elim (Option-cases
                  (c.find_first (λ x. x.id == get_or dto.branch_id 0) s.branches)) [
                    | inl g ↦ inl (foreign_key_violation, ground arith)
                    | inr (x, g) ↦ inr (ground arith)
                  ]
          ]
        ]

  written-Distinct :
      Unused
      → All (λ v. v.id ≢ id) s.vehicles
      → DistinctVehicles s
      → Pairs Distinct (c.insert (new_vehicle id tenant_id dto) s.vehicles)
  written-Distinct unused fresh h =
      Pairs-insert c Distinct (new_vehicle id tenant_id dto) s.vehicles (Distinct-of_eq refl)
        (λ a m.
          let ne : a.id ≢ id = All-Listed _ s.vehicles fresh m in
          let other = All-Listed _ s.vehicles (c.find_first-none _ _ unused) m in
          (
            record { key = λ e. absurd (ne e); plate = λ _ e. ground arith },
            record { key = λ e. absurd (ne (sym e)); plate = λ _ e. ground arith },
          ))
        h

  create_row-Distinct :
      All (λ v. v.id ≢ id) s.vehicles
      → DistinctVehicles s
      → DistinctVehicles (create_row c id tenant_id dto s).1
  create_row-Distinct fresh h = elim create_row_cases [
    | inl e ↦ rw e h
    | inr (unused, e) ↦ rw e (written-Distinct unused fresh h)
  ]

  -- The vehicle table after the transaction is that before it or that after the insertion.
  create_sourced_vehicles :
      (contract_id : ℕ) (contract : SourceContractDto)
      → ((create_sourced c id contract_id tenant_id dto contract s).1.vehicles ≡ s.vehicles)
        ⊎ ((create_sourced c id contract_id tenant_id dto contract s).1.vehicles
            ≡ (create_row c id tenant_id dto s).1.vehicles)
  unfolding create_sourced
  create_sourced_vehicles contract_id contract = ground arith

  create_vehicles :
      (contract_id : ℕ)
      → ((create c id contract_id tenant_id dto s).1.vehicles ≡ s.vehicles)
        ⊎ ((create c id contract_id tenant_id dto s).1.vehicles
            ≡ (create_row c id tenant_id dto s).1.vehicles)
  unfolding create create_by_contract assert_registration_unique assert_branch_exists
  create_vehicles contract_id = elim (Option-cases dto.contract) [
    | inl e ↦ ground arith
    | inr (k, e) ↦ ground (arith, create_sourced_vehicles contract_id k)
  ]

  -- If no two vehicles have one registration number, creating a vehicle of either source type under
  -- a fresh id, or being refused, leaves none that do. Deleted vehicles count.
  pub create-DistinctVehicles :
      (contract_id : ℕ)
      → All (λ v. v.id ≢ id) s.vehicles
      → DistinctVehicles s
      → DistinctVehicles (create c id contract_id tenant_id dto s).1
  create-DistinctVehicles contract_id fresh h = elim (create_vehicles contract_id) [
    | inl e ↦ rw e h
    | inr e ↦ rw e (create_row-Distinct fresh h)
  ]

module _ (c : Client) (tenant_id id : ℕ) (dto : UpdateVehicleDto) (s : Db) where
  abbrev Available : Type 0
  Available =
      (r : ℕ)
      → dto.registration_no ≡ some r
      → c.find_first (other_registration id r) s.vehicles ≡ none

  update_row_cases :
      ((update_vehicle_row c id dto s).1 ≡ s)
      ⊎ (Available
          × ((update_vehicle_row c id dto s).1
              ≡ put_vehicles (c.update (has_vehicle_key id) (edited dto) s.vehicles) s))
  unfolding update_vehicle_row
  update_row_cases = elim (Option-cases dto.registration_no) [
    | inl e ↦ ground arith
    | inr (r, e) ↦ ground arith
  ]

  update_cases :
      ((update c tenant_id id dto s).1 ≡ s)
      ⊎ ((update c tenant_id id dto s).1 ≡ (update_vehicle_row c id dto s).1)
  unfolding update assert_registration_unique assert_branch_exists
  update_cases = ground arith

  abbrev after : Vehicle → Vehicle
  after = changed (has_vehicle_key id) (edited dto)

  -- The edited row beside another one.
  edited-Distinct :
      (a b : Vehicle)
      → has_vehicle_key id a ≡ true
      → has_vehicle_key id b ≡ false
      → ((r : ℕ) → dto.registration_no ≡ some r → other_registration id r b ≡ false)
      → Distinct a b
      → Distinct (edited dto a) b × Distinct b (edited dto a)
  edited-Distinct a b ka kb free h =
      let ne : a.id ≢ b.id = λ e. ground arith in
      let plates : get_or dto.registration_no a.registration_no ≢ b.registration_no =
        elim (Option-cases dto.registration_no) [
          | inl e ↦ let q = h.plate ne in ground arith
          | inr (k, e) ↦ let q = free k e in λ f. ground arith
        ] in
      (
        record { key = λ e. absurd (ne e); plate = λ _. plates },
        record { key = λ e. absurd (ne (sym e)); plate = λ _ e. plates (sym e) },
      )

  after-Distinct :
      Available
      → DistinctVehicles s
      → (a b : Vehicle) → Listed a s.vehicles
      → Listed b s.vehicles
      → Distinct (after a) (after b)
  after-Distinct free h a b m n =
      let unused =
        λ (x : Vehicle) (i : Listed x s.vehicles) (k : ℕ) (e : dto.registration_no ≡ some k).
          All-Listed _ s.vehicles (c.find_first-none _ _ (free k e)) i in
      elim (Bool-cases (has_vehicle_key id a)) [
        | inl x ↦ elim (Bool-cases (has_vehicle_key id b)) [
          | inl y ↦ Distinct-of_eq (ap after ((h a b m n).key (ground arith)))
          | inr y ↦ rw (x, y) (edited-Distinct a b x y (unused b n) (h a b m n)).0
        ]
        | inr x ↦ elim (Bool-cases (has_vehicle_key id b)) [
          | inl y ↦ rw (x, y) (edited-Distinct b a y x (unused a m) (h b a n m)).1
          | inr y ↦ rw (x, y) (h a b m n)
        ]
      ]

  -- If no two vehicles have one registration number, changing a vehicle, or being refused, leaves
  -- none that do.
  pub update-DistinctVehicles :
      DistinctVehicles s → DistinctVehicles (update c tenant_id id dto s).1
  update-DistinctVehicles h = elim update_cases [
    | inl e ↦ rw e h
    | inr e ↦ elim update_row_cases [
      | inl f ↦ rw (e, f) h
      | inr (free, f) ↦
          rw (e, f)
            (Pairs-update c Distinct (has_vehicle_key id) (edited dto) s.vehicles
              (λ a b m n _. after-Distinct free h a b m n) h)
    ]
  ]
