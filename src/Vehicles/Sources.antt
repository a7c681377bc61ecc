-- ===== src/Vehicles/Sources.antt =====
-- vehicles.service.ts: vehicles that come by contract.
use node_vms.Prelude.{
  ℕ, ◌<◌, ◌≡◌, refl, sym, ap, ◌∙◌, ◌⊎◌, inl, inr, true, false, none, some, arith, Listed,
  Option-cases, Bool-cases, get_or, leb, given, Option, if◌then◌else◌,
}
use node_vms.Schema.{Vehicle, Contract, Branch, VehicleSourceType, ContractType, is_contract}
use node_vms.Database.Client.{Client}
use node_vms.Database.Errors.{ok, err, Error, bad_request, not_found, conflict, Result}
use node_vms.Database.Action.{Db, put_vehicles, put_contracts}
use node_vms.Database.Lookup.{find_first-total, Listed-insert, Listed-insert_self}
use node_vms.Database.Pairs.{Listed-inserted}
use node_vms.EntityValidator.{
  registration_taken, is_branch, assert_registration_unique, assert_branch_exists,
}
use node_vms.Vehicles.Plates.{create_row_outcome}
use node_vms.Vehicles.{
  CreateVehicleDto, SourceContractDto, source_of, new_vehicle, source_contract, has_vehicle_key,
  create_row, create_sourced, create_by_contract, create,
}

-- The contract under which the vehicle came.
abbrev pub IsSourceOf : Vehicle → Contract → Type 0
IsSourceOf v k =
    (k.type ≡ ContractType.vehicle_source)
    × (k.vehicle_id ≡ some v.id)
    × (k.tenant_id ≡ v.tenant_id)
    × (k.start_date < k.end_date)

-- Every vehicle that comes by contract has a source contract, with a proper period.
abbrev pub Sourced : Db → Type 0
Sourced s =
    (v : Vehicle)
    → Listed v s.vehicles
    → v.source_type ≡ VehicleSourceType.contract
    → (k : Contract) × Listed k s.contracts × IsSourceOf v k

module _ (c : Client) (id contract_id tenant_id : ℕ) (dto : CreateVehicleDto) (s : Db) where
  abbrev pub with_vehicle : Db
  with_vehicle = put_vehicles (c.insert (new_vehicle id tenant_id dto) s.vehicles) s

  abbrev pub with_both : SourceContractDto → Db
  with_both k =
      put_contracts (c.insert (source_contract contract_id tenant_id id k) s.contracts) with_vehicle

  found_again :
      (k : SourceContractDto)
      → (v : Vehicle) × (c.find_first (has_vehicle_key id) (with_both k).vehicles ≡ some v)
  found_again k =
      find_first-total c (has_vehicle_key id) (c.insert (new_vehicle id tenant_id dto) s.vehicles)
        (new_vehicle id tenant_id dto) (Listed-insert_self c s.vehicles) (ground arith)

  create_sourced_cases :
      (k : SourceContractDto)
      → ((e : Error) × (create_sourced c id contract_id tenant_id dto k s ≡ (err e, s)))
        ⊎ (create_sourced c id contract_id tenant_id dto k s
            ≡ (ok (new_vehicle id tenant_id dto), with_both k))
  unfolding create_sourced
  create_sourced_cases k = elim (create_row_outcome c id tenant_id dto s) [
    | inl (e, r) ↦ inl (e, ground arith)
    | inr r ↦ inr (ground arith)
  ]

  create_by_contract_cases :
      ((e : Error) × (create_by_contract c id contract_id tenant_id dto s ≡ (err e, s)))
      ⊎ ((k : SourceContractDto) × (dto.contract ≡ some k)
          × (k.start_date < k.end_date)
          × (v : Vehicle) × (create_by_contract c id contract_id tenant_id dto s
              ≡ (ok v, with_both k)))
  unfolding create_by_contract
  create_by_contract_cases = elim (Option-cases dto.contract) [
    | inl e ↦ inl (bad_request "contract is required when sourceType is CONTRACT", ground arith)
    | inr (k, e) ↦ elim (Bool-cases (leb k.end_date k.start_date)) [
      | inl f ↦ inl (bad_request "endDate must be after startDate", ground arith)
      | inr f ↦ elim (create_sourced_cases k) [
        | inl (x, r) ↦ inl (x, ground arith)
        | inr r ↦ let (v, again) = found_again k in inr (k, e, ground arith, v, ground arith)
      ]
    ]
  ]

  plate_check :
      ((e : Error) × (assert_registration_unique c dto.registration_no none s ≡ (err e, s)))
      ⊎ (assert_registration_unique c dto.registration_no none s ≡ (ok tt, s))
  unfolding assert_registration_unique
  plate_check =
      elim (Option-cases (c.find_first (registration_taken dto.registration_no none) s.vehicles)) [
        | inl e ↦ inr (ground arith)
        | inr (v, e) ↦ inl (conflict "Registration number is already in use", ground arith)
      ]

  branch_check :
      ((e : Error) × (assert_branch_exists c tenant_id dto.branch_id s ≡ (err e, s)))
      ⊎ ((b : Option Branch) × (assert_branch_exists c tenant_id dto.branch_id s ≡ (ok b, s)))
  unfolding assert_branch_exists
  branch_check = elim (Bool-cases (given dto.branch_id)) [
    | inr e ↦ inr (none, ground arith)
    | inl e ↦
        elim (Option-cases
          (c.find_first (is_branch tenant_id (get_or dto.branch_id 0)) s.branches)) [
            | inl f ↦
                inl (
                  not_found "Branch not found or does not belong to your organization",
                  ground arith,
                )
            | inr (b, f) ↦ inr (some b, ground arith)
          ]
  ]

  create_cases :
      ((e : Error) × (create c id contract_id tenant_id dto s ≡ (err e, s)))
      ⊎ (create c id contract_id tenant_id dto s ≡ (
          if is_contract (source_of dto)
          then create_by_contract c id contract_id tenant_id dto s
          else create_row c id tenant_id dto s))
  unfolding create
  create_cases = elim plate_check [
    | inl (e, r) ↦ inl (e, ground arith)
    | inr r ↦ elim branch_check [
      | inl (e, q) ↦ inl (e, ground arith)
      | inr (b, q) ↦ inr (ground arith)
    ]
  ]

  -- What `create` comes to: a refusal, an owned vehicle, or a vehicle with its contract.
  pub data Outcome : Result Vehicle × Db → Type 0 where
    refused : (e : Error) → Outcome (err e, s)
    owned : is_contract (source_of dto) ≡ false → (v : Vehicle) → Outcome (ok v, with_vehicle)
    sourced :
        (k : SourceContractDto)
        → dto.contract ≡ some k
        → k.start_date < k.end_date
        → (v : Vehicle) → Outcome (ok v, with_both k)

  pub create-Outcome : Outcome (create c id contract_id tenant_id dto s)
  create-Outcome = elim create_cases [
    | inl (e, r) ↦ rw r (refused e)
    | inr r ↦ elim (Bool-cases (is_contract (source_of dto))) [
      | inl f ↦ elim create_by_contract_cases [
        | inl (e, q) ↦ rw (r, f, q) (refused e)
        | inr (k, g, lt, v, q) ↦ rw (r, f, q) (sourced k g lt v)
      ]
      | inr f ↦ elim (create_row_outcome c id tenant_id dto s) [
        | inl (e, q) ↦ rw (r, f, q) (refused e)
        | inr q ↦ rw (r, f, q) (owned f (new_vehicle id tenant_id dto))
      ]
    ]
  ]

  -- A vehicle that comes by contract is created with its contract or not at all: the request is
  -- refused and every table stays as it was, or it names a contract whose end is after its start,
  -- and the tables gain exactly the vehicle and that contract, which points to it.
  pub create_all_or_nothing :
      is_contract (source_of dto) ≡ true
      → ((e : Error) × (create c id contract_id tenant_id dto s ≡ (err e, s)))
        ⊎ ((k : SourceContractDto) × (dto.contract ≡ some k)
            × (k.start_date < k.end_date)
            × (v : Vehicle) × (create c id contract_id tenant_id dto s ≡ (ok v, with_both k)))
  create_all_or_nothing f = elim create_cases [
    | inl x ↦ inl x
    | inr r ↦ elim create_by_contract_cases [
      | inl (e, q) ↦ inl (e, rw (r, f) q)
      | inr (k, g, lt, v, q) ↦ inr (k, g, lt, v, rw (r, f) q)
    ]
  ]

  -- The sources of the vehicles that were there already.
  old-Sourced :
      (k : SourceContractDto) (v : Vehicle)
      → (x : Contract) × Listed x s.contracts × IsSourceOf v x
      → (x : Contract) × Listed x (with_both k).contracts × IsSourceOf v x
  old-Sourced k v (x, m, h) =
      (x, Listed-insert c s.contracts (source_contract contract_id tenant_id id k) m, h)

  Outcome-Sourced : Sourced s → (r : Result Vehicle × Db) → Outcome r → Sourced r.1
  Outcome-Sourced h r (refused e) = h
  Outcome-Sourced h r (owned f v) = λ x m e.
      elim (Listed-inserted c s.vehicles x (new_vehicle id tenant_id dto) m) [
        | inl g ↦
            let kind : source_of dto ≡ VehicleSourceType.contract =
              sym (ap (λ y. y.source_type) g) ∙ e in
            ground arith
        | inr n ↦ h x n e
      ]
  Outcome-Sourced h r (sourced k f lt v) = λ x m e.
      elim (Listed-inserted c s.vehicles x (new_vehicle id tenant_id dto) m) [
        | inl g ↦ (
          source_contract contract_id tenant_id id k,
          Listed-insert_self c s.contracts,
          rw g (refl, refl, refl, lt),
        )
        | inr n ↦ old-Sourced k x (h x n e)
      ]

  -- If every vehicle that comes by contract has a source contract of its tenant whose end is after
  -- its start, creating a vehicle of either source type, or being refused, leaves none without.
  pub create-Sourced : Sourced s → Sourced (create c id contract_id tenant_id dto s).1
  create-Sourced h = Outcome-Sourced h (create c id contract_id tenant_id dto s) create-Outcome
