-- ===== src/Contracts/Sound.antt =====
-- contracts.service.ts: the period and the vehicle of a contract.
use node_vms.Prelude.{
  ℕ, ◌<◌, ◌≡◌, ◌≢◌, refl, sym, ◌∙◌, ◌⊎◌, inl, inr, true, Option, none, some, arith, All, All-Listed,
  Listed, Option-cases, Bool-cases, ◌==◌, get_or, given,
}
use node_vms.Schema.{Vehicle, Contract}
use node_vms.Database.Client.{Client}
use node_vms.Database.Errors.{ok, err, Error, not_found, foreign_key_violation}
use node_vms.Database.Action.{Db, put_vehicles, put_contracts}
use node_vms.Database.Lookup.{Listed-insert, Listed-insert_self}
use node_vms.Database.Pairs.{Pairs, Pairs-insert, Listed-inserted}
use node_vms.EntityValidator.{is_tenant_vehicle, assert_registration_unique, assert_branch_exists}
use node_vms.Vehicles.{new_vehicle}
use node_vms.Vehicles.Plates.{create_row_outcome}
use node_vms.Contracts.{
  CreateContractDto, CreateContractVehicleDto, vehicle_dto, new_contract, new_source, check_vehicle,
  references_vehicle, create_with_vehicle, create_plain, create_for, create,
}

-- The tenant has the vehicle, deleted or not.
abbrev pub HasVehicle : ℕ → ℕ → Db → Type 0
HasVehicle tenant_id v s =
    (x : Vehicle) × Listed x s.vehicles × (x.id ≡ v) × (x.tenant_id ≡ tenant_id)

abbrev pub IsSound : Db → Contract → Type 0
IsSound s k =
    (k.start_date < k.end_date) × ((v : ℕ) → k.vehicle_id ≡ some v → HasVehicle k.tenant_id v s)

abbrev pub SameKey : Contract → Contract → Type 0
SameKey a b = a.id ≡ b.id → a ≡ b

-- Every contract ends after it starts, and the vehicle that it names is one of its tenant's. The
-- ids of contracts are unique, and those of vehicles are not empty texts.
pub record ContractsSound (s : Db) : Type 0 where
  pub sound : (k : Contract) → Listed k s.contracts → IsSound s k
  pub unique : Pairs SameKey s.contracts
  pub keys : (x : Vehicle) → Listed x s.vehicles → x.id ≢ 0

module _ (c : Client) (s : Db) where
  module _ (tenant_id : ℕ) (vehicle_id : Option ℕ) where
    pub check_vehicle_cases :
        ((e : Error) × (check_vehicle c tenant_id vehicle_id s ≡ (err e, s)))
        ⊎ ((check_vehicle c tenant_id vehicle_id s ≡ (ok tt, s))
            × (given vehicle_id ≡ true → HasVehicle tenant_id (get_or vehicle_id 0) s))
    unfolding check_vehicle
    check_vehicle_cases = elim (Bool-cases (given vehicle_id)) [
      | inr e ↦ inr (ground arith, λ f. cc)
      | inl e ↦
          elim (Option-cases
            (c.find_first (is_tenant_vehicle tenant_id (get_or vehicle_id 0)) s.vehicles)) [
              | inl f ↦ inl (not_found "Vehicle not found", ground arith)
              | inr (x, f) ↦
                  let (m, h) = c.find_first-some _ s.vehicles x f in
                  inr (ground arith, λ g. (x, m, ground arith, ground arith))
            ]
    ]

    pub references_vehicle_cases :
        ((e : Error) × (references_vehicle c vehicle_id s ≡ (err e, s)))
        ⊎ ((references_vehicle c vehicle_id s ≡ (ok tt, s))
            × ((v : ℕ) → vehicle_id ≡ some v → (x : Vehicle) × Listed x s.vehicles × (x.id ≡ v)))
    unfolding references_vehicle
    references_vehicle_cases = elim (Option-cases vehicle_id) [
      | inl e ↦ inr (ground arith, λ v f. ground arith)
      | inr (v, e) ↦
          elim (Option-cases (c.find_first (λ x. x.id == get_or vehicle_id 0) s.vehicles)) [
            | inl f ↦ inl (foreign_key_violation, ground arith)
            | inr (x, f) ↦
                let (m, h) =
                  c.find_first-some (λ (y : Vehicle). y.id == get_or vehicle_id 0) s.vehicles x f in
                inr (ground arith, λ w g. (x, m, ground arith))
          ]
    ]

    pub named_vehicle :
        ((x : Vehicle) → Listed x s.vehicles → x.id ≢ 0)
        → (given vehicle_id ≡ true → HasVehicle tenant_id (get_or vehicle_id 0) s)
        → ((v : ℕ) → vehicle_id ≡ some v → (x : Vehicle) × Listed x s.vehicles × (x.id ≡ v))
        → (v : ℕ) → vehicle_id ≡ some v
        → HasVehicle tenant_id v s
    named_vehicle keys own row v e =
        let (x, m, f) = row v e in
        let some_key = keys x m in let (y, n, g, h) = own (ground arith) in (y, n, ground arith, h)

module _ (c : Client) (s : Db) (h : ContractsSound s) where
  -- A contract stays sound while the vehicles stay.
  abbrev Kept : Db → Type 0
  Kept t = (x : Vehicle) → Listed x s.vehicles → HasVehicle x.tenant_id x.id t

  pub IsSound-Kept : (t : Db) → Kept t → (k : Contract) → IsSound s k → IsSound t k
  IsSound-Kept t kept k (lt, own) =
      (lt, λ v e. let (x, m, f, g) = own v e in let (y, n, p, q) = kept x m in (y, n, p ∙ f, q ∙ g))

  -- One more contract, perhaps with one more vehicle.
  inserted-ContractsSound :
      (t : Db) (k : Contract)
      → Kept t
      → ((x : Vehicle) → Listed x t.vehicles → x.id ≢ 0)
      → t.contracts ≡ c.insert k s.contracts
      → All (λ a. a.id ≢ k.id) s.contracts
      → IsSound t k
      → ContractsSound t
  inserted-ContractsSound t k kept keys e fresh new = record {
    sound = λ x m. elim (Listed-inserted c s.contracts x k (rw e at m)) [
      | inl f ↦ rw f new
      | inr n ↦ IsSound-Kept t kept x (h.sound x n)
    ];
    unique = rw e (
        Pairs-insert c SameKey k s.contracts (λ _. refl)
          (λ a m.
            let ne = All-Listed _ s.contracts fresh m in
            (λ g. absurd (ne g), λ g. absurd (ne (sym g))))
          h.unique);
    keys = keys;
  }

  -- A contract beside a vehicle that is created with it.
  pub with_vehicle-ContractsSound :
      (x : Vehicle) (k : Contract)
      → x.id ≢ 0
      → k.vehicle_id ≡ some x.id
      → k.tenant_id ≡ x.tenant_id
      → k.start_date < k.end_date
      → All (λ a. a.id ≢ k.id) s.contracts
      → ContractsSound
          (put_contracts (c.insert k s.contracts) (put_vehicles (c.insert x s.vehicles) s))
  with_vehicle-ContractsSound x k ne e same lt fresh =
      inserted-ContractsSound
        (put_contracts (c.insert k s.contracts) (put_vehicles (c.insert x s.vehicles) s)) k
        (λ y m. (y, Listed-insert c s.vehicles x m, refl, refl))
        (λ y m. elim (Listed-inserted c s.vehicles y x m) [ inl f ↦ rw f ne | inr n ↦ h.keys y n ])
        refl fresh (lt, λ v f. (x, Listed-insert_self c s.vehicles, ground arith, sym same))

  module _ (id vehicle_id tenant_id : ℕ) (dto : CreateContractDto) where
    abbrev plain : Db
    plain = put_contracts (c.insert (new_contract id tenant_id dto.vehicle_id dto) s.contracts) s

    create_plain_cases :
        ((create_plain c id tenant_id dto s).1 ≡ s)
        ⊎ (((v : ℕ) → dto.vehicle_id ≡ some v → HasVehicle tenant_id v s)
            × ((create_plain c id tenant_id dto s).1 ≡ plain))
    unfolding create_plain
    create_plain_cases = elim (check_vehicle_cases c s tenant_id dto.vehicle_id) [
      | inl (e, r) ↦ inl (ground arith)
      | inr (r, own) ↦ elim (references_vehicle_cases c s tenant_id dto.vehicle_id) [
        | inl (e, q) ↦ inl (ground arith)
        | inr (q, row) ↦
            inr (named_vehicle c s tenant_id dto.vehicle_id h.keys own row, ground arith)
      ]
    ]

    abbrev both : CreateContractVehicleDto → Db
    both input =
        put_contracts (c.insert (new_contract id tenant_id (some vehicle_id) dto) s.contracts) (
          put_vehicles (c.insert (new_vehicle vehicle_id tenant_id (vehicle_dto input)) s.vehicles)
            s)

    create_with_vehicle_cases :
        (input : CreateContractVehicleDto)
        → ((create_with_vehicle c id vehicle_id tenant_id dto input s).1 ≡ s)
          ⊎ ((create_with_vehicle c id vehicle_id tenant_id dto input s).1 ≡ both input)
    unfolding create_with_vehicle assert_registration_unique assert_branch_exists
    create_with_vehicle_cases input =
        elim (create_row_outcome c vehicle_id tenant_id (vehicle_dto input) s) [
          | inl (e, r) ↦ ground arith
          | inr r ↦ ground arith
        ]

    create_for-ContractsSound :
        (input : Option CreateContractVehicleDto)
        → vehicle_id ≢ 0
        → All (λ a. a.id ≢ id) s.contracts
        → dto.start_date < dto.end_date
        → ContractsSound (create_for c id vehicle_id tenant_id dto input s).1
    unfolding create_for
    create_for-ContractsSound none ne fresh lt = elim create_plain_cases [
      | inl e ↦ rw e h
      | inr (own, e) ↦ rw e (
          inserted-ContractsSound plain (new_contract id tenant_id dto.vehicle_id dto)
            (λ x m. (x, m, refl, refl)) h.keys refl fresh (lt, own))
    ]
    create_for-ContractsSound (some input) ne fresh lt = elim (create_with_vehicle_cases input) [
      | inl e ↦ rw e h
      | inr e ↦ rw e (
          with_vehicle-ContractsSound (new_vehicle vehicle_id tenant_id (vehicle_dto input))
            (new_contract id tenant_id (some vehicle_id) dto) ne refl refl lt fresh)
    ]

    create_cases :
        ((create c id vehicle_id tenant_id dto s).1 ≡ s)
        ⊎ ((dto.start_date < dto.end_date)
            × ((create c id vehicle_id tenant_id dto s).1
                ≡ (create_for c id vehicle_id tenant_id dto (new_source dto) s).1))
    unfolding create
    create_cases = ground arith

    pub create-ContractsSound :
        vehicle_id ≢ 0
        → All (λ a. a.id ≢ id) s.contracts
        → ContractsSound (create c id vehicle_id tenant_id dto s).1
    create-ContractsSound ne fresh = elim create_cases [
      | inl e ↦ rw e h
      | inr (lt, e) ↦ rw e (create_for-ContractsSound (new_source dto) ne fresh lt)
    ]
