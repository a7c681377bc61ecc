-- ===== src/Contracts/Edits.antt =====
-- contracts.service.ts: `update` and `remove` against the period and the vehicle of a contract.
use node_vms.Prelude.{
  ℕ, ◌<◌, ◌≡◌, refl, sym, ap, ◌∙◌, Bool-cases, ◌⊎◌, inl, inr, true, none, some, arith, Listed,
  Option-cases, get_or, leb, given,
}
use node_vms.Schema.{Contract, Vehicle}
use node_vms.Database.Client.{Client}
use node_vms.Database.Errors.{ok, err, Error}
use node_vms.Database.Action.{Db, put_contracts}
use node_vms.Database.Pairs.{Pairs-update, changed, Listed-update_elim}
use node_vms.Contracts.{
  UpdateContractDto, edited, has_contract_key, is_tenant_contract, check_vehicle,
  update_contract_row, update, remove,
}
use node_vms.Contracts.Sound.{
  HasVehicle, IsSound, ContractsSound, SameKey, check_vehicle_cases, references_vehicle_cases,
  named_vehicle,
}

module _ (c : Client) (s : Db) (h : ContractsSound s) (tenant_id id : ℕ) where
  changed_id :
      (f : Contract → Contract)
      → ((k : Contract) → (f k).id ≡ k.id)
      → (k : Contract) → (changed (has_contract_key id) f k).id ≡ k.id
  changed_id f same k = ground (arith, same k)

  -- A write to the rows with the id.
  changed-ContractsSound :
      (f : Contract → Contract)
      → ((k : Contract) → (f k).id ≡ k.id)
      → ((k : Contract) → Listed k s.contracts → has_contract_key id k ≡ true → IsSound s (f k))
      → ContractsSound (put_contracts (c.update (has_contract_key id) f s.contracts) s)
  changed-ContractsSound f same new = record {
    sound =
        Listed-update_elim c (IsSound s) (has_contract_key id) f s.contracts new
          (λ k m e. h.sound k m);
    unique =
        Pairs-update c SameKey (has_contract_key id) f s.contracts
          (λ a b m n g e.
            ap (changed (has_contract_key id) f)
              (g (sym (changed_id f same a) ∙ e ∙ changed_id f same b)))
          h.unique;
    keys = h.keys;
  }

  module _ (dto : UpdateContractDto) where
    abbrev written : ℕ → ℕ → Db
    written start end_ =
        put_contracts (c.update (has_contract_key id) (edited start end_ dto) s.contracts) s

    update_row_cases :
        (start end_ : ℕ)
        → ((update_contract_row c id start end_ dto s).1 ≡ s)
          ⊎ (((v : ℕ) → dto.vehicle_id ≡ some v → (x : Vehicle) × Listed x s.vehicles × (x.id ≡ v))
              × ((update_contract_row c id start end_ dto s).1 ≡ written start end_))
    unfolding update_contract_row
    update_row_cases start end_ = elim (references_vehicle_cases c s tenant_id dto.vehicle_id) [
      | inl (e, r) ↦ inl (ground arith)
      | inr (r, row) ↦ elim (Option-cases (c.find_first (has_contract_key id) s.contracts)) [
        | inl f ↦ inl (ground arith)
        | inr (k, f) ↦ inr (row, ground arith)
      ]
    ]

    update_checked :
        (k : Contract)
        → c.find_first (is_tenant_contract tenant_id id) s.contracts ≡ some k
        → get_or dto.start_date k.start_date < get_or dto.end_date k.end_date
        → check_vehicle c tenant_id dto.vehicle_id s ≡ (ok tt, s)
        → (update c tenant_id id dto s).1
          ≡ (update_contract_row c id
              (get_or dto.start_date k.start_date)
              (get_or dto.end_date k.end_date)
              dto
              s).1
    unfolding update
    update_checked k e lt r = ground arith

    update_refused :
        (e : Error)
        → check_vehicle c tenant_id dto.vehicle_id s ≡ (err e, s)
        → (update c tenant_id id dto s).1 ≡ s
    unfolding update
    update_refused e r = ground arith

    update_early :
        (k : Contract)
        → c.find_first (is_tenant_contract tenant_id id) s.contracts ≡ some k
        → leb (get_or dto.end_date k.end_date) (get_or dto.start_date k.start_date) ≡ true
        → (update c tenant_id id dto s).1 ≡ s
    unfolding update
    update_early k e f = ground arith

    update_unknown :
        c.find_first (is_tenant_contract tenant_id id) s.contracts ≡ none
        → (update c tenant_id id dto s).1 ≡ s
    unfolding update
    update_unknown e = ground arith

    -- The edited contract, which is the one that was found.
    edited-IsSound :
        (k : Contract)
        → c.find_first (is_tenant_contract tenant_id id) s.contracts ≡ some k
        → get_or dto.start_date k.start_date < get_or dto.end_date k.end_date
        → ((v : ℕ) → dto.vehicle_id ≡ some v → HasVehicle tenant_id v s)
        → (x : Contract) → Listed x s.contracts
        → has_contract_key id x ≡ true
        → IsSound s
            (edited (get_or dto.start_date k.start_date) (get_or dto.end_date k.end_date) dto x)
    edited-IsSound k e lt own x m g =
        let (n, hit) = c.find_first-some (is_tenant_contract tenant_id id) s.contracts k e in
        let same : x ≡ k = h.unique x k m n (ground arith) in
        let tenant : k.tenant_id ≡ tenant_id = ground arith in
        (
          lt,
          λ v f. elim (Option-cases dto.vehicle_id) [
            | inl a ↦ (h.sound x m).1 v (ground arith)
            | inr (w, a) ↦ let (y, l, p, q) = own w a in (y, l, ground arith, ground arith)
          ],
        )

    update_passes :
        (k : Contract)
        → c.find_first (is_tenant_contract tenant_id id) s.contracts ≡ some k
        → get_or dto.start_date k.start_date < get_or dto.end_date k.end_date
        → check_vehicle c tenant_id dto.vehicle_id s ≡ (ok tt, s)
        → (given dto.vehicle_id ≡ true → HasVehicle tenant_id (get_or dto.vehicle_id 0) s)
        → ContractsSound (update c tenant_id id dto s).1
    update_passes k e lt r own =
        elim (update_row_cases (get_or dto.start_date k.start_date)
          (get_or dto.end_date k.end_date)) [
            | inl q ↦ rw (update_checked k e lt r, q) h
            | inr (row, q) ↦
                rw (update_checked k e lt r, q)
                  (changed-ContractsSound
                    (edited (get_or dto.start_date k.start_date) (get_or dto.end_date k.end_date)
                      dto)
                    (λ x. refl)
                    (edited-IsSound k e lt
                      (named_vehicle c s tenant_id dto.vehicle_id h.keys own row)))
          ]

    pub update-ContractsSound : ContractsSound (update c tenant_id id dto s).1
    update-ContractsSound =
        elim (Option-cases (c.find_first (is_tenant_contract tenant_id id) s.contracts)) [
          | inl e ↦ rw (update_unknown e) h
          | inr (k, e) ↦
              elim (Bool-cases
                (leb (get_or dto.end_date k.end_date) (get_or dto.start_date k.start_date))) [
                  | inl f ↦ rw (update_early k e f) h
                  | inr f ↦ elim (check_vehicle_cases c s tenant_id dto.vehicle_id) [
                    | inl (x, r) ↦ rw (update_refused x r) h
                    | inr (r, own) ↦ update_passes k e (ground arith) r own
                  ]
                ]
        ]

  module _ (now : ℕ) where
    remove_cases :
        ((remove c now tenant_id id s).1 ≡ s)
        ⊎ ((remove c now tenant_id id s).1
            ≡ put_contracts
                (c.update
                  (has_contract_key id)
                  (λ k. record k { deleted_at = some now })
                  s.contracts)
                s)
    unfolding remove
    remove_cases = ground arith

    pub remove-ContractsSound : ContractsSound (remove c now tenant_id id s).1
    remove-ContractsSound = elim remove_cases [
      | inl e ↦ rw e h
      | inr e ↦ rw e (
          changed-ContractsSound (λ k. record k { deleted_at = some now }) (λ k. refl)
            (λ k m g. h.sound k m))
    ]
