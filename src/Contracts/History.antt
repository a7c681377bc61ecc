-- ===== src/Contracts/History.antt =====
-- The contracts over time: requests to contracts.service.ts and the creation of vehicles by
-- vehicles.service.ts are served one after another, in any order, between writes of the other
-- components.
use node_vms.Prelude.{ℕ, ◌≡◌, ◌≢◌, refl, All, Listed, inl, inr}
use node_vms.Schema.{Vehicle}
use node_vms.Database.Client.{Client}
use node_vms.Database.Errors.{Result}
use node_vms.Database.Action.{Db}
use node_vms.Database.Lookup.{Listed-insert}
use node_vms.Database.Pairs.{Listed-inserted}
use node_vms.Vehicles.{CreateVehicleDto, new_vehicle, source_contract}
use node_vms.Vehicles.Sources.{Outcome, create-Outcome}
use node_vms.Vehicles as Fleet
use node_vms.Contracts.{CreateContractDto, UpdateContractDto, create, update, remove}
use node_vms.Contracts.Sound.{
  HasVehicle, ContractsSound, IsSound-Kept, with_vehicle-ContractsSound, create-ContractsSound,
}
use node_vms.Contracts.Edits.{update-ContractsSound, remove-ContractsSound}

-- One request, served to its end. The keys of new rows are fresh and not empty texts.
pub data Step (c : Client) (s s' : Db) : Type 0 where
  creates :
      (id vehicle_id tenant_id : ℕ) (dto : CreateContractDto)
      → vehicle_id ≢ 0
      → All (λ k. k.id ≢ id) s.contracts
      → s' ≡ (create c id vehicle_id tenant_id dto s).1
      → Step c s s'
  updates :
      (tenant_id id : ℕ) (dto : UpdateContractDto)
      → s' ≡ (update c tenant_id id dto s).1
      → Step c s s'
  removes : (now tenant_id id : ℕ) → s' ≡ (remove c now tenant_id id s).1 → Step c s s'
  buys :
      (id contract_id tenant_id : ℕ) (dto : CreateVehicleDto)
      → id ≢ 0
      → All (λ k. k.id ≢ contract_id) s.contracts
      → s' ≡ (Fleet.create c id contract_id tenant_id dto s).1
      → Step c s s'
  others :
      s'.contracts ≡ s.contracts
      → ((x : Vehicle) → Listed x s.vehicles → HasVehicle x.tenant_id x.id s')
      → ((x : Vehicle) → Listed x s'.vehicles → x.id ≢ 0)
      → Step c s s'

pub data Reach (c : Client) (s : Db) : Db → Type 0 where
  here : Reach c s s
  next : {t u : Db} → Reach c s t → Step c t u → Reach c s u

module _ (c : Client) (s : Db) (h : ContractsSound s) where
  others-ContractsSound :
      (s' : Db)
      → s'.contracts ≡ s.contracts
      → ((x : Vehicle) → Listed x s.vehicles → HasVehicle x.tenant_id x.id s')
      → ((x : Vehicle) → Listed x s'.vehicles → x.id ≢ 0)
      → ContractsSound s'
  others-ContractsSound s' e kept keys = record {
    sound = λ k m. IsSound-Kept c s h s' kept k (h.sound k (rw e at m));
    unique = rw e h.unique;
    keys = keys;
  }

  Outcome-ContractsSound :
      (id contract_id tenant_id : ℕ) (dto : CreateVehicleDto)
      → id ≢ 0
      → All (λ k. k.id ≢ contract_id) s.contracts
      → (r : Result Vehicle × Db) → Outcome c id contract_id tenant_id dto s r
      → ContractsSound r.1
  Outcome-ContractsSound id contract_id tenant_id dto ne fresh r (Outcome.refused e) = h
  Outcome-ContractsSound id contract_id tenant_id dto ne fresh r (Outcome.owned f v) =
      others-ContractsSound _ refl
        (λ x m. (x, Listed-insert c s.vehicles (new_vehicle id tenant_id dto) m, refl, refl))
        (λ x m. elim (Listed-inserted c s.vehicles x (new_vehicle id tenant_id dto) m) [
          | inl g ↦ rw g ne
          | inr n ↦ h.keys x n
        ])
  Outcome-ContractsSound id contract_id tenant_id dto ne fresh r (Outcome.sourced k f lt v) =
      with_vehicle-ContractsSound c s h (new_vehicle id tenant_id dto)
        (source_contract contract_id tenant_id id k) ne refl refl lt fresh

Step-ContractsSound : (c : Client) (s s' : Db) → Step c s s' → ContractsSound s → ContractsSound s'
Step-ContractsSound c s s' (Step.creates id vehicle_id tenant_id dto ne fresh e) h =
    rw e (create-ContractsSound c s h id vehicle_id tenant_id dto ne fresh)
Step-ContractsSound c s s' (Step.updates tenant_id id dto e) h =
    rw e (update-ContractsSound c s h tenant_id id dto)
Step-ContractsSound c s s' (Step.removes now tenant_id id e) h =
    rw e (remove-ContractsSound c s h tenant_id id now)
Step-ContractsSound c s s' (Step.buys id contract_id tenant_id dto ne fresh e) h = rw e (
    Outcome-ContractsSound c s h id contract_id tenant_id dto ne fresh _
      (create-Outcome c id contract_id tenant_id dto s))
Step-ContractsSound c s s' (Step.others e kept keys) h = others-ContractsSound c s h s' e kept keys

-- From tables in which every contract ends after it starts and names at most a vehicle of its own
-- tenant, with unique ids of contracts and no empty id of a vehicle, no history of requests to
-- create, change and remove contracts and to create vehicles reaches tables in which one does not:
-- new rows take fresh ids that are not empty, and other components leave the contracts alone and
-- keep each vehicle's id and tenant.
pub Reach-ContractsSound :
    (c : Client) {s s' : Db} → Reach c s s' → ContractsSound s → ContractsSound s'
Reach-ContractsSound c Reach.here h = h
Reach-ContractsSound c (Reach.next {t} {u} r st) h =
    Step-ContractsSound c t u st (Reach-ContractsSound c r h)
