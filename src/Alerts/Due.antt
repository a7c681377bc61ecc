-- ===== src/Alerts/Due.antt =====
-- alerts.service.ts: what a tenant is to be told of, and what a scan finds.
use node_vms.Prelude.{
  ℕ, ◌+◌, ◌*◌, ◌≤◌, ◌<◌, ◌≡◌, ◌≢◌, ◌↔◌, refl, ap, inl, inr, false, none, List, ◌++◌, map, length,
  All, All-mono, Listed, Listed-map_of, Listed-left, Listed-right, All-of_map, All-append,
  length-append, length-map, is_none-none, Bool-cases, true≢false, arith,
}
use node_vms.Schema.{
  Notice, Document, Contract, Vehicle, VehicleStatus, MaintenanceLog, is_inactive,
}
use node_vms.Database.Client.{Client}
use node_vms.Database.Action.{Db}
use node_vms.Database.Lookup.{find_first-none_iff}
use node_vms.Alerts.{
  day, recent_log, document_expires, contract_expires, needs_maintenance, document_notice,
  contract_notice, maintenance_notice, alert_data,
}

-- The date is from now to some days ahead.
abbrev pub Soon : ℕ → ℕ → ℕ → Type 0
Soon now days_ahead date = (now ≤ date) × (date ≤ now + days_ahead * day)

-- No log of the vehicle that is not deleted is from the last 90 days.
abbrev pub Unmaintained : ℕ → List MaintenanceLog → Vehicle → Type 0
Unmaintained now logs v =
    All (λ m. m.vehicle_id ≡ v.id → m.deleted_at ≡ none → m.date + 90 * day < now) logs

-- What the tenant is to be told of.
pub data Due (c : Client) (tenant_id now days_ahead : ℕ) (s : Db) : Notice → Type 0 where
  document :
      (d : Document)
      → Listed d s.documents
      → d.tenant_id ≡ tenant_id
      → d.deleted_at ≡ none
      → Soon now days_ahead d.expiry_date
      → Due c tenant_id now days_ahead s (document_notice c s d)
  contract :
      (k : Contract)
      → Listed k s.contracts
      → k.tenant_id ≡ tenant_id
      → k.deleted_at ≡ none
      → Soon now days_ahead k.end_date
      → Due c tenant_id now days_ahead s (contract_notice c k)
  upkeep :
      (v : Vehicle)
      → Listed v s.vehicles
      → v.tenant_id ≡ tenant_id
      → v.deleted_at ≡ none
      → v.status ≢ VehicleStatus.inactive
      → Unmaintained now s.maintenance_logs v
      → Due c tenant_id now days_ahead s (maintenance_notice c v)

is_inactive-false : (x : VehicleStatus) → is_inactive x ≡ false → x ≢ VehicleStatus.inactive
is_inactive-false x e i = absurd (true≢false (ap is_inactive i) e)

≢inactive : (x : VehicleStatus) → x ≢ VehicleStatus.inactive → is_inactive x ≡ false
≢inactive VehicleStatus.inactive h = absurd (h refl)
≢inactive _ h = refl

module _ (c : Client) (tenant_id now days_ahead : ℕ) (s : Db) where
  abbrev documents : List Document
  documents = c.find_many (document_expires tenant_id now days_ahead) s.documents

  abbrev contracts : List Contract
  contracts = c.find_many (contract_expires tenant_id now days_ahead) s.contracts

  abbrev vehicles : List Vehicle
  vehicles = c.find_many (needs_maintenance c tenant_id now s) s.vehicles

  abbrev pub notices : List Notice
  notices = alert_data c s documents contracts vehicles

  no_log :
      (v : Vehicle)
      → c.find_first (recent_log now v) s.maintenance_logs ≡ none
        ↔ Unmaintained now s.maintenance_logs v
  no_log v = (
    λ e.
        All-mono _ _ s.maintenance_logs (λ m miss own live. ground arith)
          ((find_first-none_iff c (recent_log now v) s.maintenance_logs).0 e),
    λ h. (find_first-none_iff c (recent_log now v) s.maintenance_logs).1 (
        All-mono _ _ s.maintenance_logs
          (λ m old. elim (Bool-cases (recent_log now v m)) [
            | inl e ↦ let late = old (ground arith) (ground arith) in absurd (ground arith)
            | inr e ↦ e
          ])
          h),
  )

  pub due-Listed : (n : Notice) → Due c tenant_id now days_ahead s n → Listed n notices
  due-Listed n (document d m own live (after, before)) =
      Listed-left n (map (document_notice c s) documents) _ (
        Listed-map_of (document_notice c s) documents d (
          c.find_many-complete (document_expires tenant_id now days_ahead) s.documents d m
            (ground arith)))
  due-Listed n (contract k m own live (after, before)) =
      Listed-right n (map (document_notice c s) documents) _ (
        Listed-left n (map (contract_notice c) contracts) _ (
          Listed-map_of (contract_notice c) contracts k (
            c.find_many-complete (contract_expires tenant_id now days_ahead) s.contracts k m
              (ground arith))))
  due-Listed n (upkeep v m own live on old) =
      let quiet = (no_log v).1 old in
      let running = ≢inactive v.status on in
      Listed-right n (map (document_notice c s) documents) _ (
        Listed-right n (map (contract_notice c) contracts) _ (
          Listed-map_of (maintenance_notice c) vehicles v (
            c.find_many-complete (needs_maintenance c tenant_id now s) s.vehicles v m
              (ground arith))))

  pub notices-Due : All (Due c tenant_id now days_ahead s) notices
  notices-Due =
      All-append _ (map (document_notice c s) documents) _
        (All-of_map _ (document_notice c s) documents (
          All-mono _ _ documents
            (λ d (m, hit). document d m (ground arith) (ground arith) (ground arith, ground arith))
            (c.find_many-sound (document_expires tenant_id now days_ahead) s.documents)))
        (All-append _ (map (contract_notice c) contracts) _
          (All-of_map _ (contract_notice c) contracts (
            All-mono _ _ contracts
              (λ k (m, hit).
                contract k m (ground arith) (ground arith) (ground arith, ground arith))
              (c.find_many-sound (contract_expires tenant_id now days_ahead) s.contracts)))
          (All-of_map _ (maintenance_notice c) vehicles (
            All-mono _ _ vehicles
              (λ v (m, hit).
                upkeep v m (ground arith) (ground arith) (is_inactive-false v.status (ground arith))
                  ((no_log v).0 (is_none-none _ (ground arith))))
              (c.find_many-sound (needs_maintenance c tenant_id now s) s.vehicles))))

pub length-notices :
    (c : Client) (tenant_id now days_ahead : ℕ) (s : Db)
    → length (notices c tenant_id now days_ahead s)
      ≡ length (documents c tenant_id now days_ahead s)
        + (length (contracts c tenant_id now days_ahead s)
            + length (vehicles c tenant_id now days_ahead s))
length-notices c tenant_id now days_ahead s =
    let ds = documents c tenant_id now days_ahead s in
    let ks = contracts c tenant_id now days_ahead s in
    let vs = vehicles c tenant_id now days_ahead s in
    let e1 =
      length-append (map (document_notice c s) ds)
        (map (contract_notice c) ks ++ map (maintenance_notice c) vs) in
    let e2 = length-append (map (contract_notice c) ks) (map (maintenance_notice c) vs) in
    let e3 = length-map (document_notice c s) ds in
    let e4 = length-map (contract_notice c) ks in
    let e5 = length-map (maintenance_notice c) vs in omega arith
