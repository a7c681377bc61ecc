-- ===== src/Alerts.antt =====
-- src/alerts/alerts.service.ts, with its DTOs, and the daily job of src/jobs/jobs.service.ts. `now` is
-- the clock in milliseconds, a day being always as long as the others, and `key` gives the keys of
-- the new rows. The default of a scan is 30 days.
pub mod Due
pub mod Scan
pub mod Daily
use node_vms.Prelude.{
  ℕ, ◌+◌, ◌*◌, ◌-◌, Bool, true, false, ◌&&◌, not, Option, none, some, List, [], ◌∷◌, ◌++◌, map,
  length, ◌==◌, leb, is_none,
}
use node_vms.Schema.{
  Alert, Notice, AlertStatus, alert_status_eq, Document, Contract, Vehicle, is_inactive,
  MaintenanceLog, Tenant,
}
use node_vms.Database.Client.{Client}
use node_vms.Database.Errors.{not_found, ok}
use node_vms.Database.Action.{
  Db, Action, pure, or_throw, modify, ◌>>=◌, ◌>>◌, find_first, find_many, update_row, put_alerts,
}

pub record ScanSummary : Type 0 where
  pub document_expiry : ℕ
  pub contract_expiry : ℕ
  pub maintenance_due : ℕ

pub record ScanResult : Type 0 where
  pub created : ℕ
  pub summary : ScanSummary

abbrev pub day : ℕ
day = 86400000

abbrev pub is_tenant_alert : ℕ → ℕ → Alert → Bool
is_tenant_alert tenant_id id a = a.id == id && (a.tenant_id == tenant_id && is_none a.deleted_at)

abbrev pub has_alert_key : ℕ → Alert → Bool
has_alert_key id a = a.id == id

-- `...(status && { status })`
abbrev pub has_status : Option AlertStatus → Alert → Bool
has_status none a = true
has_status (some status) a = alert_status_eq a.status status

-- `{ gte: now, lte: expiryThreshold }`
abbrev pub expires_soon : ℕ → ℕ → ℕ → Bool
expires_soon now days_ahead date = leb now date && leb date (now + days_ahead * day)

abbrev pub document_expires : ℕ → ℕ → ℕ → Document → Bool
document_expires tenant_id now days_ahead d =
    d.tenant_id == tenant_id && (is_none d.deleted_at && expires_soon now days_ahead d.expiry_date)

abbrev pub contract_expires : ℕ → ℕ → ℕ → Contract → Bool
contract_expires tenant_id now days_ahead k =
    k.tenant_id == tenant_id && (is_none k.deleted_at && expires_soon now days_ahead k.end_date)

-- `{ isActive: true, deletedAt: null }`
abbrev pub is_served : Tenant → Bool
is_served t = t.is_active && is_none t.deleted_at

-- A log of the vehicle from the last 90 days. No date is before 1970.
abbrev pub recent_log : ℕ → Vehicle → MaintenanceLog → Bool
recent_log now v m = m.vehicle_id == v.id && (leb (now - 90 * day) m.date && is_none m.deleted_at)

module _ (c : Client) where
  abbrev pub needs_maintenance : ℕ → ℕ → Db → Vehicle → Bool
  needs_maintenance tenant_id now s v =
      v.tenant_id == tenant_id
      && (is_none v.deleted_at
          && (not (is_inactive v.status)
              && is_none (c.find_first (recent_log now v) s.maintenance_logs)))

  abbrev pub registration_of : Db → ℕ → Option ℕ
  registration_of s vehicle_id = elim (c.find_first (λ v. v.id == vehicle_id) s.vehicles) [
    | none ↦ none
    | some v ↦ some v.registration_no
  ]

  abbrev pub document_notice : Db → Document → Notice
  document_notice s d = Notice.document_expiry d.type (registration_of s d.vehicle_id) d.expiry_date

  abbrev pub contract_notice : Contract → Notice
  contract_notice k = Notice.contract_expiry k.type k.end_date

  abbrev pub maintenance_notice : Vehicle → Notice
  maintenance_notice v = Notice.maintenance_due v.registration_no

  -- `alertData`, by the three queries.
  abbrev pub alert_data : Db → List Document → List Contract → List Vehicle → List Notice
  alert_data s documents contracts vehicles =
      map (document_notice s) documents
      ++ (map contract_notice contracts ++ map maintenance_notice vehicles)

  abbrev pub new_alert : ℕ → ℕ → Notice → Alert
  new_alert id tenant_id notice = record {
    id = id;
    tenant_id = tenant_id;
    notice = notice;
    status = AlertStatus.unread;
    deleted_at = none;
  }

  -- `alert.createMany`
  abbrev pub create_alerts : (ℕ → ℕ) → ℕ → List Notice → List Alert → List Alert
  create_alerts key tenant_id [] t = t
  create_alerts key tenant_id (n ∷ ns) t =
      c.insert (new_alert (key (length ns)) tenant_id n) (create_alerts key tenant_id ns t)

  unfoldable pub scan : (ℕ → ℕ) → ℕ → ℕ → ℕ → Action ScanResult
  scan key now tenant_id days_ahead = do
    documents ← find_many c (λ s. s.documents) (document_expires tenant_id now days_ahead)
    contracts ← find_many c (λ s. s.contracts) (contract_expires tenant_id now days_ahead)
    vehicles ← λ s. find_many c (λ t. t.vehicles) (needs_maintenance tenant_id now s) s
    modify (λ s.
        put_alerts
          (create_alerts key tenant_id (alert_data s documents contracts vehicles) s.alerts) s)
    pure (record {
      created = length documents + (length contracts + length vehicles);
      summary = record {
        document_expiry = length documents;
        contract_expiry = length contracts;
        maintenance_due = length vehicles;
      };
    })

  pub find_all : ℕ → Option AlertStatus → Action (List Alert)
  find_all tenant_id status =
      find_many c (λ s. s.alerts)
        (λ a. a.tenant_id == tenant_id && (is_none a.deleted_at && has_status status a))

  unfoldable pub update_status : ℕ → ℕ → AlertStatus → Action Alert
  update_status tenant_id alert_id status = do
    found ← find_first c (λ s. s.alerts) (is_tenant_alert tenant_id alert_id)
    alert ← or_throw found (not_found "Alert not found")
    update_row c (λ s. s.alerts) put_alerts (has_alert_key alert_id)
        (λ a. record a { status = status })

  pub mark_read : ℕ → ℕ → Action Alert
  mark_read tenant_id alert_id = update_status tenant_id alert_id AlertStatus.read

  pub dismiss : ℕ → ℕ → Action Alert
  dismiss tenant_id alert_id = update_status tenant_id alert_id AlertStatus.dismissed

  -- The loop of `runDailyAlertsScan`: an exception of one scan does not stop the others.
  unfoldable pub scan_all : (ℕ → ℕ → ℕ) → ℕ → List Tenant → Action (Unit {0})
  scan_all key now [] s = (ok tt, s)
  scan_all key now (t ∷ ts) s = scan_all key now ts (scan (key t.id) now t.id 30 s).1

  unfoldable pub run_daily_alerts_scan : (ℕ → ℕ → ℕ) → ℕ → Action (Unit {0})
  run_daily_alerts_scan key now = do
    tenants ← find_many c (λ s. s.tenants) is_served
    scan_all key now tenants
