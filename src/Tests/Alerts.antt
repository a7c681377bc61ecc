-- ===== src/Tests/Alerts.antt =====
-- alerts.service.ts and the daily job on example tables.
use node_vms.Prelude.{ℕ, ◌+◌, ◌*◌, ◌≡◌, refl, ◌⊎◌, none, [], ◌∷◌, true, All, Listed, arith}
use mathlib.Core.List.{Memᴰ}
use node_vms.Schema.{Document}
use node_vms.Database.Lists.{lists}
use node_vms.Database.Errors.{ok}
use node_vms.Database.Action.{Db}
use node_vms.Alerts.{day, document_notice, new_alert, run_daily_alerts_scan}
use node_vms.Alerts.Due.{Due}
use node_vms.Alerts.Daily.{Justified, run_daily_alerts_scan-raises, run_daily_alerts_scan-Justified}
use node_vms.Tests.Data.{acme, fleet}

abbrev insurance : Document
insurance = record {
  id = 95;
  tenant_id = 7;
  vehicle_id = 1;
  type = 17;
  expiry_date = 100 + 3 * day;
  deleted_at = none;
}

abbrev depot : Db
depot = record fleet { tenants = acme true ∷ []; documents = insurance ∷ [] }

abbrev keys : ℕ → ℕ → ℕ
keys tenant_id i = 200 + i

run_daily_alerts_scan-raises_example :
    ((run_daily_alerts_scan lists keys 100 depot).0 ≡ ok tt)
    × (id : ℕ) × Listed
        (new_alert lists id 7 (document_notice lists depot insurance))
        (run_daily_alerts_scan lists keys 100 depot).1.alerts
run_daily_alerts_scan-raises_example =
    run_daily_alerts_scan-raises lists keys 100 depot (acme true) (Memᴰ.head refl) refl refl
      (document_notice lists depot insurance)
      (Due.document insurance (Memᴰ.head refl) refl refl (omega arith, omega arith))

run_daily_alerts_scan-Justified_example :
    All (λ a. Listed a (run_daily_alerts_scan lists keys 100 depot).1.alerts) depot.alerts
    × All
        (λ a. Listed a depot.alerts ⊎ Justified lists 100 depot a)
        (run_daily_alerts_scan lists keys 100 depot).1.alerts
run_daily_alerts_scan-Justified_example = run_daily_alerts_scan-Justified lists keys 100 depot
