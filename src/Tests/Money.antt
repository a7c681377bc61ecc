-- ===== src/Tests/Money.antt =====
-- accounting.service.ts and reports.service.ts on example books.
use node_vms.Prelude.{
  ◌≡◌, ◌≤◌, refl, none, some, [], ◌∷◌, All, ◌&&◌, ◌==◌, sum_of, total_of, count_of, Keyed, arith,
}
use node_vms.Prelude.Int.{◌+ℤ◌, negsuc, ◌-ℤ◌}
use mathlib.Core.List.{List, Memᴰ}
use node_vms.Schema.{FuelLog, Expense, Income}
use node_vms.Database.Lists.{lists}
use node_vms.Database.GroupLists.{list_groups}
use node_vms.Database.Errors.{ok}
use node_vms.Database.Action.{Db}
use node_vms.Accounting.{ProfitLoss, get_profit_loss}
use node_vms.Accounting.Ledger.{sum_ℤ, ledger, profit_is_ledger_sum}
use node_vms.Accounting.Periods.{period, profit_is_additive}
use node_vms.Reports.{
  ReportQueryDto, MileageRow, UsageRow, trip_reported, get_mileage_report, get_vehicle_usage_report,
}
use node_vms.Reports.Mileage.{mileage_adds_up}
use node_vms.Reports.Usage.{all_vehicles, usage_within_accounts, usage_agrees_with_accounts}
use node_vms.Tests.Data.{fleet, run, past_run}

abbrev rent : Income
rent = record {
  id = 61;
  tenant_id = 7;
  source = 1;
  amount = 100;
  created_at = 12;
  deleted_at = none;
}

abbrev wages : Expense
wages = record {
  id = 62;
  tenant_id = 7;
  type = 1;
  amount = 400;
  note = none;
  created_at = 30;
  deleted_at = none;
}

abbrev petrol : FuelLog
petrol = record {
  id = 63;
  tenant_id = 7;
  vehicle_id = 1;
  liters = 20;
  cost = 70;
  odometer = 1000;
  date = 14;
  deleted_at = none;
}

-- Vehicle 1 has driven 50 and vehicle 2 is on its way.
abbrev books : Db
books = record fleet {
  trips =
      record run { income = 90; distance = 30; toll_cost = 5 }
      ∷ (record past_run { income = 60; distance = 50 } ∷ []);
  incomes = rent ∷ [];
  expenses = wages ∷ [];
  fuel_logs = petrol ∷ [];
}

loss : sum_ℤ (ledger 7 (period none none) books) ≡ negsuc 274
unfolding ◌+ℤ◌ ◌-ℤ◌
loss = refl

profit_is_ledger_sum_example :
    (r : ProfitLoss) × (get_profit_loss lists list_groups 7 (period (some 5) none) books
      ≡ (ok r, books))
    × (r.profit ≡ sum_ℤ (ledger 7 (period (some 5) none) books))
profit_is_ledger_sum_example = profit_is_ledger_sum lists list_groups 7 (period (some 5) none) books

profit_is_additive_example :
    (whole first second : ProfitLoss) × (get_profit_loss lists list_groups 7
        (period (some 5) none)
        books
      ≡ (ok whole, books))
    × (get_profit_loss lists list_groups 7 (period (some 5) (some 25)) books ≡ (ok first, books))
    × (get_profit_loss lists list_groups 7 (period (some 26) none) books ≡ (ok second, books))
    × (whole.profit ≡ first.profit +ℤ second.profit)
profit_is_additive_example =
    profit_is_additive 7 (some 5) none 25 (omega arith) tt lists list_groups books

abbrev all_of_them : ReportQueryDto
all_of_them = all_vehicles (period none none)

mileage_adds_up_example :
    (rows : List MileageRow) × (get_mileage_report lists list_groups 7 all_of_them books
      ≡ (ok rows, books))
    × Keyed (λ r. r.vehicle_id) rows
    × All
        (λ r.
          r.total_distance
          ≡ total_of
              (λ t. t.distance)
              (λ t. trip_reported 7 all_of_them t && t.vehicle_id == r.vehicle_id)
              books.trips)
        rows
    × (sum_of (λ r. r.total_distance) rows
        ≡ total_of (λ t. t.distance) (trip_reported 7 all_of_them) books.trips)
    × (sum_of (λ r. r.trip_count) rows ≡ count_of (trip_reported 7 all_of_them) books.trips)
mileage_adds_up_example = mileage_adds_up lists list_groups 7 all_of_them books

books-Keyed : Keyed (λ v. v.id) books.vehicles
books-Keyed = (((λ e. ground arith), tt), (tt, tt))

usage_within_accounts_example :
    (rows : List UsageRow) × (accounts : ProfitLoss) × (get_vehicle_usage_report lists list_groups 7
        (all_vehicles (period none none))
        books
      ≡ (ok rows, books))
    × (get_profit_loss lists list_groups 7 (period none none) books ≡ (ok accounts, books))
    × (sum_of (λ r. r.total_income) rows ≤ accounts.breakdown.income_from_trips)
    × (sum_of (λ r. r.fuel_cost) rows ≤ accounts.breakdown.fuel_costs)
    × (sum_of (λ r. r.maintenance_cost) rows ≤ accounts.breakdown.maintenance_costs)
usage_within_accounts_example =
    usage_within_accounts lists list_groups 7 (period none none) books books-Keyed

usage_agrees_with_accounts_example :
    (rows : List UsageRow) × (accounts : ProfitLoss) × (get_vehicle_usage_report lists list_groups 7
        (all_vehicles (period none none))
        books
      ≡ (ok rows, books))
    × (get_profit_loss lists list_groups 7 (period none none) books ≡ (ok accounts, books))
    × (sum_of (λ r. r.total_income) rows ≡ accounts.breakdown.income_from_trips)
    × (sum_of (λ r. r.fuel_cost) rows ≡ accounts.breakdown.fuel_costs)
    × (sum_of (λ r. r.maintenance_cost) rows ≡ accounts.breakdown.maintenance_costs)
usage_agrees_with_accounts_example =
    usage_agrees_with_accounts lists list_groups 7 (period none none) books books-Keyed
      (
        (λ e. (_, Memᴰ.tail (Memᴰ.head refl), refl, refl, refl)),
        ((λ e. (_, Memᴰ.head refl, refl, refl, refl)), tt),
      )
      ((λ e. (_, Memᴰ.head refl, refl, refl, refl)), tt)
      ((λ e. (_, Memᴰ.head refl, refl, refl, refl)), tt)
