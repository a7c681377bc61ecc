-- ===== src/Accounting.antt =====
-- src/accounting/accounting.service.ts, with its DTO: profit and loss of a tenant over a period. The
-- dates of the query are parsed, an empty one counting as absent. The profit may be negative.
pub mod Ledger
pub mod Periods
use node_vms.Prelude.{
  ℕ, ◌+◌, Bool, true, ◌&&◌, Option, none, some, List, get_or, leb, ◌==◌, is_none,
}
use node_vms.Prelude.Int.{ℤ, pos, ◌-ℤ◌}
use node_vms.Schema.{Trip, FuelLog, Expense, Income, MaintenanceLog}
use node_vms.Database.Client.{Client}
use node_vms.Database.Action.{Db, Action, pure, ◌>>=◌}
use node_vms.Database.Aggregates.{Aggregates, aggregate}

pub record ProfitLossQueryDto : Type 0 where
  pub start_date : Option ℕ
  pub end_date : Option ℕ

pub record Breakdown : Type 0 where
  pub income_from_records : ℕ
  pub income_from_trips : ℕ
  pub expense_from_records : ℕ
  pub fuel_costs : ℕ
  pub maintenance_costs : ℕ
  pub trip_toll_costs : ℕ
  pub trip_police_costs : ℕ

pub record ProfitLoss : Type 0 where
  pub total_income : ℕ
  pub total_expenses : ℕ
  pub profit : ℤ
  pub breakdown : Breakdown
  pub period : ProfitLossQueryDto

-- `gte` and `lte`, each only where the date is given.
abbrev pub not_before : Option ℕ → ℕ → Bool
not_before none d = true
not_before (some start) d = leb start d

abbrev pub not_after : Option ℕ → ℕ → Bool
not_after none d = true
not_after (some end_) d = leb d end_

abbrev pub in_range : ProfitLossQueryDto → ℕ → Bool
in_range query d = not_before query.start_date d && not_after query.end_date d

-- The `where` clauses.
abbrev pub income_counts : ℕ → ProfitLossQueryDto → Income → Bool
income_counts tenant_id query i =
    i.tenant_id == tenant_id && (is_none i.deleted_at && in_range query i.created_at)

abbrev pub trip_counts : ℕ → ProfitLossQueryDto → Trip → Bool
trip_counts tenant_id query t =
    t.tenant_id == tenant_id && (is_none t.deleted_at && in_range query t.start_time)

abbrev pub expense_counts : ℕ → ProfitLossQueryDto → Expense → Bool
expense_counts tenant_id query e =
    e.tenant_id == tenant_id && (is_none e.deleted_at && in_range query e.created_at)

abbrev pub fuel_counts : ℕ → ProfitLossQueryDto → FuelLog → Bool
fuel_counts tenant_id query f =
    f.tenant_id == tenant_id && (is_none f.deleted_at && in_range query f.date)

abbrev pub maintenance_counts : ℕ → ProfitLossQueryDto → MaintenanceLog → Bool
maintenance_counts tenant_id query m =
    m.tenant_id == tenant_id && (is_none m.deleted_at && in_range query m.date)

-- The answer, from the sums.
abbrev pub to_profit_loss : Breakdown → ProfitLossQueryDto → ProfitLoss
to_profit_loss b query =
    let total_income = b.income_from_records + b.income_from_trips in
    let total_expenses =
      b.expense_from_records + b.fuel_costs + b.maintenance_costs + b.trip_toll_costs
      + b.trip_police_costs in
    record {
      total_income = total_income;
      total_expenses = total_expenses;
      profit = pos total_income -ℤ pos total_expenses;
      breakdown = b;
      period = query;
    }

module _ (c : Client) (a : Aggregates c) where
  unfoldable pub get_profit_loss : ℕ → ProfitLossQueryDto → Action ProfitLoss
  get_profit_loss tenant_id query = do
    income ← aggregate c a (λ s. s.incomes) (λ i. i.amount) (income_counts tenant_id query)
    trip_income ← aggregate c a (λ s. s.trips) (λ t. t.income) (trip_counts tenant_id query)
    toll ← aggregate c a (λ s. s.trips) (λ t. t.toll_cost) (trip_counts tenant_id query)
    police ← aggregate c a (λ s. s.trips) (λ t. t.police_cost) (trip_counts tenant_id query)
    expense ← aggregate c a (λ s. s.expenses) (λ e. e.amount) (expense_counts tenant_id query)
    fuel ← aggregate c a (λ s. s.fuel_logs) (λ f. f.cost) (fuel_counts tenant_id query)
    upkeep ←
        aggregate c a (λ s. s.maintenance_logs) (λ m. m.total_cost)
          (maintenance_counts tenant_id query)
    pure (
        to_profit_loss
          (record {
            income_from_records = get_or income 0;
            income_from_trips = get_or trip_income 0;
            expense_from_records = get_or expense 0;
            fuel_costs = get_or fuel 0;
            maintenance_costs = get_or upkeep 0;
            trip_toll_costs = get_or toll 0;
            trip_police_costs = get_or police 0;
          })
          query)
