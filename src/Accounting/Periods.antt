-- ===== src/Accounting/Periods.antt =====
-- accounting.service.ts over adjacent periods.
use node_vms.Prelude.{
  ℕ, suc, ◌+◌, ◌≤◌, ◌≡◌, Bool, ◌&&◌, Option, none, some, List, if◌then◌else◌, arith, total_of,
  total_of_split, is_none, ◌==◌,
}
use node_vms.Prelude.Int.{◌+ℤ◌, int_laws}
use node_vms.Schema.{Trip, FuelLog, Expense, Income, MaintenanceLog}
use node_vms.Database.Client.{Client}
use node_vms.Database.Errors.{ok}
use node_vms.Database.Action.{Db}
use node_vms.Database.Aggregates.{Aggregates}
use node_vms.Accounting.{
  ProfitLossQueryDto, ProfitLoss, in_range, income_counts, trip_counts, expense_counts, fuel_counts,
  maintenance_counts, get_profit_loss,
}
use node_vms.Accounting.Ledger.{get_profit_loss-sums}

abbrev pub period : Option ℕ → Option ℕ → ProfitLossQueryDto
period start end_ = record { start_date = start; end_date = end_ }

-- `m` is inside the period, up to a first half that is empty.
abbrev pub Starts : Option ℕ → ℕ → Type 0
Starts none m = Unit
Starts (some start) m = start ≤ suc m

abbrev pub Ends : Option ℕ → ℕ → Type 0
Ends none m = Unit
Ends (some end_) m = m ≤ end_

-- One amount, where `u` and `v` are the other conditions on its row.
range_splits :
    (start end_ : Option ℕ) (m d x : ℕ) (u v : Bool)
    → Starts start m
    → Ends end_ m
    → (if u && (v && in_range (period start end_) d) then x else 0)
      ≡ (if u && (v && in_range (period start (some m)) d) then x else 0)
        + (if u && (v && in_range (period (some (suc m)) end_) d) then x else 0)
range_splits none none m d x u v from to = ground arith
range_splits none (some e) m d x u v from to = ground arith
range_splits (some b) none m d x u v from to = ground arith
range_splits (some b) (some e) m d x u v from to = ground arith

module _ (tenant_id : ℕ) (start end_ : Option ℕ) (m : ℕ) (from : Starts start m)
    (to : Ends end_ m) where
  -- A sum over the period is the sum over its two halves.
  abbrev Splits : {A : Type 0} → (A → ℕ) → (ProfitLossQueryDto → A → Bool) → List A → Type 0
  Splits f counts t =
      total_of f (counts (period start end_)) t
      ≡ total_of f (counts (period start (some m))) t
        + total_of f (counts (period (some (suc m)) end_)) t

  splits :
      {A : Type 0} (f : A → ℕ) (counts : ProfitLossQueryDto → A → Bool) (t : List A)
      → ((r : A)
          → (if counts (period start end_) r then f r else 0)
            ≡ (if counts (period start (some m)) r then f r else 0)
              + (if counts (period (some (suc m)) end_) r then f r else 0))
      → Splits f counts t
  splits f counts t h =
      total_of_split f (counts (period start (some m))) (counts (period (some (suc m)) end_))
        (counts (period start end_)) t h

  trips_split : (f : Trip → ℕ) (t : List Trip) → Splits f (trip_counts tenant_id) t
  trips_split f t = splits f (trip_counts tenant_id) t (λ r.
      range_splits start end_ m r.start_time (f r) (r.tenant_id == tenant_id) (is_none r.deleted_at)
        from to)

  incomes_split : (t : List Income) → Splits (λ i. i.amount) (income_counts tenant_id) t
  incomes_split t =
      splits (λ i. i.amount) (income_counts tenant_id) t
        (λ r.
          range_splits start end_ m r.created_at r.amount (r.tenant_id == tenant_id)
            (is_none r.deleted_at) from to)

  expenses_split : (t : List Expense) → Splits (λ e. e.amount) (expense_counts tenant_id) t
  expenses_split t =
      splits (λ e. e.amount) (expense_counts tenant_id) t
        (λ r.
          range_splits start end_ m r.created_at r.amount (r.tenant_id == tenant_id)
            (is_none r.deleted_at) from to)

  fuel_split : (t : List FuelLog) → Splits (λ f. f.cost) (fuel_counts tenant_id) t
  fuel_split t =
      splits (λ f. f.cost) (fuel_counts tenant_id) t
        (λ r.
          range_splits start end_ m r.date r.cost (r.tenant_id == tenant_id) (is_none r.deleted_at)
            from to)

  maintenance_split :
      (t : List MaintenanceLog) → Splits (λ l. l.total_cost) (maintenance_counts tenant_id) t
  maintenance_split t =
      splits (λ l. l.total_cost) (maintenance_counts tenant_id) t
        (λ r.
          range_splits start end_ m r.date r.total_cost (r.tenant_id == tenant_id)
            (is_none r.deleted_at) from to)

  module _ (c : Client) (a : Aggregates c) (s : Db) where
    -- Where the instant `m` is not before the instant that precedes the start of the period and not
    -- after its end (either may be open), the profit that the service reports over the period is the sum of the
    -- profits that it reports up to `m` and from the instant after `m`: no amount is lost or
    -- counted twice.
    pub profit_is_additive :
        (whole first second : ProfitLoss) × (get_profit_loss c a tenant_id (period start end_) s
          ≡ (ok whole, s))
        × (get_profit_loss c a tenant_id (period start (some m)) s ≡ (ok first, s))
        × (get_profit_loss c a tenant_id (period (some (suc m)) end_) s ≡ (ok second, s))
        × (whole.profit ≡ first.profit +ℤ second.profit)
    profit_is_additive = (
      _,
      _,
      _,
      get_profit_loss-sums c a tenant_id (period start end_) s,
      get_profit_loss-sums c a tenant_id (period start (some m)) s,
      get_profit_loss-sums c a tenant_id (period (some (suc m)) end_) s,
      omega (
        int_laws,
        incomes_split s.incomes,
        trips_split (λ t. t.income) s.trips,
        expenses_split s.expenses,
        fuel_split s.fuel_logs,
        maintenance_split s.maintenance_logs,
        trips_split (λ t. t.toll_cost) s.trips,
        trips_split (λ t. t.police_cost) s.trips,
      ),
    )
