-- ===== src/Accounting/Ledger.antt =====
-- accounting.service.ts against a ledger: every amount that counts, with its sign, in one list.
use node_vms.Prelude.{
  ℕ, ◌≡◌, refl, sym, Bool, List, [], ◌∷◌, ◌++◌, map, filter_by, Bool-cases, inl, inr, total_of,
}
use node_vms.Prelude.Int.{ℤ, pos, ◌+ℤ◌, ◌-ℤ◌, int_laws}
use node_vms.Database.Client.{Client}
use node_vms.Database.Errors.{ok}
use node_vms.Database.Action.{Db}
use node_vms.Database.Aggregates.{Aggregates}
use node_vms.Accounting.{
  ProfitLossQueryDto, ProfitLoss, Breakdown, to_profit_loss, income_counts, trip_counts,
  expense_counts, fuel_counts, maintenance_counts, get_profit_loss,
}

abbrev pub sum_ℤ : List ℤ → ℤ
sum_ℤ [] = pos 0
sum_ℤ (x ∷ xs) = x +ℤ sum_ℤ xs

-- The entries that the rows of a table make.
abbrev pub gains : {A : Type 0} → (A → ℕ) → (A → Bool) → List A → List ℤ
gains f p t = map (λ r. pos (f r)) (filter_by p t)

abbrev pub losses : {A : Type 0} → (A → ℕ) → (A → Bool) → List A → List ℤ
losses f p t = map (λ r. pos 0 -ℤ pos (f r)) (filter_by p t)

-- The ledger of a tenant over a period: income and what trips earn, then expenses, fuel,
-- maintenance and what trips pay on the way.
abbrev pub ledger : ℕ → ProfitLossQueryDto → Db → List ℤ
ledger tenant_id query s =
    gains (λ i. i.amount) (income_counts tenant_id query) s.incomes
    ++ (gains (λ t. t.income) (trip_counts tenant_id query) s.trips
        ++ (losses (λ e. e.amount) (expense_counts tenant_id query) s.expenses
            ++ (losses (λ f. f.cost) (fuel_counts tenant_id query) s.fuel_logs
                ++ (losses (λ m. m.total_cost) (maintenance_counts tenant_id query)
                      s.maintenance_logs
                    ++ (losses (λ t. t.toll_cost) (trip_counts tenant_id query) s.trips
                        ++ losses (λ t. t.police_cost) (trip_counts tenant_id query) s.trips)))))

sum_ℤ-append : (xs ys : List ℤ) → sum_ℤ (xs ++ ys) ≡ sum_ℤ xs +ℤ sum_ℤ ys
sum_ℤ-append [] ys = omega int_laws
sum_ℤ-append (x ∷ xs) ys = rw (sum_ℤ-append xs ys) (omega int_laws)

module _ {A : Type 0} (f : A → ℕ) (p : A → Bool) where
  sum_ℤ-gains : (t : List A) → sum_ℤ (gains f p t) ≡ pos (total_of f p t)
  sum_ℤ-gains [] = refl
  sum_ℤ-gains (r ∷ t) = elim (Bool-cases (p r)) [
    | inl e ↦ rw e (rw (sum_ℤ-gains t) (omega int_laws))
    | inr e ↦ rw e (rw (sum_ℤ-gains t) (omega int_laws))
  ]

  sum_ℤ-losses : (t : List A) → sum_ℤ (losses f p t) ≡ pos 0 -ℤ pos (total_of f p t)
  sum_ℤ-losses [] = omega int_laws
  sum_ℤ-losses (r ∷ t) = elim (Bool-cases (p r)) [
    | inl e ↦ rw e (rw (sum_ℤ-losses t) (omega int_laws))
    | inr e ↦ rw e (rw (sum_ℤ-losses t) (omega int_laws))
  ]

-- What a breakdown says where each part is the sum over its table.
abbrev pub sums : ℕ → ProfitLossQueryDto → Db → Breakdown
sums tenant_id query s = record {
  income_from_records = total_of (λ i. i.amount) (income_counts tenant_id query) s.incomes;
  income_from_trips = total_of (λ t. t.income) (trip_counts tenant_id query) s.trips;
  expense_from_records = total_of (λ e. e.amount) (expense_counts tenant_id query) s.expenses;
  fuel_costs = total_of (λ f. f.cost) (fuel_counts tenant_id query) s.fuel_logs;
  maintenance_costs =
      total_of (λ m. m.total_cost) (maintenance_counts tenant_id query) s.maintenance_logs;
  trip_toll_costs = total_of (λ t. t.toll_cost) (trip_counts tenant_id query) s.trips;
  trip_police_costs = total_of (λ t. t.police_cost) (trip_counts tenant_id query) s.trips;
}

module _ (c : Client) (a : Aggregates c) (tenant_id : ℕ) (query : ProfitLossQueryDto) (s : Db) where
  pub get_profit_loss-sums :
      get_profit_loss c a tenant_id query s
      ≡ (ok (to_profit_loss (sums tenant_id query s) query), s)
  unfolding get_profit_loss
  get_profit_loss-sums = rw (
    a.sum_total (λ i. i.amount) (income_counts tenant_id query) s.incomes,
    a.sum_total (λ t. t.income) (trip_counts tenant_id query) s.trips,
    a.sum_total (λ e. e.amount) (expense_counts tenant_id query) s.expenses,
    a.sum_total (λ f. f.cost) (fuel_counts tenant_id query) s.fuel_logs,
    a.sum_total (λ m. m.total_cost) (maintenance_counts tenant_id query) s.maintenance_logs,
    a.sum_total (λ t. t.toll_cost) (trip_counts tenant_id query) s.trips,
    a.sum_total (λ t. t.police_cost) (trip_counts tenant_id query) s.trips,
  )

  ledger_sum :
      sum_ℤ (ledger tenant_id query s) ≡ (to_profit_loss (sums tenant_id query s) query).profit
  ledger_sum = simp (sum_ℤ-append, sum_ℤ-gains, sum_ℤ-losses) (omega int_laws)

  -- The service answers, and writes nothing. The profit that it reports is the sum of the signed
  -- entries of the tenant's ledger over the period: it takes every income record and every trip's
  -- income once, and takes off every expense, fuel fill, maintenance, toll and police cost once.
  pub profit_is_ledger_sum :
      (r : ProfitLoss) × (get_profit_loss c a tenant_id query s ≡ (ok r, s))
      × (r.profit ≡ sum_ℤ (ledger tenant_id query s))
  profit_is_ledger_sum =
      (to_profit_loss (sums tenant_id query s) query, get_profit_loss-sums, sym ledger_sum)
