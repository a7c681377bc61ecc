-- ===== src/Reports/Usage.antt =====
-- reports.service.ts: the usage report of the vehicles, against accounting.service.ts.
use node_vms.Prelude.{
  ℕ, ◌≤◌, ◌≡◌, refl, ◌∙◌, Bool, true, ◌&&◌, none, List, map, All, All-mono, Listed, ◌==◌, total_of,
  sum_of, Keyed, shared, shared-le, shared-eq, arith,
}
use node_vms.Schema.{Vehicle}
use node_vms.Database.Client.{Client}
use node_vms.Database.Errors.{ok}
use node_vms.Database.Action.{Db}
use node_vms.Database.Aggregates.{Aggregates}
use node_vms.Database.Groups.{find_group, total_or_zero, total-find_group, sum_of-ext}
use node_vms.Accounting.{
  ProfitLoss, ProfitLossQueryDto, trip_counts, fuel_counts, maintenance_counts, to_profit_loss,
  get_profit_loss,
}
use node_vms.Accounting.Ledger.{sums, get_profit_loss-sums}
use node_vms.Reports.{
  ReportQueryDto, UsageRow, usage_row, vehicle_reported, trip_reported, fuel_reported,
  maintenance_reported, get_vehicle_usage_report,
}
use node_vms.Reports.Mileage.{sum_of-map}

-- What the rows' column adds up to: the vehicles' shares of the table.
module _ (c : Client) (a : Aggregates c) {A : Type 0} (key : A → ℕ) (f : A → ℕ) (p : A → Bool)
    (q : Vehicle → Bool) (t : List A) (vehicles : List Vehicle) where
  abbrev part : Vehicle → ℕ
  part v = total_or_zero f (find_group (a.group_by key p t) v.id)

  parts_shared : sum_of part (c.find_many q vehicles) ≡ shared f p key (λ v. v.id) q t vehicles
  parts_shared =
      sum_of-ext part (λ v. total_of f (λ x. p x && key x == v.id) t) (c.find_many q vehicles)
        (λ v _. total-find_group c a key p t f v.id)
      ∙ a.find_many_sum _ q vehicles

  pub parts-le : Keyed (λ v. v.id) vehicles → sum_of part (c.find_many q vehicles) ≤ total_of f p t
  parts-le k = omega (arith, parts_shared, shared-le f p key (λ v. v.id) q t vehicles k)

  pub parts-eq :
      Keyed (λ v. v.id) vehicles
      → All (λ x. p x ≡ true → (v : Vehicle) × Listed v vehicles × (q v ≡ true) × (v.id ≡ key x)) t
      → sum_of part (c.find_many q vehicles) ≡ total_of f p t
  parts-eq k h = parts_shared ∙ shared-eq f p key (λ v. v.id) q t vehicles k h

-- The query for all the vehicles.
abbrev pub all_vehicles : ProfitLossQueryDto → ReportQueryDto
all_vehicles query = record {
  vehicle_id = none;
  start_date = query.start_date;
  end_date = query.end_date;
}

-- The vehicle of each of these rows is in the tenant's fleet.
abbrev pub InFleet : {A : Type 0} → ℕ → List Vehicle → (A → ℕ) → (A → Bool) → List A → Type 0
InFleet tenant_id vehicles key p t =
    All
      (λ x.
        p x ≡ true
        → (v : Vehicle) × Listed v vehicles
          × (v.tenant_id ≡ tenant_id)
          × (v.deleted_at ≡ none)
          × (v.id ≡ key x))
      t

module _ (c : Client) (a : Aggregates c) (tenant_id : ℕ) (query : ProfitLossQueryDto) (s : Db) where
  abbrev row : Vehicle → UsageRow
  row =
      usage_row
        (a.group_by (λ t. t.vehicle_id) (trip_reported tenant_id (all_vehicles query)) s.trips)
        (a.group_by (λ f. f.vehicle_id) (fuel_reported tenant_id (all_vehicles query)) s.fuel_logs)
        (a.group_by (λ m. m.vehicle_id) (maintenance_reported tenant_id (all_vehicles query))
          s.maintenance_logs)

  abbrev vehicles : List Vehicle
  vehicles = c.find_many (vehicle_reported tenant_id (all_vehicles query)) s.vehicles

  in_fleet :
      {A : Type 0} (key : A → ℕ) (p : A → Bool) (t : List A)
      → InFleet tenant_id s.vehicles key p t
      → All
          (λ x.
            p x ≡ true
            → (v : Vehicle) × Listed v s.vehicles
              × (vehicle_reported tenant_id (all_vehicles query) v ≡ true)
              × (v.id ≡ key x))
          t
  in_fleet key p t h =
      All-mono _ _ t (λ x g e. let (v, m, own, live, same) = g e in (v, m, ground arith, same)) h

  report_rows :
      get_vehicle_usage_report c a tenant_id (all_vehicles query) s ≡ (ok (map row vehicles), s)
  unfolding get_vehicle_usage_report
  report_rows = refl

  -- With vehicle ids unique: the usage report of all the vehicles over a period and the accounts
  -- of that period both answer, and the rows' trip incomes, fuel costs and maintenance costs add up
  -- to no more than the accounts' incomes from trips, fuel costs and maintenance costs.
  pub usage_within_accounts :
      Keyed (λ v. v.id) s.vehicles
      → (rows : List UsageRow) × (accounts : ProfitLoss) × (get_vehicle_usage_report c a tenant_id
            (all_vehicles query)
            s
          ≡ (ok rows, s))
        × (get_profit_loss c a tenant_id query s ≡ (ok accounts, s))
        × (sum_of (λ r. r.total_income) rows ≤ accounts.breakdown.income_from_trips)
        × (sum_of (λ r. r.fuel_cost) rows ≤ accounts.breakdown.fuel_costs)
        × (sum_of (λ r. r.maintenance_cost) rows ≤ accounts.breakdown.maintenance_costs)
  usage_within_accounts k = (
    map row vehicles,
    to_profit_loss (sums tenant_id query s) query,
    report_rows,
    get_profit_loss-sums c a tenant_id query s,
    omega (
      arith,
      sum_of-map (λ r. r.total_income) row vehicles,
      parts-le c a (λ t. t.vehicle_id) (λ t. t.income) (trip_counts tenant_id query)
          (vehicle_reported tenant_id (all_vehicles query)) s.trips s.vehicles k,
    ),
    omega (
      arith,
      sum_of-map (λ r. r.fuel_cost) row vehicles,
      parts-le c a (λ f. f.vehicle_id) (λ f. f.cost) (fuel_counts tenant_id query)
          (vehicle_reported tenant_id (all_vehicles query)) s.fuel_logs s.vehicles k,
    ),
    omega (
      arith,
      sum_of-map (λ r. r.maintenance_cost) row vehicles,
      parts-le c a (λ m. m.vehicle_id) (λ m. m.total_cost) (maintenance_counts tenant_id query)
          (vehicle_reported tenant_id (all_vehicles query)) s.maintenance_logs s.vehicles k,
    ),
  )

  -- With vehicle ids unique, and the vehicle of each trip, fuel log and maintenance log that counts
  -- still in the tenant's fleet (not deleted): the sums over the rows of the usage report of all the
  -- vehicles are exactly what the accounts of the period say.
  pub usage_agrees_with_accounts :
      Keyed (λ v. v.id) s.vehicles
      → InFleet tenant_id s.vehicles (λ t. t.vehicle_id) (trip_counts tenant_id query) s.trips
      → InFleet tenant_id s.vehicles (λ f. f.vehicle_id) (fuel_counts tenant_id query) s.fuel_logs
      → InFleet tenant_id s.vehicles
          (λ m. m.vehicle_id)
          (maintenance_counts tenant_id query)
          s.maintenance_logs
      → (rows : List UsageRow) × (accounts : ProfitLoss) × (get_vehicle_usage_report c a tenant_id
            (all_vehicles query)
            s
          ≡ (ok rows, s))
        × (get_profit_loss c a tenant_id query s ≡ (ok accounts, s))
        × (sum_of (λ r. r.total_income) rows ≡ accounts.breakdown.income_from_trips)
        × (sum_of (λ r. r.fuel_cost) rows ≡ accounts.breakdown.fuel_costs)
        × (sum_of (λ r. r.maintenance_cost) rows ≡ accounts.breakdown.maintenance_costs)
  usage_agrees_with_accounts k trips fuel maint = (
    map row vehicles,
    to_profit_loss (sums tenant_id query s) query,
    report_rows,
    get_profit_loss-sums c a tenant_id query s,
    sum_of-map (λ r. r.total_income) row vehicles
        ∙ parts-eq c a (λ t. t.vehicle_id) (λ t. t.income) (trip_counts tenant_id query)
            (vehicle_reported tenant_id (all_vehicles query)) s.trips s.vehicles k
            (in_fleet (λ t. t.vehicle_id) (trip_counts tenant_id query) s.trips trips),
    sum_of-map (λ r. r.fuel_cost) row vehicles
        ∙ parts-eq c a (λ f. f.vehicle_id) (λ f. f.cost) (fuel_counts tenant_id query)
            (vehicle_reported tenant_id (all_vehicles query)) s.fuel_logs s.vehicles k
            (in_fleet (λ f. f.vehicle_id) (fuel_counts tenant_id query) s.fuel_logs fuel),
    sum_of-map (λ r. r.maintenance_cost) row vehicles
        ∙ parts-eq c a (λ m. m.vehicle_id) (λ m. m.total_cost) (maintenance_counts tenant_id query)
            (vehicle_reported tenant_id (all_vehicles query)) s.maintenance_logs s.vehicles k
            (in_fleet (λ m. m.vehicle_id) (maintenance_counts tenant_id query) s.maintenance_logs
              maint),
  )
