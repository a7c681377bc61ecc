-- ===== src/Reports/Mileage.antt =====
-- reports.service.ts: the mileage and the fuel report, against the tables that they summarise.
use node_vms.Prelude.{
  ℕ, ◌≡◌, refl, ◌∙◌, All, Keyed, List, [], ◌∷◌, map, ◌==◌, ◌&&◌, Keyed-map, All-map_on, total_of,
  sum_of, count_of, arith,
}
use node_vms.Schema.{Trip, FuelLog, Vehicle}
use node_vms.Database.Client.{Client}
use node_vms.Database.Errors.{ok}
use node_vms.Database.Action.{Db}
use node_vms.Database.Aggregates.{Aggregates, Group}
use node_vms.Database.Groups.{groups_total, groups_count}
use node_vms.Reports.{
  ReportQueryDto, MileageRow, FuelRow, mileage_row, fuel_row, grouped_vehicle, trip_reported,
  fuel_reported, mileage_rows, fuel_rows, get_mileage_report, get_fuel_report,
}

pub sum_of-map :
    {A B : Type 0} (f : B → ℕ) (g : A → B) (xs : List A)
    → sum_of f (map g xs) ≡ sum_of (λ x. f (g x)) xs
sum_of-map f g [] = refl
sum_of-map f g (x ∷ xs) = omega (arith, sum_of-map f g xs)

module _ (c : Client) (a : Aggregates c) (tenant_id : ℕ) (query : ReportQueryDto) (s : Db) where
  abbrev trip_groups : List (Group Trip)
  trip_groups = a.group_by (λ t. t.vehicle_id) (trip_reported tenant_id query) s.trips

  mileage_rows_ok :
      (gs : List (Group Trip))
      → (vehicles : List Vehicle) × (mileage_rows c a tenant_id gs s
          ≡ (ok (map (mileage_row vehicles) gs), s))
  unfolding mileage_rows
  mileage_rows_ok [] = ([], refl)
  mileage_rows_ok (g ∷ gs) = (c.find_many (grouped_vehicle tenant_id (g ∷ gs)) s.vehicles, refl)

  -- The mileage report answers, and writes nothing. It has at most one row for a vehicle, with the
  -- distance of that vehicle's trips of the query. Its distances add up to the distance of all
  -- the tenant's trips of the query (of its vehicle, where one is given, and started in its
  -- period, deleted trips left out), and its counts to their number, also
  -- where the vehicle itself has been deleted.
  pub mileage_adds_up :
      (rows : List MileageRow) × (get_mileage_report c a tenant_id query s ≡ (ok rows, s))
      × Keyed (λ r. r.vehicle_id) rows
      × All
          (λ r.
            r.total_distance
            ≡ total_of
                (λ t. t.distance)
                (λ t. trip_reported tenant_id query t && t.vehicle_id == r.vehicle_id)
                s.trips)
          rows
      × (sum_of (λ r. r.total_distance) rows
          ≡ total_of (λ t. t.distance) (trip_reported tenant_id query) s.trips)
      × (sum_of (λ r. r.trip_count) rows ≡ count_of (trip_reported tenant_id query) s.trips)
  unfolding get_mileage_report
  mileage_adds_up =
      let (vehicles, e) = mileage_rows_ok trip_groups in
      (
        map (mileage_row vehicles) trip_groups,
        e,
        Keyed-map (λ r. r.vehicle_id) (mileage_row vehicles) trip_groups
            (a.group_by_keyed (λ t. t.vehicle_id) (trip_reported tenant_id query) s.trips),
        All-map_on _ (mileage_row vehicles) trip_groups (λ g m.
            a.group_by_total (λ t. t.vehicle_id) (trip_reported tenant_id query) s.trips g m
              (λ t. t.distance)),
        sum_of-map _ (mileage_row vehicles) trip_groups
            ∙ groups_total c a (λ t. t.vehicle_id) (trip_reported tenant_id query) s.trips
                (λ t. t.distance),
        sum_of-map _ (mileage_row vehicles) trip_groups
            ∙ groups_count c a (λ t. t.vehicle_id) (trip_reported tenant_id query) s.trips,
      )

  abbrev fuel_groups : List (Group FuelLog)
  fuel_groups = a.group_by (λ f. f.vehicle_id) (fuel_reported tenant_id query) s.fuel_logs

  fuel_rows_ok :
      (gs : List (Group FuelLog))
      → (vehicles : List Vehicle) × (fuel_rows c a tenant_id gs s
          ≡ (ok (map (fuel_row vehicles) gs), s))
  unfolding fuel_rows
  fuel_rows_ok [] = ([], refl)
  fuel_rows_ok (g ∷ gs) = (c.find_many (grouped_vehicle tenant_id (g ∷ gs)) s.vehicles, refl)

  -- The fuel report answers, and writes nothing. Its litres and costs add up to those of all the
  -- tenant's fuel logs of the query (of its vehicle, where one is given, and dated in its period,
  -- deleted logs left out), and its fill-up counts to their number.
  pub fuel_adds_up :
      (rows : List FuelRow) × (get_fuel_report c a tenant_id query s ≡ (ok rows, s))
      × (sum_of (λ r. r.total_liters) rows
          ≡ total_of (λ f. f.liters) (fuel_reported tenant_id query) s.fuel_logs)
      × (sum_of (λ r. r.total_cost) rows
          ≡ total_of (λ f. f.cost) (fuel_reported tenant_id query) s.fuel_logs)
      × (sum_of (λ r. r.fillup_count) rows ≡ count_of (fuel_reported tenant_id query) s.fuel_logs)
  unfolding get_fuel_report
  fuel_adds_up =
      let (vehicles, e) = fuel_rows_ok fuel_groups in
      (
        map (fuel_row vehicles) fuel_groups,
        e,
        sum_of-map _ (fuel_row vehicles) fuel_groups
            ∙ groups_total c a (λ f. f.vehicle_id) (fuel_reported tenant_id query) s.fuel_logs
                (λ f. f.liters),
        sum_of-map _ (fuel_row vehicles) fuel_groups
            ∙ groups_total c a (λ f. f.vehicle_id) (fuel_reported tenant_id query) s.fuel_logs
                (λ f. f.cost),
        sum_of-map _ (fuel_row vehicles) fuel_groups
            ∙ groups_count c a (λ f. f.vehicle_id) (fuel_reported tenant_id query) s.fuel_logs,
      )
