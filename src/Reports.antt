-- ===== src/Reports.antt =====
-- src/reports/reports.service.ts, with its DTO. The dates of the query are parsed, an empty text
-- counting as absent; `none` in a row's labels is 'Unknown'. In which order the database returns
-- groups and rows is left open.
pub mod Mileage
pub mod Usage
use node_vms.Prelude.{
  ℕ, Bool, true, false, ◌&&◌, ◌||◌, Option, none, some, List, [], ◌∷◌, map, get_or, or_else, given,
  ◌==◌, is_none, if◌then◌else◌,
}
use node_vms.Schema.{Vehicle, Trip, FuelLog, MaintenanceLog, VehicleStatus, VehicleSourceType}
use node_vms.Database.Client.{Client}
use node_vms.Database.Action.{Action, pure, ◌>>=◌, find_many}
use node_vms.Database.Aggregates.{Aggregates, Group, group_rows}
use node_vms.Database.Groups.{find_group, total_or_zero, count_or_zero}
use node_vms.Accounting.{ProfitLossQueryDto, ProfitLoss, in_range, get_profit_loss}

pub record ReportQueryDto : Type 0 where
  pub vehicle_id : Option ℕ
  pub start_date : Option ℕ
  pub end_date : Option ℕ

-- `dateRange`: the period of the query.
abbrev pub date_range : ReportQueryDto → ProfitLossQueryDto
date_range query = record { start_date = query.start_date; end_date = query.end_date }

-- `...(query.vehicleId && { vehicleId: query.vehicleId })`
abbrev pub of_vehicle : Option ℕ → ℕ → Bool
of_vehicle vehicle_id k = if given vehicle_id then k == get_or vehicle_id 0 else true

-- The `where` clauses of the queries.
abbrev pub trip_reported : ℕ → ReportQueryDto → Trip → Bool
trip_reported tenant_id query t =
    t.tenant_id == tenant_id
    && (is_none t.deleted_at
        && (of_vehicle query.vehicle_id t.vehicle_id && in_range (date_range query) t.start_time))

abbrev pub fuel_reported : ℕ → ReportQueryDto → FuelLog → Bool
fuel_reported tenant_id query f =
    f.tenant_id == tenant_id
    && (is_none f.deleted_at
        && (of_vehicle query.vehicle_id f.vehicle_id && in_range (date_range query) f.date))

abbrev pub maintenance_reported : ℕ → ReportQueryDto → MaintenanceLog → Bool
maintenance_reported tenant_id query m =
    m.tenant_id == tenant_id
    && (is_none m.deleted_at
        && (of_vehicle query.vehicle_id m.vehicle_id && in_range (date_range query) m.date))

abbrev pub vehicle_reported : ℕ → ReportQueryDto → Vehicle → Bool
vehicle_reported tenant_id query v =
    v.tenant_id == tenant_id && (is_none v.deleted_at && of_vehicle query.vehicle_id v.id)

-- `vehicleIds`, as a test.
abbrev pub is_grouped : {A : Type 0} → List (Group A) → ℕ → Bool
is_grouped [] k = false
is_grouped (g ∷ gs) k = g.key == k || is_grouped gs k

abbrev pub grouped_vehicle : {A : Type 0} → ℕ → List (Group A) → Vehicle → Bool
grouped_vehicle tenant_id groups v =
    is_grouped groups v.id && (v.tenant_id == tenant_id && is_none v.deleted_at)

-- `vehicleMap.get`: of two rows with one key the later one stays in the map.
abbrev pub vehicle_map : List Vehicle → ℕ → Option Vehicle
vehicle_map [] k = none
vehicle_map (v ∷ vs) k = or_else (vehicle_map vs k) (if v.id == k then some v else none)

abbrev pub registration_of : Option Vehicle → Option ℕ
registration_of none = none
registration_of (some v) = some v.registration_no

abbrev pub model_of : Option Vehicle → Option ℕ
model_of none = none
model_of (some v) = some v.model

pub record MileageRow : Type 0 where
  pub vehicle_id : ℕ
  pub registration_no : Option ℕ
  pub model : Option ℕ
  pub trip_count : ℕ
  pub total_distance : ℕ

pub record FuelRow : Type 0 where
  pub vehicle_id : ℕ
  pub registration_no : Option ℕ
  pub model : Option ℕ
  pub fillup_count : ℕ
  pub total_liters : ℕ
  pub total_cost : ℕ

pub record UsageRow : Type 0 where
  pub vehicle_id : ℕ
  pub registration_no : ℕ
  pub model : ℕ
  pub status : VehicleStatus
  pub source_type : VehicleSourceType
  pub trip_count : ℕ
  pub total_distance : ℕ
  pub total_income : ℕ
  pub fillups : ℕ
  pub total_liters : ℕ
  pub fuel_cost : ℕ
  pub maintenance_count : ℕ
  pub maintenance_cost : ℕ

abbrev pub mileage_row : List Vehicle → Group Trip → MileageRow
mileage_row vehicles g = record {
  vehicle_id = g.key;
  registration_no = registration_of (vehicle_map vehicles g.key);
  model = model_of (vehicle_map vehicles g.key);
  trip_count = g.count;
  total_distance = get_or (g.total (λ t. t.distance)) 0;
}

abbrev pub fuel_row : List Vehicle → Group FuelLog → FuelRow
fuel_row vehicles g = record {
  vehicle_id = g.key;
  registration_no = registration_of (vehicle_map vehicles g.key);
  model = model_of (vehicle_map vehicles g.key);
  fillup_count = g.count;
  total_liters = get_or (g.total (λ f. f.liters)) 0;
  total_cost = get_or (g.total (λ f. f.cost)) 0;
}

abbrev pub usage_row :
    List (Group Trip) → List (Group FuelLog) → List (Group MaintenanceLog) → Vehicle → UsageRow
usage_row trip_groups fuel_groups maint_groups vehicle =
    let trips = find_group trip_groups vehicle.id in
    let fuel = find_group fuel_groups vehicle.id in
    let maint = find_group maint_groups vehicle.id in
    record {
      vehicle_id = vehicle.id;
      registration_no = vehicle.registration_no;
      model = vehicle.model;
      status = vehicle.status;
      source_type = vehicle.source_type;
      trip_count = count_or_zero trips;
      total_distance = total_or_zero (λ t. t.distance) trips;
      total_income = total_or_zero (λ t. t.income) trips;
      fillups = count_or_zero fuel;
      total_liters = total_or_zero (λ f. f.liters) fuel;
      fuel_cost = total_or_zero (λ f. f.cost) fuel;
      maintenance_count = count_or_zero maint;
      maintenance_cost = total_or_zero (λ m. m.total_cost) maint;
    }

module _ (c : Client) (a : Aggregates c) where
  -- The rows of the groups, unless there is none.
  unfoldable pub mileage_rows : ℕ → List (Group Trip) → Action (List MileageRow)
  mileage_rows tenant_id [] = pure []
  mileage_rows tenant_id (g ∷ gs) = do
    vehicles ← find_many c (λ s. s.vehicles) (grouped_vehicle tenant_id (g ∷ gs))
    pure (map (mileage_row vehicles) (g ∷ gs))

  unfoldable pub get_mileage_report : ℕ → ReportQueryDto → Action (List MileageRow)
  get_mileage_report tenant_id query = do
    trip_groups ← group_rows c a (λ s. s.trips) (λ t. t.vehicle_id) (trip_reported tenant_id query)
    mileage_rows tenant_id trip_groups

  unfoldable pub fuel_rows : ℕ → List (Group FuelLog) → Action (List FuelRow)
  fuel_rows tenant_id [] = pure []
  fuel_rows tenant_id (g ∷ gs) = do
    vehicles ← find_many c (λ s. s.vehicles) (grouped_vehicle tenant_id (g ∷ gs))
    pure (map (fuel_row vehicles) (g ∷ gs))

  unfoldable pub get_fuel_report : ℕ → ReportQueryDto → Action (List FuelRow)
  get_fuel_report tenant_id query = do
    fuel_groups ←
        group_rows c a (λ s. s.fuel_logs) (λ f. f.vehicle_id) (fuel_reported tenant_id query)
    fuel_rows tenant_id fuel_groups

  abbrev pub get_profit_loss_report : ℕ → ReportQueryDto → Action ProfitLoss
  get_profit_loss_report tenant_id query = get_profit_loss c a tenant_id (date_range query)

  unfoldable pub get_vehicle_usage_report : ℕ → ReportQueryDto → Action (List UsageRow)
  get_vehicle_usage_report tenant_id query = do
    vehicles ← find_many c (λ s. s.vehicles) (vehicle_reported tenant_id query)
    trip_groups ← group_rows c a (λ s. s.trips) (λ t. t.vehicle_id) (trip_reported tenant_id query)
    fuel_groups ←
        group_rows c a (λ s. s.fuel_logs) (λ f. f.vehicle_id) (fuel_reported tenant_id query)
    maint_groups ←
        group_rows c a (λ s. s.maintenance_logs) (λ m. m.vehicle_id)
          (maintenance_reported tenant_id query)
    pure (map (usage_row trip_groups fuel_groups maint_groups) vehicles)
