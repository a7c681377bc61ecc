-- ===== src/Database/Action.antt =====
-- Service methods: they read and write the tables, and may throw one of Nest's HTTP exceptions.
-- What was written before an exception stays written, unless a transaction encloses it.
use node_vms.Prelude.{Bool, Option, none, some, List, if◌then◌else◌}
use node_vms.Schema.{
  Tenant, Branch, FeatureAccess, User, UserBranch, Vehicle, Driver, Assignment, Booking, Trip,
  Contract, MaintenanceLog, MaintenanceItem, WorkshopJob, WorkshopItem, FuelLog, Expense, Income,
  Document, Alert,
}
use node_vms.Database.Client.{Client}
use node_vms.Database.Errors.{
  Result, ok, err, Error, record_not_found, unique_violation, foreign_key_violation,
}

pub record Db : Type 0 where
  pub tenants : List Tenant
  pub branches : List Branch
  pub features : List FeatureAccess
  pub users : List User
  pub user_branches : List UserBranch
  pub vehicles : List Vehicle
  pub drivers : List Driver
  pub assignments : List Assignment
  pub bookings : List Booking
  pub trips : List Trip
  pub contracts : List Contract
  pub maintenance_logs : List MaintenanceLog
  pub maintenance_items : List MaintenanceItem
  pub workshop_jobs : List WorkshopJob
  pub workshop_items : List WorkshopItem
  pub fuel_logs : List FuelLog
  pub expenses : List Expense
  pub incomes : List Income
  pub documents : List Document
  pub alerts : List Alert

abbrev pub empty_db : Db
empty_db = record {
  tenants = List.[];
  branches = List.[];
  features = List.[];
  users = List.[];
  user_branches = List.[];
  vehicles = List.[];
  drivers = List.[];
  assignments = List.[];
  bookings = List.[];
  trips = List.[];
  contracts = List.[];
  maintenance_logs = List.[];
  maintenance_items = List.[];
  workshop_jobs = List.[];
  workshop_items = List.[];
  fuel_logs = List.[];
  expenses = List.[];
  incomes = List.[];
  documents = List.[];
  alerts = List.[];
}

abbrev pub Action : Type 0 → Type 0
Action A = Db → Result A × Db

module _ {A : Type 0} where
  abbrev pub pure : A → Action A
  pure a s = (ok a, s)

  abbrev pub throw : Error → Action A
  throw e s = (err e, s)

  -- `if (!found) throw e;`
  abbrev pub or_throw : Option A → Error → Action A
  or_throw none e s = (err e, s)
  or_throw (some a) e s = (ok a, s)

infixl 5 ◌>>=◌ ◌>>◌
abbrev pub ◌>>=◌ : {A B : Type 0} → Action A → (A → Action B) → Action B
◌>>=◌ m f s = let (r, s') = m s in elim r [ ok a ↦ f a s' | err e ↦ (err e, s') ]

abbrev pub ◌>>◌ : {A B : Type 0} → Action A → Action B → Action B
m >> k = m >>= λ _. k

-- `if (c) throw e;`
abbrev pub throw_if : Bool → Error → Action (Unit {0})
throw_if c e s = (if c then err e else ok tt, s)

-- `if (c) { … }`
abbrev pub when : Bool → Action (Unit {0}) → Action (Unit {0})
when c m = if c then m else pure tt

-- `$transaction`: an exception inside undoes the writes made inside.
abbrev pub transaction : {A : Type 0} → Action A → Action A
transaction m s = let (r, s') = m s in elim r [ ok a ↦ (ok a, s') | err e ↦ (err e, s) ]

abbrev pub modify : (Db → Db) → Action (Unit {0})
modify f s = (ok tt, f s)

module _ (c : Client) where
  abbrev pub find_first : {A : Type 0} → (Db → List A) → (A → Bool) → Action (Option A)
  find_first table p s = (ok (c.find_first p (table s)), s)

  -- `update` on a unique field: it throws where no row has it, and returns the new row.
  abbrev pub update_row :
      {A : Type 0} → (Db → List A) → (List A → Db → Db) → (A → Bool) → (A → A) → Action A
  update_row table put p f s = elim (c.find_first p (table s)) [
    | none ↦ (err record_not_found, s)
    | some a ↦ (ok (f a), put (c.update p f (table s)) s)
  ]

  abbrev pub find_many : {A : Type 0} → (Db → List A) → (A → Bool) → Action (List A)
  find_many table p s = (ok (c.find_many p (table s)), s)

  -- `create` returns the new row.
  abbrev pub insert_row : {A : Type 0} → (Db → List A) → (List A → Db → Db) → A → Action A
  insert_row table put a s = (ok a, put (c.insert a (table s)) s)

  -- A foreign key must name a row.
  abbrev pub references : {A : Type 0} → (Db → List A) → (A → Bool) → Action (Unit {0})
  references table p s = elim (c.find_first p (table s)) [
    | none ↦ (err foreign_key_violation, s)
    | some a ↦ (ok tt, s)
  ]

  -- A unique column must not have the value in any row, deleted or not.
  abbrev pub unique : {A : Type 0} → (Db → List A) → (A → Bool) → Action (Unit {0})
  unique table p s = elim (c.find_first p (table s)) [
    | none ↦ (ok tt, s)
    | some a ↦ (err unique_violation, s)
  ]

-- Where a table stands in the state, for the writes.
abbrev pub put_tenants : List Tenant → Db → Db
put_tenants t s = record s { tenants = t }

abbrev pub put_branches : List Branch → Db → Db
put_branches t s = record s { branches = t }

abbrev pub put_features : List FeatureAccess → Db → Db
put_features t s = record s { features = t }

abbrev pub put_users : List User → Db → Db
put_users t s = record s { users = t }

abbrev pub put_vehicles : List Vehicle → Db → Db
put_vehicles t s = record s { vehicles = t }

abbrev pub put_drivers : List Driver → Db → Db
put_drivers t s = record s { drivers = t }

abbrev pub put_assignments : List Assignment → Db → Db
put_assignments t s = record s { assignments = t }

abbrev pub put_bookings : List Booking → Db → Db
put_bookings t s = record s { bookings = t }

abbrev pub put_trips : List Trip → Db → Db
put_trips t s = record s { trips = t }

abbrev pub put_contracts : List Contract → Db → Db
put_contracts t s = record s { contracts = t }

abbrev pub put_workshop_jobs : List WorkshopJob → Db → Db
put_workshop_jobs t s = record s { workshop_jobs = t }

abbrev pub put_user_branches : List UserBranch → Db → Db
put_user_branches t s = record s { user_branches = t }

abbrev pub put_maintenance_logs : List MaintenanceLog → Db → Db
put_maintenance_logs t s = record s { maintenance_logs = t }

abbrev pub put_maintenance_items : List MaintenanceItem → Db → Db
put_maintenance_items t s = record s { maintenance_items = t }

abbrev pub put_workshop_items : List WorkshopItem → Db → Db
put_workshop_items t s = record s { workshop_items = t }

abbrev pub put_fuel_logs : List FuelLog → Db → Db
put_fuel_logs t s = record s { fuel_logs = t }

abbrev pub put_expenses : List Expense → Db → Db
put_expenses t s = record s { expenses = t }

abbrev pub put_incomes : List Income → Db → Db
put_incomes t s = record s { incomes = t }

abbrev pub put_alerts : List Alert → Db → Db
put_alerts t s = record s { alerts = t }
