-- ===== src/Tests/Data.antt =====
-- Example rows. A day is an instant.
use node_vms.Prelude.{ℕ, Bool, true, false, none, some, [], ◌∷◌}
use node_vms.Schema.{
  Tenant, User, Vehicle, Driver, Assignment, Booking, Trip, FeatureAccess, Role, ApprovalStatus,
  VehicleStatus, VehicleSourceType, BookingStatus, MaintenanceLog,
}
use node_vms.Database.Action.{Db, empty_db}

abbrev pub car : ℕ → VehicleStatus → Vehicle
car id status = record {
  id = id;
  tenant_id = 7;
  branch_id = none;
  registration_no = 100;
  make = none;
  model = 11;
  year = none;
  color = none;
  fuel_type = none;
  seat_count = 4;
  status = status;
  source_type = VehicleSourceType.owned;
  fitness_expiry_date = none;
  tax_token_expiry_date = none;
  deleted_at = none;
}

abbrev pub ann : Driver
ann = record {
  id = 3;
  tenant_id = 7;
  branch_id = none;
  user_id = some 30;
  name = 12;
  phone = 13;
  license_no = 14;
  is_available = true;
  deleted_at = none;
}

abbrev pub ann_drives : Assignment
ann_drives = record {
  id = 4;
  vehicle_id = 1;
  driver_id = 3;
  start_date = 10;
  end_date = some 60;
  deleted_at = none;
}

abbrev pub june : Booking
june = record {
  id = 5;
  tenant_id = 7;
  branch_id = none;
  vehicle_id = 1;
  driver_id = none;
  start_date = 70;
  end_date = 80;
  status = BookingStatus.pending;
  advance_paid = 0;
  customer_name = 15;
  contact = 16;
  deleted_at = none;
}

abbrev pub run : Trip
run = record {
  id = 6;
  tenant_id = 7;
  vehicle_id = 2;
  driver_id = 3;
  start_time = 20;
  end_time = none;
  distance = 0;
  income = 0;
  toll_cost = 0;
  police_cost = 0;
  deleted_at = none;
}

abbrev pub past_run : Trip
past_run = record run { id = 9; vehicle_id = 1; start_time = 10; end_time = some 15 }

abbrev pub service : MaintenanceLog
service = record {
  id = 8;
  tenant_id = 7;
  vehicle_id = 1;
  total_cost = 50;
  note = none;
  date = 65;
  deleted_at = none;
}

-- Vehicle 1 is booked from 70 to 80 and was on a trip from 10 to 15; vehicle 2 is on a trip.
abbrev pub fleet : Db
fleet = record empty_db {
  vehicles = car 1 VehicleStatus.available ∷ (car 2 VehicleStatus.on_trip ∷ []);
  drivers = ann ∷ [];
  assignments = ann_drives ∷ [];
  bookings = june ∷ [];
  trips = run ∷ (past_run ∷ []);
  maintenance_logs = service ∷ [];
}

abbrev pub acme : Bool → Tenant
acme active = record { id = 7; name = 20; is_active = active; deleted_at = none }

abbrev pub bob : ApprovalStatus → Bool → User
bob status active = record {
  id = 40;
  tenant_id = 7;
  branch_id = none;
  name = 21;
  email = 22;
  password = 23;
  role = Role.admin;
  approval_status = status;
  is_active = active;
  deleted_at = none;
}

abbrev pub hides_reports : FeatureAccess
hides_reports = record {
  id = 50;
  tenant_id = 7;
  module_name = 60;
  is_enabled = false;
  deleted_at = none;
}

-- An approved administrator of an active tenant.
abbrev pub office : Db
office = record empty_db {
  tenants = acme true ∷ [];
  users = bob ApprovalStatus.approved true ∷ [];
  features = hides_reports ∷ [];
}
