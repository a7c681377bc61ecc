-- ===== src/Schema/Fleet.antt =====
-- prisma/schema.prisma: vehicles, drivers, and what they are planned for and do.
use mathlib.Core.Bool.{Bool}
use mathlib.Core.Option.{Option}
use node_vms.Prelude.{ℕ}
use node_vms.Schema.Enums.{
  VehicleStatus, VehicleSourceType, FuelType, BookingStatus, ContractType, WorkshopJobStatus,
}

pub record Vehicle : Type 0 where
  pub id : ℕ
  pub tenant_id : ℕ
  pub branch_id : Option ℕ
  pub registration_no : ℕ
  pub make : Option ℕ
  pub model : ℕ
  pub year : Option ℕ
  pub color : Option ℕ
  pub fuel_type : Option FuelType
  pub seat_count : ℕ
  pub status : VehicleStatus
  pub source_type : VehicleSourceType
  pub fitness_expiry_date : Option ℕ
  pub tax_token_expiry_date : Option ℕ
  pub deleted_at : Option ℕ

pub record Driver : Type 0 where
  pub id : ℕ
  pub tenant_id : ℕ
  pub branch_id : Option ℕ
  pub user_id : Option ℕ
  pub name : ℕ
  pub phone : ℕ
  pub license_no : ℕ
  pub is_available : Bool
  pub deleted_at : Option ℕ

pub record Assignment : Type 0 where
  pub id : ℕ
  pub vehicle_id : ℕ
  pub driver_id : ℕ
  pub start_date : ℕ
  pub end_date : Option ℕ
  pub deleted_at : Option ℕ

pub record Booking : Type 0 where
  pub id : ℕ
  pub tenant_id : ℕ
  pub branch_id : Option ℕ
  pub vehicle_id : ℕ
  pub driver_id : Option ℕ
  pub start_date : ℕ
  pub end_date : ℕ
  pub status : BookingStatus
  pub advance_paid : ℕ
  pub customer_name : ℕ
  pub contact : ℕ
  pub deleted_at : Option ℕ

pub record Trip : Type 0 where
  pub id : ℕ
  pub tenant_id : ℕ
  pub vehicle_id : ℕ
  pub driver_id : ℕ
  pub start_time : ℕ
  pub end_time : Option ℕ
  pub distance : ℕ
  pub income : ℕ
  pub toll_cost : ℕ
  pub police_cost : ℕ
  pub deleted_at : Option ℕ

pub record Contract : Type 0 where
  pub id : ℕ
  pub tenant_id : ℕ
  pub type : ContractType
  pub start_date : ℕ
  pub end_date : ℕ
  pub amount : ℕ
  pub commission : ℕ
  pub vehicle_id : Option ℕ
  pub contact_name : Option ℕ
  pub contact_email : Option ℕ
  pub contact_phone : Option ℕ
  pub contact_address : Option ℕ
  pub deleted_at : Option ℕ

pub record MaintenanceLog : Type 0 where
  pub id : ℕ
  pub tenant_id : ℕ
  pub vehicle_id : ℕ
  pub total_cost : ℕ
  pub note : Option ℕ
  pub date : ℕ
  pub deleted_at : Option ℕ

pub record MaintenanceItem : Type 0 where
  pub maintenance_id : ℕ
  pub name : ℕ
  pub cost : ℕ

pub record WorkshopJob : Type 0 where
  pub id : ℕ
  pub tenant_id : ℕ
  pub branch_id : Option ℕ
  pub vehicle_id : ℕ
  pub issue : ℕ
  pub status : WorkshopJobStatus
  pub total_cost : ℕ
  pub deleted_at : Option ℕ

pub record WorkshopItem : Type 0 where
  pub job_id : ℕ
  pub name : ℕ
  pub cost : ℕ
