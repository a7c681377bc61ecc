-- ===== src/Schema/Money.antt =====
-- prisma/schema.prisma: fuel, income and expenses. `created_at` stands here, since the reports filter
-- by it.
use mathlib.Core.Option.{Option}
use node_vms.Prelude.{ℕ}

pub record FuelLog : Type 0 where
  pub id : ℕ
  pub tenant_id : ℕ
  pub vehicle_id : ℕ
  pub liters : ℕ
  pub cost : ℕ
  pub odometer : ℕ
  pub date : ℕ
  pub deleted_at : Option ℕ

pub record Expense : Type 0 where
  pub id : ℕ
  pub tenant_id : ℕ
  pub type : ℕ
  pub amount : ℕ
  pub note : Option ℕ
  pub created_at : ℕ
  pub deleted_at : Option ℕ

pub record Income : Type 0 where
  pub id : ℕ
  pub tenant_id : ℕ
  pub source : ℕ
  pub amount : ℕ
  pub created_at : ℕ
  pub deleted_at : Option ℕ
