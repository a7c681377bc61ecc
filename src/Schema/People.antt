-- ===== src/Schema/People.antt =====
-- prisma/schema.prisma: tenants, branches, users and what a tenant subscribes to.
use mathlib.Core.Bool.{Bool}
use mathlib.Core.Option.{Option}
use node_vms.Prelude.{ℕ}
use node_vms.Schema.Enums.{Role, ApprovalStatus}

pub record Tenant : Type 0 where
  pub id : ℕ
  pub name : ℕ
  pub is_active : Bool
  pub deleted_at : Option ℕ

pub record Branch : Type 0 where
  pub id : ℕ
  pub tenant_id : ℕ
  pub name : ℕ
  pub address : Option ℕ
  pub phone : Option ℕ
  pub is_active : Bool
  pub deleted_at : Option ℕ

pub record FeatureAccess : Type 0 where
  pub id : ℕ
  pub tenant_id : ℕ
  pub module_name : ℕ
  pub is_enabled : Bool
  pub deleted_at : Option ℕ

pub record User : Type 0 where
  pub id : ℕ
  pub tenant_id : ℕ
  pub branch_id : Option ℕ
  pub name : ℕ
  pub email : ℕ
  pub password : ℕ
  pub role : Role
  pub approval_status : ApprovalStatus
  pub is_active : Bool
  pub deleted_at : Option ℕ

pub record UserBranch : Type 0 where
  pub id : ℕ
  pub tenant_id : ℕ
  pub user_id : ℕ
  pub branch_id : ℕ
