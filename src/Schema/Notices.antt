-- ===== src/Schema/Notices.antt =====
-- prisma/schema.prisma: documents of vehicles, and alerts. `created_at` is left out.
use mathlib.Core.Option.{Option}
use node_vms.Prelude.{ℕ}
use node_vms.Schema.Enums.{AlertStatus, ContractType}

pub record Document : Type 0 where
  pub id : ℕ
  pub tenant_id : ℕ
  pub vehicle_id : ℕ
  pub type : ℕ
  pub expiry_date : ℕ
  pub deleted_at : Option ℕ

-- The type of an alert with what its message is written from: a document's type, the registration
-- number of its vehicle and when it expires; a contract's type and end; a registration number.
pub data Notice : Type 0 where
  document_expiry : ℕ → Option ℕ → ℕ → Notice
  contract_expiry : ContractType → ℕ → Notice
  maintenance_due : ℕ → Notice

pub record Alert : Type 0 where
  pub id : ℕ
  pub tenant_id : ℕ
  pub notice : Notice
  pub status : AlertStatus
  pub deleted_at : Option ℕ
