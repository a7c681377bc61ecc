-- ===== src/Tenants.antt =====
-- src/tenants/tenants.service.ts, with its DTO; `now` is the clock.
pub mod Removal
use node_vms.Prelude.{ℕ, Bool, true, false, ◌&&◌, Option, none, some, List, ◌==◌, is_none, get_or}
use node_vms.Schema.{Tenant}
use node_vms.Database.Client.{Client}
use node_vms.Database.Errors.{not_found}
use node_vms.Database.Action.{
  Db, Action, pure, or_throw, ◌>>=◌, ◌>>◌, find_first, find_many, update_row, put_tenants,
}

pub record UpdateTenantDto : Type 0 where
  pub name : Option ℕ
  pub is_active : Option Bool

-- `where: { id, deletedAt: null }`
abbrev pub is_live_tenant : ℕ → Tenant → Bool
is_live_tenant id t = t.id == id && is_none t.deleted_at

abbrev pub has_tenant_key : ℕ → Tenant → Bool
has_tenant_key id t = t.id == id

abbrev pub with_data : UpdateTenantDto → Tenant → Tenant
with_data dto t = record t {
  name = get_or dto.name t.name;
  is_active = get_or dto.is_active t.is_active;
}

abbrev pub closed : ℕ → Tenant → Tenant
closed now t = record t { deleted_at = some now; is_active = false }

module _ (c : Client) where
  pub find_all : Action (List Tenant)
  find_all = find_many c (λ s. s.tenants) (λ t. is_none t.deleted_at)

  pub find_one : ℕ → Action Tenant
  find_one id = do
    found ← find_first c (λ s. s.tenants) (is_live_tenant id)
    or_throw found (not_found "Tenant not found")

  pub update : ℕ → UpdateTenantDto → Action Tenant
  update id dto = do
    found ← find_first c (λ s. s.tenants) (is_live_tenant id)
    tenant ← or_throw found (not_found "Tenant not found")
    update_row c (λ s. s.tenants) put_tenants (has_tenant_key id) (with_data dto)

  unfoldable pub remove : ℕ → ℕ → Action (Unit {0})
  remove now id = do
    found ← find_first c (λ s. s.tenants) (is_live_tenant id)
    tenant ← or_throw found (not_found "Tenant not found")
    row ← update_row c (λ s. s.tenants) put_tenants (has_tenant_key id) (closed now)
    pure tt
