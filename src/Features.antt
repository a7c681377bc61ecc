-- ===== src/Features.antt =====
-- src/feature-access/feature-access.service.ts: switching the modules of a tenant on and off. `id` is
-- the key that the database gives to a new row.
pub mod Switching
use node_vms.Prelude.{ℕ, Bool, true, false, ◌&&◌, Option, none, some, List, ◌==◌, is_none}
use node_vms.Schema.{FeatureAccess}
use node_vms.Database.Client.{Client}
use node_vms.Database.Action.{
  Db, Action, pure, ◌>>=◌, ◌>>◌, find_first, find_many, insert_row, update_row, references,
  put_features,
}

-- `where: { tenantId, moduleName, deletedAt: null }`
abbrev pub is_record : ℕ → ℕ → FeatureAccess → Bool
is_record tenant_id name f =
    f.tenant_id == tenant_id && (f.module_name == name && is_none f.deleted_at)

abbrev pub has_feature_id : ℕ → FeatureAccess → Bool
has_feature_id id f = f.id == id

abbrev pub switched : Bool → FeatureAccess → FeatureAccess
switched enabled f = record f { is_enabled = enabled }

abbrev pub new_feature : ℕ → ℕ → ℕ → Bool → FeatureAccess
new_feature id tenant_id name enabled = record {
  id = id;
  tenant_id = tenant_id;
  module_name = name;
  is_enabled = enabled;
  deleted_at = none;
}

module _ (c : Client) where
  pub find_all : ℕ → Action (List FeatureAccess)
  find_all tenant_id =
      find_many c (λ s. s.features) (λ f. f.tenant_id == tenant_id && is_none f.deleted_at)

  -- The body of `enable` and of `disable`.
  unfoldable pub switch : Bool → ℕ → ℕ → ℕ → Action FeatureAccess
  switch enabled id tenant_id name = do
    existing ← find_first c (λ s. s.features) (is_record tenant_id name)
    elim existing [
      | some f ↦
          update_row c (λ s. s.features) put_features (has_feature_id f.id) (switched enabled)
      | none ↦ do
        references c (λ s. s.tenants) (λ t. t.id == tenant_id)
        insert_row c (λ s. s.features) put_features (new_feature id tenant_id name enabled)
    ]

  unfoldable pub enable : ℕ → ℕ → ℕ → Action FeatureAccess
  enable id tenant_id name = switch true id tenant_id name

  unfoldable pub disable : ℕ → ℕ → ℕ → Action FeatureAccess
  disable id tenant_id name = switch false id tenant_id name
