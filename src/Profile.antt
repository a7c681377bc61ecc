-- ===== src/Profile.antt =====
-- src/profile/profile.service.ts, with its DTOs: what users change of their own accounts. `salt` is
-- what bcrypt draws.
pub mod Password
use node_vms.Prelude.{ℕ, Bool, true, false, ◌&&◌, not, Option, none, some, ◌==◌, is_none}
use node_vms.Schema.{User}
use node_vms.Database.Client.{Client}
use node_vms.Database.Errors.{not_found, unauthorized, bad_request}
use node_vms.Database.Action.{
  Db, Action, pure, throw_if, or_throw, ◌>>=◌, ◌>>◌, find_first, update_row, put_users,
}
use node_vms.Auth.Crypto.{Bcrypt}

pub record ChangePasswordDto : Type 0 where
  pub current_password : ℕ
  pub new_password : ℕ

pub record ChangeNameDto : Type 0 where
  pub name : ℕ

-- `where: { id, deletedAt: null }`
abbrev pub is_live : ℕ → User → Bool
is_live id u = u.id == id && is_none u.deleted_at

abbrev pub has_key : ℕ → User → Bool
has_key id u = u.id == id

abbrev pub with_hash : ℕ → User → User
with_hash hash u = record u { password = hash }

abbrev pub with_name : ChangeNameDto → User → User
with_name dto u = record u { name = dto.name }

module _ (c : Client) where
  unfoldable pub find_active_user : ℕ → Action User
  find_active_user id = do
    found ← find_first c (λ s. s.users) (is_live id)
    or_throw found (not_found "User not found")

  unfoldable pub change_password : Bcrypt → ℕ → ℕ → ChangePasswordDto → Action (Unit {0})
  change_password b salt user_id dto = do
    user ← find_active_user user_id
    throw_if (not (b.compare dto.current_password user.password))
        (unauthorized "Current password is incorrect")
    throw_if (dto.current_password == dto.new_password)
        (bad_request "New password must be different from the current password")
    row ←
        update_row c (λ s. s.users) put_users (has_key user_id)
          (with_hash (b.hash salt dto.new_password))
    pure tt

  unfoldable pub change_name : ℕ → ChangeNameDto → Action User
  change_name user_id dto = do
    user ← find_active_user user_id
    update_row c (λ s. s.users) put_users (has_key user_id) (with_name dto)

  pub get_profile : ℕ → Action User
  get_profile user_id = do
    found ← find_first c (λ s. s.users) (is_live user_id)
    or_throw found (not_found "User not found")
