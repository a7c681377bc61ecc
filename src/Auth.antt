-- ===== src/Auth.antt =====
-- src/auth/auth.service.ts with its DTOs and src/auth/interfaces/jwt-payload.interface.ts. Secrets,
-- the clock and bcrypt's salt are arguments; bcrypt, the JWT library and Redis are the interfaces of
-- Auth/Crypto.antt. Validation of the DTOs is class-validator's.
pub mod Crypto
pub mod Login
pub mod Accounts
pub mod Sessions
pub mod History
use node_vms.Prelude.{
  ℕ, String, Bool, true, false, ◌&&◌, not, Option, none, some, List, ltb, ◌==◌, ◌-◌, ◌/◌, is_none,
  is_some, if◌then◌else◌,
}
use node_vms.Schema.{
  User, Tenant, Role, is_admin, is_super_admin, ApprovalStatus, is_pending, is_rejected,
  is_suspended,
}
use node_vms.Database.Client.{Client}
use node_vms.Database.Errors.{Result, ok, err, unauthorized, forbidden, conflict, record_not_found}
use node_vms.Database.Action.{
  Db, Action, pure, throw_if, or_throw, transaction, ◌>>=◌, ◌>>◌, find_first, insert_row, unique,
  put_users, put_tenants,
}
use Crypto.{Payload, Bcrypt, Jwt, Cache}

pub record LoginDto : Type 0 where
  pub email : ℕ
  pub password : ℕ

pub record RegisterTenantDto : Type 0 where
  pub tenant_name : ℕ
  pub admin_name : ℕ
  pub email : ℕ
  pub password : ℕ

pub record SeedSuperAdminDto : Type 0 where
  pub name : ℕ
  pub email : ℕ
  pub password : ℕ
  pub seed_secret : ℕ

-- JWT_SECRET, JWT_REFRESH_SECRET, SEED_SECRET, and the two lifetimes in seconds.
pub record Config : Type 0 where
  pub jwt_secret : ℕ
  pub jwt_refresh_secret : ℕ
  pub seed_secret : ℕ
  pub jwt_expires_in : ℕ
  pub jwt_refresh_expires_in : ℕ

-- `where: { email, deletedAt: null }`
abbrev pub has_email : ℕ → User → Bool
has_email email u = u.email == email && is_none u.deleted_at

-- `where: { id: payload.sub, deletedAt: null, isActive: true }`
abbrev pub is_active_user : ℕ → User → Bool
is_active_user id u = u.id == id && (is_none u.deleted_at && u.is_active)

abbrev pub is_tenant : ℕ → Tenant → Bool
is_tenant id t = t.id == id

abbrev pub to_payload : User → Payload
to_payload user = record {
  sub = user.id;
  email = user.email;
  role = user.role;
  tenant_id = user.tenant_id;
}

abbrev pub admin_row : ℕ → ℕ → RegisterTenantDto → ℕ → User
admin_row id tenant_id dto hash = record {
  id = id;
  tenant_id = tenant_id;
  branch_id = none;
  name = dto.admin_name;
  email = dto.email;
  password = hash;
  role = Role.admin;
  approval_status = ApprovalStatus.pending;
  is_active = false;
  deleted_at = none;
}

abbrev pub super_admin_row : ℕ → ℕ → SeedSuperAdminDto → ℕ → User
super_admin_row id tenant_id dto hash = record {
  id = id;
  tenant_id = tenant_id;
  branch_id = none;
  name = dto.name;
  email = dto.email;
  password = hash;
  role = Role.super_admin;
  approval_status = ApprovalStatus.approved;
  is_active = true;
  deleted_at = none;
}

abbrev pub tenant_row : ℕ → ℕ → Bool → Tenant
tenant_row id name active = record { id = id; name = name; is_active = active; deleted_at = none }

module _ (c : Client) where
  -- `include: { tenant: true }`: the foreign key names a row.
  unfoldable pub tenant_of : User → Action Tenant
  tenant_of user = do
    found ← find_first c (λ s. s.tenants) (is_tenant user.tenant_id)
    or_throw found record_not_found

  -- The nested `create` of a tenant with one user.
  unfoldable pub create_account : Tenant → User → Action User
  create_account tenant user = transaction (do
    unique c (λ s. s.users) (λ u. u.email == user.email)
    created ← insert_row c (λ s. s.tenants) put_tenants tenant
    insert_row c (λ s. s.users) put_users user)

  module _ (b : Bcrypt) where
    -- The decision of `login`, up to the tokens.
    unfoldable pub login_user : LoginDto → Action User
    login_user dto = do
      found ← find_first c (λ s. s.users) (has_email dto.email)
      user ← or_throw found (unauthorized "Invalid credentials")
      tenant ← tenant_of user
      throw_if (not (b.compare dto.password user.password)) (unauthorized "Invalid credentials")
      throw_if (is_admin user.role && is_pending user.approval_status)
          (forbidden "Your account is pending approval by the platform administrator")
      throw_if (is_admin user.role && is_rejected user.approval_status)
          (forbidden "Your account application has been rejected")
      throw_if (is_admin user.role && is_suspended user.approval_status)
          (forbidden "Your account has been suspended")
      throw_if (not user.is_active) (unauthorized "Account is inactive")
      throw_if (not tenant.is_active) (forbidden "Tenant is suspended")
      pure user

    -- `user_id` and `tenant_id` are the keys of the new rows.
    unfoldable pub register_tenant : ℕ → ℕ → ℕ → RegisterTenantDto → Action (Unit {0})
    register_tenant salt user_id tenant_id dto = do
      existing ← find_first c (λ s. s.users) (has_email dto.email)
      throw_if (is_some existing) (conflict "Email already in use")
      created ←
          create_account (tenant_row tenant_id dto.tenant_name false)
            (admin_row user_id tenant_id dto (b.hash salt dto.password))
      pure tt

    -- `platform` is the name 'Platform (System)'.
    pub seed_user : Config → ℕ → ℕ → ℕ → ℕ → SeedSuperAdminDto → Action User
    seed_user config platform salt user_id tenant_id dto = do
      throw_if (not (dto.seed_secret == config.seed_secret)) (forbidden "Invalid seed secret")
      existing ← find_first c (λ s. s.users) (λ u. is_super_admin u.role && is_none u.deleted_at)
      throw_if (is_some existing) (conflict "Super admin already exists")
      taken ← find_first c (λ s. s.users) (has_email dto.email)
      throw_if (is_some taken) (conflict "Email already in use")
      create_account (tenant_row tenant_id platform true)
          (super_admin_row user_id tenant_id dto (b.hash salt dto.password))

module _ (j : Jwt) (config : Config) (now : ℕ) where
  unfoldable pub sign_access_token : User → j.Token
  sign_access_token user = j.sign config.jwt_secret (to_payload user) now config.jwt_expires_in

  unfoldable pub sign_refresh_token : User → j.Token
  sign_refresh_token user =
      j.sign config.jwt_refresh_secret (to_payload user) now config.jwt_refresh_expires_in

  unfoldable pub generate_token_pair : User → j.Token × j.Token
  generate_token_pair user = (sign_access_token user, sign_refresh_token user)

  module _ (c : Client) (b : Bcrypt) where
    unfoldable pub login : LoginDto → Action (j.Token × j.Token)
    login dto = do user ← login_user c b dto; pure (generate_token_pair user)

    pub seed_super_admin : ℕ → ℕ → ℕ → ℕ → SeedSuperAdminDto → Action (j.Token × j.Token)
    seed_super_admin platform salt user_id tenant_id dto = do
      user ← seed_user c b config platform salt user_id tenant_id dto
      pure (generate_token_pair user)

  unfoldable pub refresh : Client → j.Token → Action j.Token
  refresh c token = do
    payload ←
        or_throw (j.verify config.jwt_refresh_secret token now)
          (unauthorized "Invalid refresh token")
    found ← find_first c (λ s. s.users) (is_active_user payload.sub)
    user ← or_throw found (unauthorized "Invalid refresh token")
    tenant ← tenant_of c user
    throw_if (not tenant.is_active) (unauthorized "Invalid refresh token")
    pure (sign_access_token user)

  -- `exp` is the token's end of life in seconds, `now` the clock's time in seconds.
  unfoldable pub logout : (r : Cache j.Token) → j.Token → ℕ → r.State → Option r.State
  logout r token exp state = if ltb now exp then r.set token 1 (exp - now) now state else some state

  -- A cache that cannot be reached counts as one that does not list the token.
  pub is_token_blacklisted : (r : Cache j.Token) → j.Token → r.State → Bool
  is_token_blacklisted r token state = is_some (r.get token now state)
