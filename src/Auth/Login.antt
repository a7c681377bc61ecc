-- ===== src/Auth/Login.antt =====
-- auth.service.ts: who is let in by `login` and `refresh`.
use node_vms.Prelude.{
  ℕ, ◌≡◌, ◌↔◌, inl, inr, true, none, some, arith, Listed, All-Listed, Option-cases, Bool-cases,
}
use node_vms.Schema.{User, Tenant, Role, is_admin, ApprovalStatus}
use node_vms.Database.Client.{Client}
use node_vms.Database.Errors.{ok}
use node_vms.Database.Action.{Db}
use node_vms.AdminApplications.Coherence.{IsCoherent, Coherent}
use node_vms.Auth.Crypto.{Payload, Bcrypt, Jwt}
use node_vms.Auth.{
  LoginDto, Config, has_email, is_active_user, is_tenant, tenant_of, login_user, sign_access_token,
  refresh,
}

-- An account that may use the platform: an administrator's must be approved, and the account and
-- its tenant must be active.
pub record MayEnter (u : User) (t : Tenant) : Type 0 where
  pub approved : u.role ≡ Role.admin → u.approval_status ≡ ApprovalStatus.approved
  pub active : u.is_active ≡ true
  pub tenant_active : t.is_active ≡ true

module _ (c : Client) (b : Bcrypt) (dto : LoginDto) (s : Db) (u : User) (t : Tenant)
    (found : c.find_first (has_email dto.email) s.users ≡ some u)
    (home : c.find_first (is_tenant u.tenant_id) s.tenants ≡ some t) where
  login-MayEnter :
      login_user c b dto s ≡ (ok u, s) → (b.compare dto.password u.password ≡ true) × MayEnter u t
  unfolding login_user tenant_of
  login-MayEnter h = (
    ground arith,
    record { approved = λ e. ground arith; active = ground arith; tenant_active = ground arith },
  )

  MayEnter-login :
      b.compare dto.password u.password ≡ true → MayEnter u t → login_user c b dto s ≡ (ok u, s)
  unfolding login_user tenant_of
  MayEnter-login p m = elim (Bool-cases (is_admin u.role)) [
    | inl e ↦ let status = m.approved (ground arith) in ground arith
    | inr e ↦ ground arith
  ]

  -- The account with the given email is logged in exactly when the password is right and the
  -- account may enter; a login changes no table. The account's tenant must exist.
  pub login_iff :
      (login_user c b dto s ≡ (ok u, s))
      ↔ ((b.compare dto.password u.password ≡ true) × MayEnter u t)
  login_iff = (login-MayEnter, λ h. MayEnter-login h.0 h.1)

module _ (j : Jwt) (config : Config) (now : ℕ) (c : Client) (token new : j.Token) (s : Db) where
  -- If every administrator's account is active exactly when it is approved, a refresh that succeeds
  -- has found the live, active account that the refresh token names, in an active tenant, approved if
  -- it is an administrator's, although `refresh` does not ask, and issues an access token for it.
  pub refresh_sound :
      Coherent s
      → (refresh j config now c token s).0 ≡ ok new
      → (payload : Payload) × (u : User) × (t : Tenant) × (j.verify config.jwt_refresh_secret token
            now
          ≡ some payload)
        × Listed u s.users
        × (u.id ≡ payload.sub)
        × (u.deleted_at ≡ none)
        × MayEnter u t
        × (t.id ≡ u.tenant_id)
        × (new ≡ sign_access_token j config now u)
  unfolding refresh tenant_of
  refresh_sound coherent h = elim (Option-cases (j.verify config.jwt_refresh_secret token now)) [
    | inl e ↦ absurd (ground arith)
    | inr (payload, ep) ↦ elim (Option-cases (c.find_first (is_active_user payload.sub) s.users)) [
      | inl e ↦ absurd (ground arith)
      | inr (u, eu) ↦ elim (Option-cases (c.find_first (is_tenant u.tenant_id) s.tenants)) [
        | inl e ↦ absurd (ground arith)
        | inr (t, et) ↦
            let (mu, ku) = c.find_first-some _ _ u eu in
            let (mt, kt) = c.find_first-some _ _ t et in
            let sound = All-Listed IsCoherent s.users coherent mu in
            (
              payload,
              u,
              t,
              ep,
              mu,
              ground arith,
              ground arith,
              record {
                approved = λ e. (sound e).0 (ground arith);
                active = ground arith;
                tenant_active = ground arith;
              },
              ground arith,
              ground arith,
            )
      ]
    ]
  ]
