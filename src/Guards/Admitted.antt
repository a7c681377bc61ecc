-- ===== src/Guards/Admitted.antt =====
-- What a request that passes the four guards of src/common/guards has shown.
use node_vms.Prelude.{
  ℕ, ◌≡◌, refl, ◌⊎◌, inl, inr, true, false, Option, none, some, [], arith, All, Listed,
  Option-cases, Bool-cases, given,
}
use node_vms.Schema.{User, Tenant, FeatureAccess, Role, is_super_admin}
use node_vms.Database.Client.{Client}
use node_vms.Database.Errors.{ok}
use node_vms.Database.Action.{Db}
use node_vms.Auth.Crypto.{Payload, Jwt, Cache}
use node_vms.Auth.{Config, is_tenant, tenant_of}
use node_vms.Auth.Login.{MayEnter}
use node_vms.Guards.{
  Route, Request, extract_token, includes, auth_guard, roles_guard, is_live_user, is_feature,
  check_account, tenant_guard, check_feature, feature_guard, admit,
}

-- The account that a token names is stored, not deleted, and may enter.
pub record HasAccount (sub : ℕ) (s : Db) : Type 0 where
  pub user : User
  pub tenant : Tenant
  pub listed : Listed user s.users
  pub named : user.id ≡ sub
  pub live : user.deleted_at ≡ none
  pub home : Listed tenant s.tenants
  pub same_tenant : tenant.id ≡ user.tenant_id
  pub enters : MayEnter user tenant

-- The tenant has no record of the module, or some record that enables it.
abbrev pub IsEnabled : ℕ → ℕ → Db → Type 0
IsEnabled tenant_id name s =
    All (λ f. is_feature tenant_id name f ≡ false) s.features
    ⊎ ((f : FeatureAccess) × Listed f s.features
        × (is_feature tenant_id name f ≡ true)
        × (f.is_enabled ≡ true))

-- What the stored data grant to the user of a request; SUPER_ADMIN needs none of it.
pub record IsGranted (route : Route) (p : Payload) (s : Db) : Type 0 where
  pub role : (route.roles ≡ []) ⊎ (includes route.roles p.role ≡ true)
  pub account : HasAccount p.sub s
  pub feature : (name : ℕ) → route.feature ≡ some name → IsEnabled p.tenant_id name s

module _ (c : Client) (s : Db) where
  check_account_sound : (sub : ℕ) → (check_account c sub s).0 ≡ ok true → HasAccount sub s
  unfolding check_account tenant_of
  check_account_sound sub h = elim (Option-cases (c.find_first (is_live_user sub) s.users)) [
    | inl e ↦ absurd (ground arith)
    | inr (u, eu) ↦ elim (Option-cases (c.find_first (is_tenant u.tenant_id) s.tenants)) [
      | inl e ↦ absurd (ground arith)
      | inr (t, et) ↦
          let (mu, ku) = c.find_first-some _ _ u eu in
          let (mt, kt) = c.find_first-some _ _ t et in
          record {
            user = u;
            tenant = t;
            listed = mu;
            named = ground arith;
            live = ground arith;
            home = mt;
            same_tenant = ground arith;
            enters = record {
              approved = λ e. ground arith;
              active = ground arith;
              tenant_active = ground arith;
            };
          }
    ]
  ]

  check_feature_sound :
      (tenant_id name : ℕ)
      → (check_feature c tenant_id name s).0 ≡ ok true
      → IsEnabled tenant_id name s
  unfolding check_feature
  check_feature_sound tenant_id name h =
      elim (Option-cases (c.find_first (is_feature tenant_id name) s.features)) [
        | inl e ↦ inl (c.find_first-none _ _ e)
        | inr (f, e) ↦ let (m, k) = c.find_first-some _ _ f e in inr (f, m, k, ground arith)
      ]

  pub check_account-keeps : (sub : ℕ) → (check_account c sub s).1 ≡ s
  unfolding check_account tenant_of
  check_account-keeps sub = ground arith

  pub check_feature-keeps : (tenant_id name : ℕ) → (check_feature c tenant_id name s).1 ≡ s
  unfolding check_feature
  check_feature-keeps tenant_id name = ground arith

module _ (c : Client) (j : Jwt) (r : Cache j.Token) (config : Config) (now : ℕ) (state : r.State)
    (route : Route) (request : Request j.Token) (s : Db) (closed : route.is_public ≡ false) where
  -- The first guard: a token that verifies and for which the cache answers nothing, be it that the
  -- cache does not list it or that the cache is not reached.
  pub record HasToken (p : Payload) : Type 1 where
    pub token : j.Token
    pub sent : extract_token request ≡ some token
    pub verified : j.verify config.jwt_secret token now ≡ some p
    pub unlisted : given (r.get token now state) ≡ false

  auth_guard_sound :
      (user : Option Payload)
      → (auth_guard j r config now state route request s).0 ≡ ok user
      → (p : Payload) × (user ≡ some p) × HasToken p
  unfolding auth_guard
  auth_guard_sound user h = elim (Option-cases (extract_token request)) [
    | inl e ↦ absurd (ground arith)
    | inr (token, et) ↦ elim (Option-cases (j.verify config.jwt_secret token now)) [
      | inl e ↦ absurd (ground arith)
      | inr (p, ep) ↦ (
        p,
        ground arith,
        record { token = token; sent = et; verified = ep; unlisted = ground arith },
      )
    ]
  ]

  auth_guard-keeps : (auth_guard j r config now state route request s).1 ≡ s
  unfolding auth_guard
  auth_guard-keeps = ground arith

  roles_guard-keeps : (user : Option Payload) → (roles_guard route user s).1 ≡ s
  unfolding roles_guard
  roles_guard-keeps none = refl
  roles_guard-keeps (some p) = ground arith

  tenant_guard-keeps : (user : Option Payload) → (tenant_guard c route user s).1 ≡ s
  unfolding tenant_guard
  tenant_guard-keeps none = refl
  tenant_guard-keeps (some p) = ground (arith, check_account-keeps c s p.sub)

  -- An admitted request has passed all four, each on the same tables.
  admit_parts :
      (user : Option Payload)
      → (admit c j r config now state route request s).0 ≡ ok user
      → ((auth_guard j r config now state route request s).0 ≡ ok user)
        × ((roles_guard route user s).0 ≡ ok true)
        × ((tenant_guard c route user s).0 ≡ ok true)
        × ((feature_guard c route user s).0 ≡ ok true)
  unfolding admit
  admit_parts user h =
      ground (arith, auth_guard-keeps, roles_guard-keeps user, tenant_guard-keeps user)

  granted :
      (p : Payload)
      → is_super_admin p.role ≡ false
      → (roles_guard route (some p) s).0 ≡ ok true
      → (tenant_guard c route (some p) s).0 ≡ ok true
      → (feature_guard c route (some p) s).0 ≡ ok true
      → IsGranted route p s
  unfolding roles_guard tenant_guard feature_guard
  granted p plain by_role by_tenant by_feature = record {
    role = ground arith;
    account = check_account_sound c s p.sub (ground arith);
    feature = λ name e. check_feature_sound c s p.tenant_id name (ground arith);
  }

  -- A request that reaches the handler of a route that is not public carries a token which verifies
  -- and for which the cache answers nothing or the empty text, and unless the token says
  -- SUPER_ADMIN: its role is one of those that the route lists, if the route lists any; its account
  -- is stored, live, active and, for an administrator, approved; its tenant is active; and if the
  -- route names a module, the token's tenant has no record of the module or some record that enables
  -- it. The cache answers nothing also where it is not reached.
  pub admit_sound :
      (user : Option Payload)
      → (admit c j r config now state route request s).0 ≡ ok user
      → (p : Payload) × (user ≡ some p)
        × HasToken p
        × ((p.role ≡ Role.super_admin) ⊎ IsGranted route p s)
  admit_sound user h =
      let (auth, by_role, by_tenant, by_feature) = admit_parts user h in
      let (p, e, token) = auth_guard_sound user auth in
      (
        p,
        e,
        token,
        elim (Bool-cases (is_super_admin p.role)) [
          | inl super ↦ inl (ground arith)
          | inr plain ↦
              inr (granted p plain (rw e at by_role) (rw e at by_tenant) (rw e at by_feature))
        ],
      )
