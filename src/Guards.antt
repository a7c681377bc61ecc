-- ===== src/Guards.antt =====
-- src/common/guards: the four guards that src/app.module.ts runs before every handler, in its order.
-- The decorators' metadata (src/common/decorators) is the record `Route`. A guard answers true or
-- false, or throws; Nest turns false into a ForbiddenException.
pub mod Admitted
pub mod Revocation
pub mod Tokens
use node_vms.Prelude.{
  ℕ, String, Bool, true, false, ◌&&◌, not, Option, none, some, List, [], ◌∷◌, ◌==◌, is_none,
  is_some, given, if◌then◌else◌,
}
use node_vms.Schema.{
  User, Tenant, FeatureAccess, Role, role_eq, is_admin, is_super_admin, is_pending, is_rejected,
  is_suspended,
}
use node_vms.Database.Client.{Client}
use node_vms.Database.Errors.{Result, ok, err, unauthorized, forbidden}
use node_vms.Database.Action.{Db, Action, pure, throw, throw_if, or_throw, ◌>>=◌, ◌>>◌, find_first}
use node_vms.Auth.Crypto.{Payload, Jwt, Cache}
use node_vms.Auth.{Config, tenant_of}

-- @Public(), @Roles(…) and @Feature(…) on the handler or its class.
pub record Route : Type 0 where
  pub is_public : Bool
  pub roles : List Role
  pub feature : Option ℕ

-- What the guards read of a request: the cookie `access_token`, and what follows 'Bearer ' in the
-- header `authorization`. Empty texts count as absent.
pub record Request (Token : Type 0) : Type 0 where
  pub cookie : Option Token
  pub bearer : Option Token

abbrev pub extract_token : {Token : Type 0} → Request Token → Option Token
extract_token request = elim request.cookie [ some token ↦ some token | none ↦ request.bearer ]

-- `requiredRoles.includes(user.role)`
abbrev pub includes : List Role → Role → Bool
includes [] r = false
includes (x ∷ xs) r = if role_eq x r then true else includes xs r

module _ (j : Jwt) (r : Cache j.Token) (config : Config) (now : ℕ) (state : r.State) where
  -- The verified payload becomes `request.user`; a public route has none.
  unfoldable pub auth_guard : Route → Request j.Token → Action (Option Payload)
  auth_guard route request = elim route.is_public [
    | true ↦ pure none
    | false ↦ do
      token ← or_throw (extract_token request) (unauthorized "Missing authentication token")
      payload ←
          or_throw (j.verify config.jwt_secret token now) (unauthorized "Invalid or expired token")
      throw_if (given (r.get token now state)) (unauthorized "Token has been revoked")
      pure (some payload)
  ]

unfoldable pub roles_guard : Route → Option Payload → Action Bool
roles_guard route none =
    pure (elim route.is_public [
      | true ↦ true
      | false ↦ elim route.roles [ [] ↦ true | _ ∷ _ ↦ false ]
    ])
roles_guard route (some user) = elim route.is_public [
  | true ↦ pure true
  | false ↦ elim route.roles [
    | [] ↦ pure true
    | x ∷ xs ↦ elim (is_super_admin user.role) [
      | true ↦ pure true
      | false ↦ do
        throw_if (not (includes (x ∷ xs) user.role)) (forbidden "Insufficient permissions")
        pure true
    ]
  ]
]

-- `where: { id: user.sub, deletedAt: null }`
abbrev pub is_live_user : ℕ → User → Bool
is_live_user id u = u.id == id && is_none u.deleted_at

-- `where: { tenantId, moduleName, deletedAt: null }`
abbrev pub is_feature : ℕ → ℕ → FeatureAccess → Bool
is_feature tenant_id name f =
    f.tenant_id == tenant_id && (f.module_name == name && is_none f.deleted_at)

module _ (c : Client) where
  -- The checks of the stored account.
  unfoldable pub check_account : ℕ → Action Bool
  check_account sub = do
    found ← find_first c (λ s. s.users) (is_live_user sub)
    user ← or_throw found (unauthorized "User not found")
    tenant ← tenant_of c user
    throw_if (is_admin user.role && is_pending user.approval_status)
        (forbidden "Your account is pending approval by the platform administrator")
    throw_if (is_admin user.role && is_rejected user.approval_status)
        (forbidden "Your account application has been rejected")
    throw_if (is_admin user.role && is_suspended user.approval_status)
        (forbidden "Your account has been suspended")
    throw_if (not user.is_active) (unauthorized "Account is inactive")
    throw_if (not tenant.is_active) (forbidden "Tenant is suspended")
    pure true

  unfoldable pub tenant_guard : Route → Option Payload → Action Bool
  tenant_guard route none = pure route.is_public
  tenant_guard route (some user) = elim route.is_public [
    | true ↦ pure true
    | false ↦ elim (is_super_admin user.role) [ true ↦ pure true | false ↦ check_account user.sub ]
  ]

  -- No record means that the feature is enabled. The text leaves out the module's name, which the
  -- code quotes.
  unfoldable pub check_feature : ℕ → ℕ → Action Bool
  check_feature tenant_id name = do
    found ← find_first c (λ s. s.features) (is_feature tenant_id name)
    elim found [
      | none ↦ pure true
      | some f ↦ elim f.is_enabled [
        | true ↦ pure true
        | false ↦
            throw (forbidden "Module is disabled for your account. Contact your administrator.")
      ]
    ]

  unfoldable pub feature_guard : Route → Option Payload → Action Bool
  feature_guard route none =
      pure (elim route.is_public [ true ↦ true | false ↦ is_none route.feature ])
  feature_guard route (some user) = elim route.is_public [
    | true ↦ pure true
    | false ↦ elim route.feature [
      | none ↦ pure true
      | some name ↦ elim (is_super_admin user.role) [
        | true ↦ pure true
        | false ↦ check_feature user.tenant_id name
      ]
    ]
  ]

  -- APP_GUARD, in the order of app.module.ts: what the handler receives as the current user.
  unfoldable pub admit :
      (j : Jwt) (r : Cache j.Token)
      → Config
      → ℕ
      → r.State
      → Route
      → Request j.Token
      → Action (Option Payload)
  admit j r config now state route request = do
    user ← auth_guard j r config now state route request
    by_role ← roles_guard route user
    throw_if (not by_role) (forbidden "Forbidden resource")
    by_tenant ← tenant_guard route user
    throw_if (not by_tenant) (forbidden "Forbidden resource")
    by_feature ← feature_guard route user
    throw_if (not by_feature) (forbidden "Forbidden resource")
    pure user
