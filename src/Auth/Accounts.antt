-- ===== src/Auth/Accounts.antt =====
-- auth.service.ts: what becomes of an account that `registerTenant` opens.
use node_vms.Prelude.{
  ℕ, ◌≡◌, ◌≢◌, refl, sym, ap, subst, ◌∙◌, ◌⊎◌, inl, inr, Bool, true, false, none, some, arith, All,
  All-Listed, Listed,
}
use node_vms.Schema.{User, Tenant, ApprovalStatus, approved}
use node_vms.Database.Client.{Client}
use node_vms.Database.Errors.{ok, err, forbidden}
use node_vms.Database.Action.{Db}
use node_vms.Database.Lookup.{All-insert, find_first-Unique, Listed-insert_self}
use node_vms.Database.Pairs.{changed, Listed-inserted, Listed-changed, Listed-update}
use node_vms.AdminApplications.{
  is_admin_user, has_user_id, has_tenant_id, decided, with_active, approve,
}
use node_vms.AdminApplications.Transitions.{Decision, apply-Follows}
use node_vms.AdminApplications.Coherence.{IsCoherent, Coherent}
use node_vms.Auth.Crypto.{Bcrypt}
use node_vms.Auth.{
  LoginDto, RegisterTenantDto, SeedSuperAdminDto, Config, seed_user, super_admin_row, has_email,
  is_tenant, tenant_row, admin_row, create_account, register_tenant, login_user, tenant_of,
}
use node_vms.Auth.Login.{login_iff}

-- The tables after a registration.
abbrev registered : Client → Bcrypt → ℕ → ℕ → ℕ → RegisterTenantDto → Db → Db
registered c b salt user_id tenant_id dto s = record s {
  tenants = c.insert (tenant_row tenant_id dto.tenant_name false) s.tenants;
  users = c.insert (admin_row user_id tenant_id dto (b.hash salt dto.password)) s.users;
}

-- The request that logs in with the registered email and password.
abbrev pub credentials : RegisterTenantDto → LoginDto
credentials dto = record { email = dto.email; password = dto.password }

module _ (c : Client) (b : Bcrypt) (salt user_id tenant_id : ℕ) (dto : RegisterTenantDto)
    (s : Db) where
  register_cases :
      ((register_tenant c b salt user_id tenant_id dto s).1 ≡ s)
      ⊎ ((register_tenant c b salt user_id tenant_id dto s).1
          ≡ registered c b salt user_id tenant_id dto s)
  unfolding register_tenant create_account
  register_cases = ground arith

  register_ok :
      (register_tenant c b salt user_id tenant_id dto s).0 ≡ ok tt
      → (c.find_first (has_email dto.email) s.users ≡ none)
        × ((register_tenant c b salt user_id tenant_id dto s).1
            ≡ registered c b salt user_id tenant_id dto s)
  unfolding register_tenant create_account
  register_ok h = ground arith

  -- A registration keeps accounts coherent.
  pub register_tenant-Coherent :
      Coherent s → Coherent (register_tenant c b salt user_id tenant_id dto s).1
  register_tenant-Coherent h = elim register_cases [
    | inl e ↦ rw e h
    | inr e ↦ rw e (
        All-insert c IsCoherent (admin_row user_id tenant_id dto (b.hash salt dto.password)) s.users
          (λ _. (λ x. cc, λ x. cc)) h)
  ]

-- The seeded account is no administrator of a tenant.
pub seed_user-Coherent :
    (c : Client) (b : Bcrypt) (config : Config) (platform salt user_id tenant_id : ℕ)
    (dto : SeedSuperAdminDto) (s : Db)
    → Coherent s
    → Coherent (seed_user c b config platform salt user_id tenant_id dto s).1
unfolding seed_user create_account
seed_user-Coherent c b config platform salt user_id tenant_id dto s h =
    let new =
      All-insert c IsCoherent (super_admin_row user_id tenant_id dto (b.hash salt dto.password))
        s.users (λ e. absurd (ground arith)) h in
    ground (arith, new)

module _ (c : Client) (b : Bcrypt) (salt user_id tenant_id : ℕ) (dto : RegisterTenantDto) (s : Db)
    (done : (register_tenant c b salt user_id tenant_id dto s).0 ≡ ok tt)
    (fresh_user : All (λ u. u.id ≢ user_id) s.users)
    (fresh_tenant : All (λ t. t.id ≢ tenant_id) s.tenants) where
  abbrev row : User
  row = admin_row user_id tenant_id dto (b.hash salt dto.password)

  abbrev home : Tenant
  home = tenant_row tenant_id dto.tenant_name false

  abbrev after : Db
  after = registered c b salt user_id tenant_id dto s

  only_row : (u : User) → Listed u after.users → u.id ≡ user_id → u ≡ row
  only_row u m e = elim (Listed-inserted c s.users u row m) [
    | inl p ↦ p
    | inr p ↦ absurd (All-Listed _ s.users fresh_user p e)
  ]

  only_home : (t : Tenant) → Listed t after.tenants → t.id ≡ tenant_id → t ≡ home
  only_home t m e = elim (Listed-inserted c s.tenants t home m) [
    | inl p ↦ p
    | inr p ↦ absurd (All-Listed _ s.tenants fresh_tenant p e)
  ]

  only_email : (u : User) → Listed u after.users → has_email dto.email u ≡ true → u ≡ row
  only_email u m e = elim (Listed-inserted c s.users u row m) [
    | inl p ↦ p
    | inr p ↦
        let none_had =
          All-Listed _ s.users
            (c.find_first-none _ _ (register_ok c b salt user_id tenant_id dto s done).0) p in
        absurd (ground arith)
  ]

  found_row :
      (p : User → Bool)
      → ((u : User) → Listed u after.users → p u ≡ true → u ≡ row)
      → p row ≡ true
      → c.find_first p after.users ≡ some row
  found_row p k hit =
      find_first-Unique c p after.users row (λ x y m n q r. k x m q ∙ sym (k y n r))
        (Listed-insert_self c s.users) hit

  found_home : c.find_first (is_tenant tenant_id) after.tenants ≡ some home
  found_home =
      find_first-Unique c (is_tenant tenant_id) after.tenants home
        (λ x y m n q r. only_home x m (ground arith) ∙ sym (only_home y n (ground arith)))
        (Listed-insert_self c s.tenants) (ground arith)

  refused :
      login_user c b (credentials dto) after
      ≡ (err (forbidden "Your account is pending approval by the platform administrator"), after)
  unfolding login_user tenant_of
  refused = ground (
    arith,
    found_row (has_email dto.email) only_email (ground arith),
    found_home,
    b.compare-hash salt dto.password,
  )

  -- Right after a registration the new administrator cannot log in with the registered email and
  -- password: the answer is that the account is pending. The new keys must be fresh.
  pub register_tenant_is_pending :
      let s' = (register_tenant c b salt user_id tenant_id dto s).1 in
      login_user c b (credentials dto) s'
      ≡ (err (forbidden "Your account is pending approval by the platform administrator"), s')
  register_tenant_is_pending = rw (register_ok c b salt user_id tenant_id dto s done).1 refused

  abbrev approved_row : User
  approved_row = decided approved true row

  abbrev open_home : Tenant
  open_home = with_active true home

  abbrev opened : Db
  opened = record after {
    users = c.update (has_user_id user_id) (decided approved true) after.users;
    tenants = c.update (has_tenant_id tenant_id) (with_active true) after.tenants;
  }

  approve_opens : (approve c user_id after).1 ≡ opened
  approve_opens =
      (apply-Follows c user_id row home after
        (found_row (is_admin_user user_id) (λ u m e. only_row u m (ground arith)) (ground arith))
        (found_row (has_user_id user_id) (λ u m e. only_row u m (ground arith)) (ground arith))
        found_home Decision.approves ApprovalStatus.pending refl).1

  approved_email :
      (u : User) → Listed u opened.users → has_email dto.email u ≡ true → u ≡ approved_row
  approved_email u m e =
      let (v, n, q) =
        Listed-update c (has_user_id user_id) (decided approved true) after.users u m in
      let same = only_email v n (ground arith) in
      q ∙ ap (changed (has_user_id user_id) (decided approved true)) same ∙ ground arith

  open_tenant :
      (t : Tenant) → Listed t opened.tenants → is_tenant tenant_id t ≡ true → t ≡ open_home
  open_tenant t m e =
      let (v, n, q) =
        Listed-update c (has_tenant_id tenant_id) (with_active true) after.tenants t m in
      let same = only_home v n (ground arith) in
      q ∙ ap (changed (has_tenant_id tenant_id) (with_active true)) same ∙ ground arith

  approved_listed : Listed approved_row opened.users
  approved_listed =
      subst (λ u. Listed u opened.users) (ground arith)
        (Listed-changed c (has_user_id user_id) (decided approved true) after.users row
          (Listed-insert_self c s.users))

  open_listed : Listed open_home opened.tenants
  open_listed =
      subst (λ t. Listed t opened.tenants) (ground arith)
        (Listed-changed c (has_tenant_id tenant_id) (with_active true) after.tenants home
          (Listed-insert_self c s.tenants))

  let_in : login_user c b (credentials dto) opened ≡ (ok approved_row, opened)
  let_in =
      (login_iff c b (credentials dto) opened approved_row open_home
          (find_first-Unique c (has_email dto.email) opened.users approved_row
            (λ x y m n q r. approved_email x m q ∙ sym (approved_email y n r)) approved_listed
            (ground arith))
          (find_first-Unique c (is_tenant tenant_id) opened.tenants open_home
            (λ x y m n q r. open_tenant x m q ∙ sym (open_tenant y n r)) open_listed
            (ground arith))).1
        (
          b.compare-hash salt dto.password,
          record { approved = λ _. refl; active = refl; tenant_active = refl },
        )

  -- Once the platform administrator has approved a new registration, the registered email and
  -- password log the account in. The new keys must be fresh.
  pub register-approve-login :
      let s' = (approve c user_id (register_tenant c b salt user_id tenant_id dto s).1).1 in
      login_user c b (credentials dto) s' ≡ (
        ok (decided approved true (admin_row user_id tenant_id dto (b.hash salt dto.password))),
        s',
      )
  register-approve-login =
      rw ((register_ok c b salt user_id tenant_id dto s done).1, approve_opens) let_in
