-- ===== src/Auth/History.antt =====
-- Accounts over time: every service that writes the user table. Registrations, the seeding of the
-- platform's account, the decisions and password resets of platform administrators, the requests of
-- users.service.ts, the changes of users to their own profiles and the removals of branches, in any
-- order, between writes of the other services, which leave the user table alone.
use node_vms.Prelude.{ℕ, Bool, ◌≡◌, refl, inl, inr, All-of_Listed, All-Listed, is_just, none, arith}
use node_vms.Schema.{Role}
use node_vms.Database.Client.{Client}
use node_vms.Database.Action.{Db}
use node_vms.AdminApplications.{reset_admin_password}
use node_vms.Database.Lookup.{All-update}
use node_vms.Users.{reset_subordinate_password}
use node_vms.Users.Changes.{reset_users}
use node_vms.Users.Privileged.{UserKeys, Safe, Step-Safe}
use node_vms.Users.Privileged
use node_vms.Profile.{
  ChangePasswordDto, ChangeNameDto, has_key, with_hash, with_name, find_active_user,
  change_password, change_name,
}
use node_vms.Branches
use node_vms.AdminApplications.Coherence.{
  IsCoherent, Coherent, approve-Coherent, reject-Coherent, suspend-Coherent, reactivate-Coherent,
  reset_admin_password-Coherent,
}
use node_vms.AdminApplications.Transitions.{Decision, apply}
use node_vms.Auth.Crypto.{Bcrypt}
use node_vms.Auth.{Config, RegisterTenantDto, SeedSuperAdminDto, register_tenant, seed_user}
use node_vms.Auth.Accounts.{register_tenant-Coherent, seed_user-Coherent}

module _ (c : Client) (b : Bcrypt) where
  -- One request, served to its end.
  pub data Step (s s' : Db) : Type 0 where
    registers :
        (salt user_id tenant_id : ℕ) (dto : RegisterTenantDto)
        → s' ≡ (register_tenant c b salt user_id tenant_id dto s).1
        → Step s s'
    seeds :
        (config : Config) (platform salt user_id tenant_id : ℕ) (dto : SeedSuperAdminDto)
        → s' ≡ (seed_user c b config platform salt user_id tenant_id dto s).1
        → Step s s'
    decides : (d : Decision) (user_id : ℕ) → s' ≡ (apply c d user_id s).1 → Step s s'
    resets :
        (user_id password salt : ℕ)
        → s' ≡ (reset_admin_password c user_id (b.hash salt password) s).1
        → Step s s'
    manages : (blank : ℕ → Bool) → UserKeys s.users → Privileged.Step c b blank s s' → Step s s'
    resets_for :
        (blank : ℕ → Bool) (salt tenant_id id new_password : ℕ) (role : Role)
        → s' ≡ (reset_subordinate_password c b blank salt tenant_id id new_password role s).1
        → Step s s'
    changes_password :
        (salt user_id : ℕ) (dto : ChangePasswordDto)
        → s' ≡ (change_password c b salt user_id dto s).1
        → Step s s'
    changes_name :
        (user_id : ℕ) (dto : ChangeNameDto) → s' ≡ (change_name c user_id dto s).1 → Step s s'
    removes_branch :
        (now tenant_id id : ℕ) → s' ≡ (Branches.remove c now tenant_id id s).1 → Step s s'
    others : s'.users ≡ s.users → Step s s'

  pub data Reach (s : Db) : Db → Type 0 where
    here : Reach s s
    next : {t u : Db} → Reach s t → Step t u → Reach s u

  apply-Coherent :
      (d : Decision) (user_id : ℕ) (s : Db) → Coherent s → Coherent (apply c d user_id s).1
  apply-Coherent Decision.approves user_id s h = approve-Coherent c user_id s h
  apply-Coherent Decision.rejects user_id s h = reject-Coherent c user_id s h
  apply-Coherent Decision.suspends user_id s h = suspend-Coherent c user_id s h
  apply-Coherent Decision.reactivates user_id s h = reactivate-Coherent c user_id s h

  -- Administrators are not managed by users.service.ts: their rows stay.
  manages-Coherent : (s s' : Db) → Safe s.users s'.users → Coherent s → Coherent s'
  manages-Coherent s s' (keys, same) h =
      All-of_Listed IsCoherent s'.users
        (λ u m e. All-Listed IsCoherent s.users h ((same u (rw e refl)).1 m) e)

  resets_for-Coherent :
      (blank : ℕ → Bool) (salt tenant_id id new_password : ℕ) (role : Role) (s : Db)
      → Coherent s
      → Coherent (reset_subordinate_password c b blank salt tenant_id id new_password role s).1
  resets_for-Coherent blank salt tenant_id id new_password role s h =
      elim (reset_users c b blank (λ x. x) tenant_id salt id s new_password role) [
        | inl e ↦ rw e h
        | inr (t, found, managed, e) ↦ rw e (All-update c IsCoherent _ _ s.users (λ u k _. k) h)
      ]

  change_password-Coherent :
      (salt user_id : ℕ) (dto : ChangePasswordDto) (s : Db)
      → Coherent s
      → Coherent (change_password c b salt user_id dto s).1
  unfolding change_password find_active_user
  change_password-Coherent salt user_id dto s h =
      let new =
        All-update c IsCoherent (has_key user_id) (with_hash (b.hash salt dto.new_password)) s.users
          (λ u k _. k) h in
      ground (arith, new)

  change_name-Coherent :
      (user_id : ℕ) (dto : ChangeNameDto) (s : Db)
      → Coherent s
      → Coherent (change_name c user_id dto s).1
  unfolding change_name find_active_user
  change_name-Coherent user_id dto s h =
      let new = All-update c IsCoherent (has_key user_id) (with_name dto) s.users (λ u k _. k) h in
      ground (arith, new)

  remove_branch-Coherent :
      (now tenant_id id : ℕ) (s : Db)
      → Coherent s
      → Coherent (Branches.remove c now tenant_id id s).1
  unfolding Branches.remove
  remove_branch-Coherent now tenant_id id s h =
      let new =
        All-update c IsCoherent (λ u. is_just u.branch_id id) (λ u. record u { branch_id = none })
          s.users (λ u k _. k) h in
      ground (arith, new)

  Step-Coherent : (s s' : Db) → Step s s' → Coherent s → Coherent s'
  Step-Coherent s s' (registers salt user_id tenant_id dto e) h =
      rw e (register_tenant-Coherent c b salt user_id tenant_id dto s h)
  Step-Coherent s s' (seeds config platform salt user_id tenant_id dto e) h =
      rw e (seed_user-Coherent c b config platform salt user_id tenant_id dto s h)
  Step-Coherent s s' (decides d user_id e) h = rw e (apply-Coherent d user_id s h)
  Step-Coherent s s' (resets user_id password salt e) h =
      rw e (reset_admin_password-Coherent c user_id s (b.hash salt password) h)
  Step-Coherent s s' (manages blank keys st) h =
      manages-Coherent s s' (Step-Safe c b blank s s' st keys) h
  Step-Coherent s s' (resets_for blank salt tenant_id id new_password role e) h =
      rw e (resets_for-Coherent blank salt tenant_id id new_password role s h)
  Step-Coherent s s' (changes_password salt user_id dto e) h =
      rw e (change_password-Coherent salt user_id dto s h)
  Step-Coherent s s' (changes_name user_id dto e) h = rw e (change_name-Coherent user_id dto s h)
  Step-Coherent s s' (removes_branch now tenant_id id e) h =
      rw e (remove_branch-Coherent now tenant_id id s h)
  Step-Coherent s s' (others e) h = rw e h

  -- No history of served requests, of whatever service writes accounts, makes an administrator's
  -- account active without being approved, or approved without being active, if the tables it starts
  -- from have none such. Requests of users.service.ts must find ids of users unique, and create
  -- accounts under fresh ones.
  pub Reach-Coherent : {s s' : Db} → Reach s s' → Coherent s → Coherent s'
  Reach-Coherent here h = h
  Reach-Coherent (next {t} {u} r st) h = Step-Coherent t u st (Reach-Coherent r h)
