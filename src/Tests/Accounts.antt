-- ===== src/Tests/Accounts.antt =====
-- Accounts: admin-applications.service.ts and auth.service.ts on example tables.
use node_vms.Prelude.{◌≡◌, ◌↔◌, refl, true, none, some, arith, Listed}
use node_vms.Schema.{User, Tenant, ApprovalStatus, approved, suspended}
use node_vms.Database.Lists.{lists}
use node_vms.Database.Errors.{ok}
use node_vms.Database.Action.{Db}
use node_vms.AdminApplications.{approve, suspend, decided}
use node_vms.AdminApplications.Coherence.{Coherent}
use node_vms.AdminApplications.Transitions.{Decision, Follows, apply-Follows}
use node_vms.Auth.Crypto.{Payload}
use node_vms.Auth.{
  LoginDto, RegisterTenantDto, to_payload, tenant_of, create_account, register_tenant, login_user,
  sign_access_token, refresh, admin_row,
}
use node_vms.Auth.Login.{MayEnter, login_iff, refresh_sound}
use node_vms.Auth.Accounts.{credentials, register-approve-login}
use node_vms.Auth.History.{here, next, registers, decides, Reach-Coherent}
use node_vms.Tests.Data.{office, bob, acme}
use node_vms.Tests.Sessions.{shown_jwt, plain_bcrypt, config, ShownToken}

abbrev bob_logs_in : LoginDto
bob_logs_in = record { email = 22; password = 23 }

apply-Follows_example :
    Follows lists Decision.suspends 40
      (bob ApprovalStatus.approved true)
      office
      (some suspended)
      (suspend lists 40 office)
apply-Follows_example =
    apply-Follows lists 40 (bob ApprovalStatus.approved true) (acme true) office refl refl refl
      Decision.suspends ApprovalStatus.approved refl

login_iff_example :
    (login_user lists plain_bcrypt bob_logs_in office
      ≡ (ok (bob ApprovalStatus.approved true), office))
    ↔ ((plain_bcrypt.compare 23 23 ≡ true)
        × MayEnter (bob ApprovalStatus.approved true) (acme true))
login_iff_example =
    login_iff lists plain_bcrypt bob_logs_in office (bob ApprovalStatus.approved true) (acme true)
      refl refl

pub office-Coherent : Coherent office
office-Coherent = (λ e. (λ f. refl, λ f. refl), tt)

abbrev long_token : ShownToken
long_token = record {
  secret = 902;
  payload = to_payload (bob ApprovalStatus.approved true);
  expires = 1010;
}

abbrev fresh_token : ShownToken
fresh_token = record {
  secret = 901;
  payload = to_payload (bob ApprovalStatus.approved true);
  expires = 600;
}

refreshed : (refresh shown_jwt config 500 lists long_token office).0 ≡ ok fresh_token
unfolding refresh tenant_of sign_access_token
refreshed = refl

refresh_sound_example :
    (payload : Payload) × (u : User) × (t : Tenant) × (shown_jwt.verify 902 long_token 500
      ≡ some payload)
    × Listed u office.users
    × (u.id ≡ payload.sub)
    × (u.deleted_at ≡ none)
    × MayEnter u t
    × (t.id ≡ u.tenant_id)
    × (fresh_token ≡ sign_access_token shown_jwt config 500 u)
refresh_sound_example =
    refresh_sound shown_jwt config 500 lists long_token fresh_token office office-Coherent refreshed

abbrev joins : RegisterTenantDto
joins = record { tenant_name = 81; admin_name = 82; email = 83; password = 84 }

joined : (register_tenant lists plain_bcrypt 0 41 8 joins office).0 ≡ ok tt
unfolding register_tenant create_account
joined = refl

abbrev joined_db : Db
joined_db = (register_tenant lists plain_bcrypt 0 41 8 joins office).1

register-approve-login_example :
    let s' = (approve lists 41 joined_db).1 in
    login_user lists plain_bcrypt (credentials joins) s'
    ≡ (ok (decided approved true (admin_row 41 8 joins 84)), s')
register-approve-login_example =
    register-approve-login lists plain_bcrypt 0 41 8 joins office joined (λ e. ground arith, tt)
      (λ e. ground arith, tt)

Reach-Coherent_example : Coherent (approve lists 41 joined_db).1
Reach-Coherent_example =
    Reach-Coherent lists plain_bcrypt
      (next (next here (registers 0 41 8 joins refl)) (decides Decision.approves 41 refl))
      office-Coherent
