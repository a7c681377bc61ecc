-- ===== src/Tests/Guards.antt =====
-- The guards on example requests.
use node_vms.Prelude.{◌≡◌, ◌≢◌, ◌⊎◌, refl, true, false, none, some, arith, [], ◌∷◌}
use node_vms.Schema.{User, Role, ApprovalStatus, suspended}
use node_vms.Database.Lists.{lists}
use node_vms.Database.Errors.{ok}
use node_vms.AdminApplications.{suspend, decide}
use node_vms.Auth.Crypto.{Payload}
use node_vms.Auth.{LoginDto, to_payload, tenant_of, logout}
use node_vms.Guards.{
  Route, Request, auth_guard, roles_guard, check_account, tenant_guard, check_feature,
  feature_guard, admit,
}
use node_vms.Guards.Admitted.{HasToken, IsGranted, admit_sound}
use node_vms.Guards.Revocation.{suspend_revokes}
use node_vms.Guards.Tokens.{logout_revokes}
use node_vms.Tests.Data.{office, bob}
use node_vms.Tests.Sessions.{shown_jwt, shown_cache, nothing_listed, config, ShownToken}

abbrev pub vehicles_route : Route
vehicles_route = record { is_public = false; roles = Role.admin ∷ []; feature = some 61 }

abbrev pub chief : User
chief = bob ApprovalStatus.approved true

abbrev pub access : ShownToken
access = record { secret = 901; payload = to_payload chief; expires = 110 }

abbrev long_lived : ShownToken
long_lived = record { secret = 902; payload = to_payload chief; expires = 1010 }

abbrev pub ask : Request ShownToken
ask = record { cookie = some access; bearer = none }

let_in :
    (admit lists shown_jwt shown_cache config 50 nothing_listed vehicles_route ask office).0
    ≡ ok (some (to_payload chief))
unfolding admit auth_guard roles_guard tenant_guard check_account tenant_of feature_guard
    check_feature
let_in = refl

admit_sound_example :
    (p : Payload) × (some (to_payload chief) ≡ some p)
    × HasToken lists shown_jwt shown_cache config 50 nothing_listed vehicles_route ask office refl p
    × ((p.role ≡ Role.super_admin) ⊎ IsGranted vehicles_route p office)
admit_sound_example =
    admit_sound lists shown_jwt shown_cache config 50 nothing_listed vehicles_route ask office refl
      (some (to_payload chief)) let_in

chief_suspended : (suspend lists 40 office).0 ≡ ok (bob suspended false)
unfolding suspend decide
chief_suspended = refl

suspend_revokes_example :
    (admit lists shown_jwt shown_cache config 50 nothing_listed vehicles_route ask
      (suspend lists 40 office).1).0
    ≢ ok (some (to_payload chief))
suspend_revokes_example =
    suspend_revokes lists 40 office (bob suspended false) chief_suspended shown_jwt config 50
      shown_cache nothing_listed vehicles_route ask (to_payload chief) refl refl (λ e. ground arith)

abbrev listed : shown_cache.State
listed = elim (shown_cache.set access 1 60 50 nothing_listed) [ none ↦ nothing_listed | some s ↦ s ]

logs_out : logout shown_jwt config 50 shown_cache access 110 nothing_listed ≡ some listed
unfolding logout
logs_out = refl

logout_revokes_example :
    (admit lists shown_jwt shown_cache config 70 listed vehicles_route ask office).0
    ≢ ok (some (to_payload chief))
logout_revokes_example =
    logout_revokes shown_jwt shown_cache config 50 110 access nothing_listed listed lists
      vehicles_route ask 70 (some (to_payload chief)) office (omega arith) logs_out (omega arith)
      refl refl refl

abbrev bob_logs_in : LoginDto
bob_logs_in = record { email = 22; password = 23 }
