-- ===== src/Tests/Platform.antt =====
-- Modules, tenants and passwords: feature-access.service.ts, tenants.service.ts and
-- profile.service.ts on the example office.
use node_vms.Prelude.{[], ◌∷◌, false, ◌≡◌, ◌≢◌, refl, sym, ap, ◌∙◌, true, none, some, arith, Listed}
use mathlib.Core.List.{Memᴰ}
use node_vms.Schema.{User, FeatureAccess, ApprovalStatus}
use node_vms.Database.Lists.{lists}
use node_vms.Database.Errors.{ok}
use node_vms.Database.Action.{Db}
use node_vms.Database.Lookup.{Unique}
use node_vms.Features.{is_record, switched, switch, enable, disable}
use node_vms.Features.Switching.{disable_closes}
use node_vms.Guards.{Route, check_account, admit}
use node_vms.Tenants.{remove}
use node_vms.Tenants.Removal.{remove_locks_out}
use node_vms.Profile.{ChangePasswordDto, find_active_user, change_password}
use node_vms.Profile.Password.{change_password_sound}
use node_vms.Auth.{to_payload, tenant_of}
use node_vms.AdminApplications.{reactivate, decide}
use node_vms.Tests.Data.{office, bob, hides_reports}
use node_vms.Tests.Sessions.{shown_jwt, shown_cache, nothing_listed, plain_bcrypt, config}
use node_vms.Tests.Guards.{vehicles_route, ask}

one_record : (f : FeatureAccess) → Listed f office.features → f ≡ hides_reports
one_record f (Memᴰ.head e) = e
one_record f (Memᴰ.tail m) = elim m [ ]

single : Unique (is_record 7 60) office.features
single a b m n e f = one_record a m ∙ sym (one_record b n)

disabled : (disable lists 51 7 60 office).0 ≡ ok hides_reports
unfolding disable switch
disabled = refl

enabled : (enable lists 51 7 60 office).0 ≡ ok (switched true hides_reports)
unfolding enable switch
enabled = refl

abbrev reports_route : Route
reports_route = record { is_public = false; roles = []; feature = some 60 }

disable_closes_example :
    (admit lists shown_jwt shown_cache config 50 nothing_listed reports_route ask
      (disable lists 51 7 60 office).1).0
    ≢ ok (some (to_payload (bob ApprovalStatus.approved true)))
disable_closes_example =
    disable_closes lists 51 7 60 office hides_reports single disabled shown_jwt shown_cache config
      50 nothing_listed reports_route ask (to_payload (bob ApprovalStatus.approved true)) refl refl
      (λ e. ground arith) refl

removed : (remove lists 40 7 office).0 ≡ ok tt
unfolding remove
removed = refl

members : (u : User) → Listed u office.users → u.id ≡ 40 → u.tenant_id ≡ 7
members u (Memᴰ.head e) f = ap (λ x. x.tenant_id) e
members u (Memᴰ.tail m) f = elim m [ ]

members_left :
    (u : User) → Listed u (remove lists 40 7 office).1.users → u.id ≡ 40 → u.tenant_id ≡ 7
unfolding remove
members_left u m e = members u m e

remove_locks_out_example :
    (admit lists shown_jwt shown_cache config 50 nothing_listed vehicles_route ask
      (remove lists 40 7 office).1).0
    ≢ ok (some (to_payload (bob ApprovalStatus.approved true)))
remove_locks_out_example =
    remove_locks_out lists 40 7 office removed shown_jwt shown_cache config 50 nothing_listed
      vehicles_route ask (to_payload (bob ApprovalStatus.approved true))
      (remove lists 40 7 office).1 refl refl (λ e. ground arith) members_left

-- Reactivating a suspended administrator of a removed tenant opens the tenant again.
abbrev suspended_office : Db
suspended_office = record office { users = bob ApprovalStatus.suspended false ∷ [] }

reactivate_reopens :
    (check_account lists 40 (reactivate lists 40 (remove lists 40 7 suspended_office).1).1).0
    ≡ ok true
unfolding remove reactivate decide check_account tenant_of
reactivate_reopens = refl

abbrev rotates : ChangePasswordDto
rotates = record { current_password = 23; new_password = 24 }

rotated : (change_password lists plain_bcrypt 0 40 rotates office).0 ≡ ok tt
unfolding change_password find_active_user
rotated = refl

change_password_sound_example :
    (u : User) × Listed u office.users
    × (u.id ≡ 40)
    × (u.deleted_at ≡ none)
    × (plain_bcrypt.compare 23 u.password ≡ true)
    × (rotates.current_password ≢ rotates.new_password)
    × ((v : User)
        → Listed v (change_password lists plain_bcrypt 0 40 rotates office).1.users
        → v.id ≡ 40
        → plain_bcrypt.compare 24 v.password ≡ true)
change_password_sound_example = change_password_sound lists plain_bcrypt 0 40 rotates office rotated
