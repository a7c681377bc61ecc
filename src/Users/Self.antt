-- ===== src/Users/Self.antt =====
-- users.service.ts: what a user can do to the own account.
use node_vms.Prelude.{
  ℕ, ◌≡◌, refl, inl, inr, Bool, true, false, ◌&&◌, not, Option, some, List, Listed, ◌==◌,
  Bool-cases, get_or, is_some, arith,
}
use node_vms.Schema.{User}
use node_vms.Database.Client.{Client}
use node_vms.Database.Action.{Db}
use node_vms.Database.Pairs.{Listed-changed}
use node_vms.Auth.Crypto.{Bcrypt}
use node_vms.Users.Requests.{UpdateUserDto, CurrentUser, has_user_key, edited}
use node_vms.Users.{incoming_branch_ids, update, remove}
use node_vms.Users.Changes.{update_users, remove_users}

-- The account is there with its role, not deleted if it was not, and active if it was.
abbrev pub Stands : User → List User → Type 0
Stands u t =
    (x : User) × Listed x t
    × (x.id ≡ u.id)
    × (x.role ≡ u.role)
    × (x.deleted_at ≡ u.deleted_at)
    × (u.is_active ≡ true → x.is_active ≡ true)

module _ (c : Client) (b : Bcrypt) (blank : ℕ → Bool) (tenant_id id : ℕ) (s : Db)
    (current_user : CurrentUser) (u : User) (m : Listed u s.users)
    (me : current_user.id ≡ u.id) where
  stays : Stands u s.users
  stays = (u, m, refl, refl, refl, λ h. h)

  edited-Stands :
      (salt : ℕ) (dto : UpdateUserDto) (ids : Option (List ℕ))
      → (is_some dto.role && current_user.id == id) ≡ false
      → (current_user.id == id && not (get_or dto.is_active true)) ≡ false
      → Stands u (c.update (has_user_key id) (edited b salt dto ids) s.users)
  edited-Stands salt dto ids role active = elim (Bool-cases (has_user_key id u)) [
    | inr e ↦ (
      u,
      rw e at (Listed-changed c (has_user_key id) (edited b salt dto ids) s.users u m),
      refl,
      refl,
      refl,
      λ h. h,
    )
    | inl e ↦ (
      edited b salt dto ids u,
      rw e at (Listed-changed c (has_user_key id) (edited b salt dto ids) s.users u m),
      refl,
      ground arith,
      refl,
      λ h. ground arith,
    )
  ]

  -- Whatever a user asks `update` to do, of whichever account, the own account keeps its role, is
  -- not deleted, and stays active if it was.
  pub update-Stands :
      (link_key : ℕ → ℕ) (salt : ℕ) (dto : UpdateUserDto)
      → Stands u (update c b blank link_key salt tenant_id id dto current_user s).1.users
  update-Stands link_key salt dto =
      elim (update_users c b blank link_key tenant_id salt id s dto current_user) [
        | inl e ↦ rw e stays
        | inr (t, found, before, allowed, role, active, e) ↦
            rw e (edited-Stands salt dto (incoming_branch_ids c b blank dto) role active)
      ]

  -- Whichever account a user asks `remove` to delete, the own account keeps its role, is not deleted
  -- if it was not, and stays active if it was.
  pub remove-Stands :
      (now : ℕ) → Stands u (remove c b blank now tenant_id id current_user s).1.users
  remove-Stands now = elim (remove_users c b blank (λ x. x) tenant_id 0 id s now current_user) [
    | inl e ↦ rw e stays
    | inr (t, found, before, other, e) ↦ rw e (
      u,
      rw (let miss : has_user_key id u ≡ false = ground arith in miss) at (
          Listed-changed c (has_user_key id) (λ x. record x { deleted_at = some now }) s.users u m),
      refl,
      refl,
      refl,
      λ h. h,
    )
  ]
