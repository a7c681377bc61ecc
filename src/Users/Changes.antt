-- ===== src/Users/Changes.antt =====
-- users.service.ts: what `update`, `resetSubordinatePassword` and `remove` write to the table of
-- users.
use node_vms.Prelude.{
  ℕ, ◌≡◌, refl, ◌⊎◌, inl, inr, Bool, true, false, not, none, some, [], ◌==◌, ◌&&◌, Bool-cases,
  Option-cases, get_or, is_some, arith,
}
use node_vms.Schema.{User, Role, is_manageable, is_admin}
use node_vms.Database.Client.{Client}
use node_vms.Database.Errors.{Result, ok, err, Error}
use node_vms.Database.Action.{Db, put_users}
use node_vms.EntityValidator.{is_tenant_user}
use node_vms.Auth.Crypto.{Bcrypt}
use node_vms.Users.Requests.{UpdateUserDto, CurrentUser, has_user_key, role_allowed, edited}
use node_vms.Users.{
  find_active_user, incoming_branch_ids, update_checks, update_writes, update,
  reset_subordinate_password, remove,
}
use node_vms.Users.Writes.{
  assert_branches_exist_reads, assert_branch_exists_reads, show_user_reads, replace_links_users,
}

-- What a check that writes nothing comes to.
checked :
    (p : Result (Unit {0}) × Db) (s : Db)
    → p.1 ≡ s
    → ((e : Error) × (p ≡ (err e, s))) ⊎ (p ≡ (ok tt, s))
checked (ok u, s') s e = inr (rw e refl)
checked (err x, s') s e = inl (x, rw e refl)

module _ (c : Client) (b : Bcrypt) (blank : ℕ → Bool) (link_key : ℕ → ℕ) (tenant_id salt id : ℕ)
    (s : Db) where
  update_writes_users :
      (dto : UpdateUserDto)
      → ((update_writes c b blank link_key salt tenant_id id dto s).1.users ≡ s.users)
        ⊎ ((update_writes c b blank link_key salt tenant_id id dto s).1.users
            ≡ c.update
                (has_user_key id)
                (edited b salt dto (incoming_branch_ids c b blank dto))
                s.users)
  unfolding update_writes
  update_writes_users dto =
      let same =
        replace_links_users c b blank link_key tenant_id id (incoming_branch_ids c b blank dto) s in
      let links =
        replace_links_users c b blank link_key tenant_id id (incoming_branch_ids c b blank dto) (
          put_users
            (c.update (has_user_key id) (edited b salt dto (incoming_branch_ids c b blank dto))
              s.users)
            s) in
      ground arith

  update_checks_reads :
      (dto : UpdateUserDto) (current_user : CurrentUser)
      → (update_checks c b blank tenant_id id dto current_user s).1 ≡ s
  unfolding update_checks
  update_checks_reads dto current_user =
      let check =
        assert_branches_exist_reads c b blank link_key tenant_id
          (get_or (incoming_branch_ids c b blank dto) []) s in
      let branch =
        assert_branch_exists_reads c b blank link_key tenant_id (get_or dto.branch_id none) s in
      ground arith

  -- What the checks of `update` let through.
  update_checks_pass :
      (dto : UpdateUserDto) (current_user : CurrentUser)
      → update_checks c b blank tenant_id id dto current_user s ≡ (ok tt, s)
      → (role_allowed dto.role ≡ true)
        × ((is_some dto.role && current_user.id == id) ≡ false)
        × ((current_user.id == id && not (get_or dto.is_active true)) ≡ false)
  unfolding update_checks
  update_checks_pass dto current_user e = elim (Bool-cases (role_allowed dto.role)) [
    | inr f ↦ ground arith
    | inl f ↦ elim (Bool-cases (is_some dto.role && current_user.id == id)) [
      | inl g ↦ ground arith
      | inr g ↦ elim (Bool-cases (current_user.id == id && not (get_or dto.is_active true))) [
        | inl h ↦ ground arith
        | inr h ↦ (f, g, h)
      ]
    ]
  ]

  -- The state after `update`: what its writes make of it where the checks pass.
  update_state :
      (dto : UpdateUserDto) (current_user : CurrentUser)
      → ((update c b blank link_key salt tenant_id id dto current_user s).1 ≡ s)
        ⊎ ((t : User) × (c.find_first (is_tenant_user tenant_id id) s.users ≡ some t)
            × (is_manageable t.role ≡ true)
            × (update_checks c b blank tenant_id id dto current_user s ≡ (ok tt, s))
            × ((update c b blank link_key salt tenant_id id dto current_user s).1
                ≡ (update_writes c b blank link_key salt tenant_id id dto s).1))
  unfolding update find_active_user
  update_state dto current_user =
      let shown =
        show_user_reads c b blank link_key tenant_id id
          (update_writes c b blank link_key salt tenant_id id dto s).1 in
      elim (Option-cases (c.find_first (is_tenant_user tenant_id id) s.users)) [
        | inl e ↦ inl (ground arith)
        | inr (t, e) ↦ elim (Bool-cases (is_manageable t.role)) [
          | inr f ↦ inl (ground arith)
          | inl f ↦
              elim (checked (update_checks c b blank tenant_id id dto current_user s) s
                (update_checks_reads dto current_user)) [
                  | inl (x, g) ↦ inl (ground arith)
                  | inr g ↦ inr (t, e, f, g, ground arith)
                ]
        ]
      ]

  -- A user is changed only where the checks pass, or the table stays as it was.
  pub update_users :
      (dto : UpdateUserDto) (current_user : CurrentUser)
      → ((update c b blank link_key salt tenant_id id dto current_user s).1.users ≡ s.users)
        ⊎ ((t : User) × (c.find_first (is_tenant_user tenant_id id) s.users ≡ some t)
            × (is_manageable t.role ≡ true)
            × (role_allowed dto.role ≡ true)
            × ((is_some dto.role && current_user.id == id) ≡ false)
            × ((current_user.id == id && not (get_or dto.is_active true)) ≡ false)
            × ((update c b blank link_key salt tenant_id id dto current_user s).1.users
                ≡ c.update
                    (has_user_key id)
                    (edited b salt dto (incoming_branch_ids c b blank dto))
                    s.users))
  update_users dto current_user = elim (update_state dto current_user) [
    | inl e ↦ inl (rw e refl)
    | inr (t, e, f, g, h) ↦ elim (update_writes_users dto) [
      | inl k ↦ inl (rw h k)
      | inr k ↦
          let (p, q, r) = update_checks_pass dto current_user g in inr (t, e, f, p, q, r, rw h k)
    ]
  ]

  pub reset_users :
      (new_password : ℕ) (requester_role : Role)
      → ((reset_subordinate_password c b blank salt tenant_id id new_password requester_role
            s).1.users
          ≡ s.users)
        ⊎ ((t : User) × (c.find_first (is_tenant_user tenant_id id) s.users ≡ some t)
            × ((is_admin requester_role && not (is_manageable t.role)) ≡ false)
            × ((reset_subordinate_password c b blank salt tenant_id id new_password requester_role
                  s).1.users
                ≡ c.update
                    (has_user_key id)
                    (λ u. record u { password = b.hash salt new_password })
                    s.users))
  unfolding reset_subordinate_password find_active_user
  reset_users new_password requester_role =
      elim (Option-cases (c.find_first (is_tenant_user tenant_id id) s.users)) [
        | inl e ↦ inl (ground arith)
        | inr (t, e) ↦ elim (Bool-cases (is_admin requester_role && not (is_manageable t.role))) [
          | inl f ↦ inl (ground arith)
          | inr f ↦ elim (Option-cases (c.find_first (has_user_key id) s.users)) [
            | inl g ↦ inl (ground arith)
            | inr (x, g) ↦ inr (t, e, f, ground arith)
          ]
        ]
      ]

  pub remove_users :
      (now : ℕ) (current_user : CurrentUser)
      → ((remove c b blank now tenant_id id current_user s).1.users ≡ s.users)
        ⊎ ((t : User) × (c.find_first (is_tenant_user tenant_id id) s.users ≡ some t)
            × (is_manageable t.role ≡ true)
            × ((current_user.id == id) ≡ false)
            × ((remove c b blank now tenant_id id current_user s).1.users
                ≡ c.update (has_user_key id) (λ u. record u { deleted_at = some now }) s.users))
  unfolding remove find_active_user
  remove_users now current_user =
      elim (Option-cases (c.find_first (is_tenant_user tenant_id id) s.users)) [
        | inl e ↦ inl (ground arith)
        | inr (t, e) ↦ elim (Bool-cases (is_manageable t.role)) [
          | inr f ↦ inl (ground arith)
          | inl f ↦ elim (Bool-cases (current_user.id == id)) [
            | inl h ↦ inl (ground arith)
            | inr h ↦ elim (Option-cases (c.find_first (has_user_key id) s.users)) [
              | inl g ↦ inl (ground arith)
              | inr (x, g) ↦ inr (t, e, f, h, ground arith)
            ]
          ]
        ]
      ]
