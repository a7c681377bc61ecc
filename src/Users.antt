-- ===== src/Users.antt =====
-- src/users/users.service.ts, with its DTOs: the accounts that an administrator manages. `id` and
-- `link_key` are the keys that the database gives to new rows, `salt` what bcrypt draws, `now` the
-- clock, and `blank` tells the texts of white space only.
pub mod Requests
pub mod BranchIds
pub mod Writes
pub mod Changes
pub mod Privileged
pub mod Self
use node_vms.Prelude.{
  ℕ, Bool, true, false, ◌&&◌, ◌||◌, not, Option, none, some, List, [], ◌∷◌, ◌++◌, map, filter_by,
  length, ◌==◌, is_none, is_some, given, truthy, is_just, get_or, or_else, if◌then◌else◌,
}
use node_vms.Schema.{User, UserBranch, Branch, Role, ApprovalStatus, is_admin, is_manageable}
use node_vms.Database.Client.{Client}
use node_vms.Database.Errors.{bad_request, forbidden, not_found, record_not_found, ok}
use node_vms.Database.Action.{
  Db, Action, pure, throw_if, or_throw, when, modify, transaction, ◌>>=◌, ◌>>◌, find_first,
  insert_row, update_row, references, unique, put_users, put_user_branches,
}
use node_vms.EntityValidator.{is_tenant_user, assert_email_unique, assert_branch_exists}
use node_vms.Auth.Crypto.{Bcrypt}
use node_vms.Users.Requests.{
  CreateUserDto, UpdateUserDto, CurrentUser, UserView, has_user_key, role_allowed, distinct_ids,
  one_of, first_of, as_list, link_of, counted, branch_after, has_user_updates, new_user, hashed,
  edited,
}

module _ (c : Client) (b : Bcrypt) (blank : ℕ → Bool) where
  abbrev pub view_of : Db → User → UserView
  view_of s u = record {
    id = u.id;
    tenant_id = u.tenant_id;
    branch_id = u.branch_id;
    name = u.name;
    email = u.email;
    role = u.role;
    approval_status = u.approval_status;
    is_active = u.is_active;
    user_branches = map (λ r. r.branch_id) (c.find_many (λ r. r.user_id == u.id) s.user_branches);
  }

  unfoldable pub find_active_user : ℕ → ℕ → Action User
  find_active_user tenant_id id = do
    found ← find_first c (λ s. s.users) (is_tenant_user tenant_id id)
    or_throw found (not_found "User not found")

  -- `findUniqueOrThrow` with `userSelect`.
  unfoldable pub show_user : ℕ → Action UserView
  show_user id = do
    found ← find_first c (λ s. s.users) (has_user_key id)
    user ← or_throw found record_not_found
    λ s. (ok (view_of s user), s)

  abbrev pub normalize_branch_ids : List ℕ → List ℕ
  normalize_branch_ids ids = distinct_ids (filter_by (λ id. truthy id && not (blank id)) ids)

  unfoldable pub assert_branches_exist : ℕ → List ℕ → Action (Unit {0})
  assert_branches_exist tenant_id [] = pure tt
  assert_branches_exist tenant_id (x ∷ xs) = do
    count ← λ s. (ok (length (c.find_many (counted tenant_id (x ∷ xs)) s.branches)), s)
    throw_if (not (count == length (x ∷ xs))) (bad_request "One or more branches are invalid")

  -- `userBranch.createMany`, with the unique pair and the foreign key of each row.
  unfoldable pub create_links : (ℕ → ℕ) → ℕ → ℕ → List ℕ → Action (Unit {0})
  create_links link_key tenant_id user_id [] = pure tt
  create_links link_key tenant_id user_id (x ∷ xs) = do
    unique c (λ s. s.user_branches) (link_of user_id x)
    references c (λ s. s.branches) (λ r. r.id == x)
    row ←
        insert_row c (λ s. s.user_branches) put_user_branches
          (record { id = link_key x; tenant_id = tenant_id; user_id = user_id; branch_id = x })
    create_links link_key tenant_id user_id xs

  unfoldable pub create_writes : (ℕ → ℕ) → ℕ → User → List ℕ → Action (Unit {0})
  create_writes link_key tenant_id user branch_ids = transaction (do
    unique c (λ s. s.users) (λ u. u.email == user.email)
    when (not (is_none user.branch_id))
        (references c (λ s. s.branches) (λ r. r.id == get_or user.branch_id 0))
    row ← insert_row c (λ s. s.users) put_users user
    create_links link_key tenant_id user.id branch_ids)

  unfoldable pub create : (ℕ → ℕ) → ℕ → ℕ → ℕ → CreateUserDto → Action UserView
  create link_key salt id tenant_id dto = do
    throw_if (not (role_allowed dto.role))
        (bad_request "You can only create users with role DRIVER or EMPLOYEE")
    assert_email_unique c dto.email none
    branch ← assert_branch_exists c tenant_id dto.branch_id
    let branch_ids = normalize_branch_ids (get_or dto.branch_ids [] ++ as_list dto.branch_id)
    assert_branches_exist tenant_id branch_ids
    create_writes link_key tenant_id
        (new_user b salt id tenant_id (or_else dto.branch_id (first_of branch_ids)) dto) branch_ids
    show_user id

  -- The users who have the branch, as their own or by a link.
  abbrev pub in_branch : ℕ → Option ℕ → Db → User → Bool
  in_branch tenant_id branch_id s u =
      if given branch_id
      then is_just u.branch_id (get_or branch_id 0)
        || is_some (
            c.find_first (λ r. link_of u.id (get_or branch_id 0) r && r.tenant_id == tenant_id)
              s.user_branches)
      else true

  unfoldable pub find_all : ℕ → Option ℕ → Action (List UserView)
  find_all tenant_id branch_id s = (
    ok (
        map (view_of s) (
          c.find_many
            (λ u.
              u.tenant_id == tenant_id
              && (is_none u.deleted_at
                  && (is_manageable u.role && in_branch tenant_id branch_id s u)))
            s.users)),
    s,
  )

  unfoldable pub find_one : ℕ → ℕ → Action UserView
  find_one tenant_id id = do
    found ← find_first c (λ s. s.users) (λ u. is_tenant_user tenant_id id u && is_manageable u.role)
    user ← or_throw found (not_found "User not found")
    λ s. (ok (view_of s user), s)

  -- `incomingBranchIds`
  abbrev pub incoming_branch_ids : UpdateUserDto → Option (List ℕ)
  incoming_branch_ids dto = elim dto.branch_ids [
    | none ↦ none
    | some ids ↦ some (normalize_branch_ids (ids ++ as_list (get_or dto.branch_id none)))
  ]

  -- The checks of `update` on the fields, in their order.
  unfoldable pub update_checks : ℕ → ℕ → UpdateUserDto → CurrentUser → Action (Unit {0})
  update_checks tenant_id id dto current_user = do
    throw_if (not (role_allowed dto.role))
        (bad_request "You can only create users with role DRIVER or EMPLOYEE")
    throw_if (is_some dto.role && current_user.id == id)
        (forbidden "You cannot change your own role")
    throw_if (current_user.id == id && not (get_or dto.is_active true))
        (forbidden "You cannot deactivate your own account")
    when (is_some dto.branch_id)
        (do branch ← assert_branch_exists c tenant_id (get_or dto.branch_id none); pure tt)
    assert_branches_exist tenant_id (get_or (incoming_branch_ids dto) [])
    throw_if (not (has_user_updates dto)) (bad_request "No updatable fields provided")

  -- `deleteMany` and `createMany`, where there is a list.
  unfoldable pub replace_links : (ℕ → ℕ) → ℕ → ℕ → Option (List ℕ) → Action (Unit {0})
  replace_links link_key tenant_id id none = pure tt
  replace_links link_key tenant_id id (some branch_ids) = do
    modify (λ s.
        put_user_branches
          (c.delete (λ r. r.tenant_id == tenant_id && r.user_id == id) s.user_branches) s)
    create_links link_key tenant_id id branch_ids

  unfoldable pub update_writes : (ℕ → ℕ) → ℕ → ℕ → ℕ → UpdateUserDto → Action (Unit {0})
  update_writes link_key salt tenant_id id dto = transaction (do
    when (has_user_updates dto) (do
      row ←
          update_row c (λ s. s.users) put_users (has_user_key id)
            (edited b salt dto (incoming_branch_ids dto))
      pure tt)
    replace_links link_key tenant_id id (incoming_branch_ids dto))

  unfoldable pub update : (ℕ → ℕ) → ℕ → ℕ → ℕ → UpdateUserDto → CurrentUser → Action UserView
  update link_key salt tenant_id id dto current_user = do
    target ← find_active_user tenant_id id
    throw_if (not (is_manageable target.role))
        (forbidden "You can only update DRIVER or EMPLOYEE accounts")
    update_checks tenant_id id dto current_user
    update_writes link_key salt tenant_id id dto
    show_user id

  unfoldable pub reset_subordinate_password : ℕ → ℕ → ℕ → ℕ → Role → Action UserView
  reset_subordinate_password salt tenant_id target_id new_password requester_role = do
    target ← find_active_user tenant_id target_id
    throw_if (is_admin requester_role && not (is_manageable target.role))
        (forbidden "You can only reset passwords for DRIVER or EMPLOYEE accounts")
    row ←
        update_row c (λ s. s.users) put_users (has_user_key target_id)
          (λ u. record u { password = b.hash salt new_password })
    λ s. (ok (view_of s row), s)

  unfoldable pub remove : ℕ → ℕ → ℕ → CurrentUser → Action (Unit {0})
  remove now tenant_id id current_user = do
    target ← find_active_user tenant_id id
    throw_if (current_user.id == id) (forbidden "You cannot delete your own account")
    throw_if (not (is_manageable target.role))
        (forbidden "You can only delete DRIVER or EMPLOYEE accounts")
    row ←
        update_row c (λ s. s.users) put_users (has_user_key id)
          (λ u. record u { deleted_at = some now })
    pure tt
