-- ===== src/Users/Writes.antt =====
-- users.service.ts: what the requests write to the table of users.
use node_vms.Prelude.{
  ℕ, ◌≡◌, refl, ◌⊎◌, inl, inr, Bool, true, Option, none, some, List, [], ◌∷◌, ◌++◌, ◌==◌, ◌&&◌,
  Option-cases, get_or, or_else, arith,
}
use node_vms.Schema.{User}
use node_vms.Database.Client.{Client}
use node_vms.Database.Action.{Db, put_users, put_user_branches}
use node_vms.EntityValidator.{assert_email_unique, assert_branch_exists}
use node_vms.Auth.Crypto.{Bcrypt}
use node_vms.Users.Requests.{CreateUserDto, role_allowed, first_of, link_of, new_user, as_list}
use node_vms.Users.{
  show_user, normalize_branch_ids, assert_branches_exist, create_links, create_writes, create,
  replace_links,
}

module _ (c : Client) (b : Bcrypt) (blank : ℕ → Bool) (link_key : ℕ → ℕ) (tenant_id : ℕ) where
  create_links_users :
      (user_id : ℕ) (ids : List ℕ) (s : Db)
      → (create_links c b blank link_key tenant_id user_id ids s).1.users ≡ s.users
  unfolding create_links
  create_links_users user_id [] s = refl
  create_links_users user_id (x ∷ xs) s =
      let later = create_links_users user_id xs (
        put_user_branches
          (c.insert
            (record { id = link_key x; tenant_id = tenant_id; user_id = user_id; branch_id = x })
            s.user_branches)
          s) in
      elim (Option-cases (c.find_first (link_of user_id x) s.user_branches)) [
        | inr (y, e) ↦ ground arith
        | inl e ↦ elim (Option-cases (c.find_first (λ r. r.id == x) s.branches)) [
          | inl f ↦ ground arith
          | inr (z, f) ↦ ground arith
        ]
      ]

  pub replace_links_users :
      (user_id : ℕ) (ids : Option (List ℕ)) (s : Db)
      → (replace_links c b blank link_key tenant_id user_id ids s).1.users ≡ s.users
  unfolding replace_links
  replace_links_users user_id none s = refl
  replace_links_users user_id (some ids) s = create_links_users user_id ids (
      put_user_branches
        (c.delete (λ r. r.tenant_id == tenant_id && r.user_id == user_id) s.user_branches) s)

  pub assert_branches_exist_reads :
      (ids : List ℕ) (s : Db) → (assert_branches_exist c b blank tenant_id ids s).1 ≡ s
  unfolding assert_branches_exist
  assert_branches_exist_reads [] s = refl
  assert_branches_exist_reads (x ∷ xs) s = ground arith

  pub assert_branch_exists_reads :
      (branch_id : Option ℕ) (s : Db) → (assert_branch_exists c tenant_id branch_id s).1 ≡ s
  unfolding assert_branch_exists
  assert_branch_exists_reads branch_id s = ground arith

  pub show_user_reads : (id : ℕ) (s : Db) → (show_user c b blank id s).1 ≡ s
  unfolding show_user
  show_user_reads id s = ground arith

  module _ (salt id : ℕ) (s : Db) where
    create_writes_users :
        (user : User) (ids : List ℕ)
        → ((create_writes c b blank link_key tenant_id user ids s).1.users ≡ s.users)
          ⊎ ((create_writes c b blank link_key tenant_id user ids s).1.users
              ≡ c.insert user s.users)
    unfolding create_writes
    create_writes_users user ids =
        let links = create_links_users user.id ids (put_users (c.insert user s.users) s) in
        elim (Option-cases user.branch_id) [ inl e ↦ ground arith | inr (k, e) ↦ ground arith ]

    abbrev pub created : CreateUserDto → User
    created dto =
        new_user b salt id tenant_id
          (or_else dto.branch_id (
            first_of
              (normalize_branch_ids c b blank (get_or dto.branch_ids [] ++ as_list dto.branch_id))))
          dto

    abbrev ids_of : CreateUserDto → List ℕ
    ids_of dto = normalize_branch_ids c b blank (get_or dto.branch_ids [] ++ as_list dto.branch_id)

    create_state :
        (dto : CreateUserDto)
        → ((create c b blank link_key salt id tenant_id dto s).1 ≡ s)
          ⊎ ((role_allowed dto.role ≡ true)
              × ((create c b blank link_key salt id tenant_id dto s).1
                  ≡ (create_writes c b blank link_key tenant_id (created dto) (ids_of dto) s).1))
    unfolding create assert_email_unique assert_branch_exists
    create_state dto =
        let check = assert_branches_exist_reads (ids_of dto) s in
        let shown =
          show_user_reads id
            (create_writes c b blank link_key tenant_id (created dto) (ids_of dto) s).1 in
        ground arith

    -- A user is created with a role that can be managed, or the table stays as it was.
    pub create_users :
        (dto : CreateUserDto)
        → ((create c b blank link_key salt id tenant_id dto s).1.users ≡ s.users)
          ⊎ ((role_allowed dto.role ≡ true)
              × ((create c b blank link_key salt id tenant_id dto s).1.users
                  ≡ c.insert (created dto) s.users))
    create_users dto = elim (create_state dto) [
      | inl e ↦ inl (rw e refl)
      | inr (ok_role, e) ↦ elim (create_writes_users (created dto) (ids_of dto)) [
        | inl f ↦ inl (rw e f)
        | inr f ↦ inr (ok_role, rw e f)
      ]
    ]
