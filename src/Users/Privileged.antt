-- ===== src/Users/Privileged.antt =====
-- users.service.ts over time: the accounts that an administrator does not manage.
use node_vms.Prelude.{
  ℕ, ◌≡◌, ◌≢◌, ◌↔◌, refl, sym, ap, ◌∙◌, subst, inl, inr, Bool, true, false, Option, some, List, All,
  All-Listed, Listed, Bool-cases, Option-cases, arith,
}
use node_vms.Schema.{User, Role, is_manageable}
use node_vms.Database.Client.{Client}
use node_vms.Database.Action.{Db}
use node_vms.Database.Lookup.{Listed-insert}
use node_vms.Database.Pairs.{
  Pairs, Pairs-insert, Pairs-update, changed, Listed-update, Listed-changed, Listed-inserted,
}
use node_vms.EntityValidator.{is_tenant_user}
use node_vms.Auth.Crypto.{Bcrypt}
use node_vms.Users.Requests.{
  CreateUserDto, UpdateUserDto, CurrentUser, has_user_key, edited, role_allowed,
}
use node_vms.Users.{incoming_branch_ids, create, update, reset_subordinate_password, remove}
use node_vms.Users.Writes.{created, create_users}
use node_vms.Users.Changes.{update_users, reset_users, remove_users}

abbrev pub SameKey : User → User → Type 0
SameKey a b = a.id ≡ b.id → a ≡ b

abbrev pub UserKeys : List User → Type 0
UserKeys t = Pairs SameKey t

-- The accounts of roles that are not DRIVER or EMPLOYEE are the same in both tables.
abbrev pub SamePrivileged : List User → List User → Type 0
SamePrivileged t t' = (u : User) → is_manageable u.role ≡ false → Listed u t ↔ Listed u t'

-- The keys stay keys and the privileged accounts stay the same.
abbrev pub Safe : List User → List User → Type 0
Safe t t' = UserKeys t' × SamePrivileged t t'

Safe-refl : (t : List User) → UserKeys t → Safe t t
Safe-refl t k = (k, λ u e. (λ m. m, λ m. m))

module _ (c : Client) (t : List User) (k : UserKeys t) where
  insert-Safe :
      (x : User) → All (λ u. u.id ≢ x.id) t → is_manageable x.role ≡ true → Safe t (c.insert x t)
  insert-Safe x fresh role = (
    Pairs-insert c SameKey x t (λ _. refl)
        (λ a m. let ne = All-Listed _ t fresh m in (λ g. absurd (ne g), λ g. absurd (ne (sym g))))
        k,
    λ u e. (
      λ m. Listed-insert c t x m,
      λ m. elim (Listed-inserted c t u x m) [
        | inl g ↦ let same : is_manageable u.role ≡ true = rw g role in absurd (cc)
        | inr n ↦ n
      ],
    ),
  )

  module _ (id : ℕ) (f : User → User) (same : (u : User) → (f u).id ≡ u.id) where
    changed_id : (u : User) → (changed (has_user_key id) f u).id ≡ u.id
    changed_id u = ground (arith, same u)

    UserKeys-update : UserKeys (c.update (has_user_key id) f t)
    UserKeys-update =
        Pairs-update c SameKey (has_user_key id) f t
          (λ a b m n g e.
            ap (changed (has_user_key id) f) (g (sym (changed_id a) ∙ e ∙ changed_id b)))
          k

    -- A write to one account that is managed, and stays so.
    update-Safe :
        (x : User)
        → Listed x t
        → x.id ≡ id
        → is_manageable x.role ≡ true
        → is_manageable (f x).role ≡ true
        → Safe t (c.update (has_user_key id) f t)
    update-Safe x n xe before after = (
      UserKeys-update,
      λ u e. (
        λ m. elim (Bool-cases (has_user_key id u)) [
          | inl h ↦
              let same_user : u ≡ x = k u x m n (ground arith) in
              let role : is_manageable u.role ≡ true = rw same_user before in absurd (cc)
          | inr h ↦ rw h at (Listed-changed c (has_user_key id) f t u m)
        ],
        λ m.
            let (y, l, g) = Listed-update c (has_user_key id) f t u m in
            elim (Bool-cases (has_user_key id y)) [
              | inl h ↦
                  let same_user : y ≡ x = k y x l n (ground arith) in
                  let role : is_manageable u.role ≡ true = rw (g, h, same_user) after in absurd (cc)
              | inr h ↦ subst (λ z. Listed z t) (sym (g ∙ rw h refl)) l
            ],
      ),
    )

-- One request of an administrator, served to its end: a new account has a fresh id.
pub data Step (c : Client) (b : Bcrypt) (blank : ℕ → Bool) (s s' : Db) : Type 0 where
  creates :
      (link_key : ℕ → ℕ) (salt id tenant_id : ℕ) (dto : CreateUserDto)
      → All (λ u. u.id ≢ id) s.users
      → s' ≡ (create c b blank link_key salt id tenant_id dto s).1
      → Step c b blank s s'
  updates :
      (link_key : ℕ → ℕ) (salt tenant_id id : ℕ) (dto : UpdateUserDto) (current_user : CurrentUser)
      → s' ≡ (update c b blank link_key salt tenant_id id dto current_user s).1
      → Step c b blank s s'
  resets :
      (salt tenant_id id new_password : ℕ)
      → s' ≡ (reset_subordinate_password c b blank salt tenant_id id new_password Role.admin s).1
      → Step c b blank s s'
  removes :
      (now tenant_id id : ℕ) (current_user : CurrentUser)
      → s' ≡ (remove c b blank now tenant_id id current_user s).1
      → Step c b blank s s'

pub data Reach (c : Client) (b : Bcrypt) (blank : ℕ → Bool) (s : Db) : Db → Type 0 where
  here : Reach c b blank s s
  next : {t u : Db} → Reach c b blank s t → Step c b blank t u → Reach c b blank s u

module _ (c : Client) (b : Bcrypt) (blank : ℕ → Bool) where
  -- Where the request found the account `t`, which is managed, and wrote `f` to it.
  found-Safe :
      (s : Db) (tenant_id id : ℕ) (f : User → User) (t : User)
      → UserKeys s.users
      → ((u : User) → (f u).id ≡ u.id)
      → c.find_first (is_tenant_user tenant_id id) s.users ≡ some t
      → is_manageable t.role ≡ true
      → is_manageable (f t).role ≡ true
      → Safe s.users (c.update (has_user_key id) f s.users)
  found-Safe s tenant_id id f t k same e before after =
      let (m, hit) = c.find_first-some (is_tenant_user tenant_id id) s.users t e in
      update-Safe c s.users k id f same t m (ground arith) before after

  edited_role :
      (dto : UpdateUserDto) (ids : Option (List ℕ)) (salt : ℕ) (t : User)
      → is_manageable t.role ≡ true
      → role_allowed dto.role ≡ true
      → is_manageable (edited b salt dto ids t).role ≡ true
  edited_role dto ids salt t e f = elim (Option-cases dto.role) [
    | inl g ↦ ground arith
    | inr (r, g) ↦ ground arith
  ]

  pub Step-Safe : (s s' : Db) → Step c b blank s s' → UserKeys s.users → Safe s.users s'.users
  Step-Safe s s' (Step.creates link_key salt id tenant_id dto fresh e) k =
      elim (create_users c b blank link_key tenant_id salt id s dto) [
        | inl f ↦ rw (e, f) (Safe-refl s.users k)
        | inr (role, f) ↦
            rw (e, f)
              (insert-Safe c s.users k (created c b blank link_key tenant_id salt id s dto) fresh
                (elim (Option-cases dto.role) [ inl g ↦ ground arith | inr (r, g) ↦ ground arith ]))
      ]
  Step-Safe s s' (Step.updates link_key salt tenant_id id dto current_user e) k =
      elim (update_users c b blank link_key tenant_id salt id s dto current_user) [
        | inl f ↦ rw (e, f) (Safe-refl s.users k)
        | inr (t, found, before, role, x, y, f) ↦
            rw (e, f)
              (found-Safe s tenant_id id (edited b salt dto (incoming_branch_ids c b blank dto)) t k
                (λ u. refl) found before
                (edited_role dto (incoming_branch_ids c b blank dto) salt t before role))
      ]
  Step-Safe s s' (Step.resets salt tenant_id id new_password e) k =
      elim (reset_users c b blank (λ x. x) tenant_id salt id s new_password Role.admin) [
        | inl f ↦ rw (e, f) (Safe-refl s.users k)
        | inr (t, found, role, f) ↦
            let before : is_manageable t.role ≡ true = ground arith in
            rw (e, f)
              (found-Safe s tenant_id id (λ u. record u { password = b.hash salt new_password }) t k
                (λ u. refl) found before before)
      ]
  Step-Safe s s' (Step.removes now tenant_id id current_user e) k =
      elim (remove_users c b blank (λ x. x) tenant_id 0 id s now current_user) [
        | inl f ↦ rw (e, f) (Safe-refl s.users k)
        | inr (t, found, before, x, f) ↦
            rw (e, f)
              (found-Safe s tenant_id id (λ u. record u { deleted_at = some now }) t k (λ u. refl)
                found before before)
      ]

  Safe-trans : (t t' t'' : List User) → Safe t t' → Safe t' t'' → Safe t t''
  Safe-trans t t' t'' (k, f) (l, g) =
      (l, λ u e. (λ m. (g u e).0 ((f u e).0 m), λ m. (f u e).1 ((g u e).1 m)))

  -- Where ids of users are unique, no history of an administrator's requests to create, change,
  -- reset and remove users, accepted or refused, creates, changes or removes an account whose role
  -- is not DRIVER or EMPLOYEE: the rows of such accounts are the same before and after, and ids
  -- stay unique. A new user takes an id that no user has.
  pub Reach-Safe : {s s' : Db} → Reach c b blank s s' → UserKeys s.users → Safe s.users s'.users
  Reach-Safe {s} {s'} Reach.here k = Safe-refl s.users k
  Reach-Safe {s} {s'} (Reach.next {t} {u} r st) k =
      let first = Reach-Safe r k in
      Safe-trans s.users t.users u.users first (Step-Safe t u st first.0)
