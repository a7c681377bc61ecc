-- ===== src/Tests/Staff.antt =====
-- branches.service.ts and users.service.ts on example tables.
use node_vms.Prelude.{
  ℕ, Bool, false, ◌≡◌, ◌≢◌, ◌↔◌, refl, ap, sym, ◌∙◌, ◌⊎◌, inl, inr, none, some, [], ◌∷◌, List, All,
  Listed, arith, true,
}
use mathlib.Core.List.{Memᴰ}
use node_vms.Schema.{Branch, User, Role, ApprovalStatus}
use node_vms.Database.Lists.{lists}
use node_vms.Database.GroupLists.{list_groups}
use node_vms.Database.Errors.{ok}
use node_vms.Database.Action.{Db, empty_db}
use node_vms.Branches.{remove}
use node_vms.Branches.Removal.{Unlinked, remove-Unlinked}
use node_vms.Users.Requests.{CreateUserDto, UpdateUserDto, CurrentUser}
use node_vms.Users.{normalize_branch_ids, assert_branches_exist}
use node_vms.Users as Accounts
use node_vms.Users.BranchIds.{HasBranch, assert_branches_exist_iff}
use node_vms.Users.Privileged.{UserKeys, Safe, Step, Reach, Reach-Safe}
use node_vms.Users.Self.{Stands, update-Stands}
use node_vms.Tests.Data.{acme, bob}
use node_vms.Tests.Sessions.{plain_bcrypt}

abbrev north : Branch
north = record {
  id = 81;
  tenant_id = 7;
  name = 1;
  address = none;
  phone = none;
  is_active = true;
  deleted_at = none;
}

abbrev south : Branch
south = record north { id = 82; name = 2 }

abbrev eve : User
eve = record (bob ApprovalStatus.approved true) {
  id = 41;
  email = 25;
  role = Role.employee;
  branch_id = some 81;
}

abbrev offices : Db
offices = record empty_db {
  tenants = acme true ∷ [];
  branches = north ∷ (south ∷ []);
  users = bob ApprovalStatus.approved true ∷ (eve ∷ []);
}

two_of {ℓ} : {A : Type ℓ} (x y a : A) → Listed a (x ∷ (y ∷ [])) → (a ≡ x) ⊎ (a ≡ y)
two_of x y a (Memᴰ.head e) = inl e
two_of x y a (Memᴰ.tail (Memᴰ.head e)) = inr e
two_of x y a (Memᴰ.tail (Memᴰ.tail m)) = elim m [ ]

-- Where the two rows differ in a key, it tells them apart.
two_keyed {ℓ} :
    {A : Type ℓ} (key : A → ℕ) (x y a b : A)
    → key x ≢ key y
    → Listed a (x ∷ (y ∷ []))
    → Listed b (x ∷ (y ∷ []))
    → key a ≡ key b
    → a ≡ b
two_keyed key x y a b ne m n e = elim (two_of x y a m) [
  | inl p ↦ elim (two_of x y b n) [
    | inl q ↦ p ∙ sym q
    | inr q ↦ absurd (ne (sym (ap key p) ∙ e ∙ ap key q))
  ]
  | inr p ↦ elim (two_of x y b n) [
    | inl q ↦ absurd (ne (sym (ap key q) ∙ sym e ∙ ap key p))
    | inr q ↦ p ∙ sym q
  ]
]

remove-Unlinked_example :
    (s' : Db) × (remove lists 50 7 81 offices ≡ (ok tt, s'))
    × Unlinked 81 s'
    × (s'.bookings ≡ offices.bookings)
    × (s'.workshop_jobs ≡ offices.workshop_jobs)
remove-Unlinked_example =
    remove-Unlinked lists 50 81 offices 7 north (Memᴰ.head refl)
      (λ a b m n. two_keyed (λ x. x.id) north south a b (λ e. ground arith) m n) refl refl refl

-- No text is blank but the empty one.
abbrev none_blank : ℕ → Bool
none_blank k = false

abbrev asked : List ℕ
asked = 81 ∷ (82 ∷ (81 ∷ (0 ∷ [])))

cleaned : normalize_branch_ids lists plain_bcrypt none_blank asked ≡ 81 ∷ (82 ∷ [])
cleaned = refl

assert_branches_exist_iff_example :
    (assert_branches_exist lists plain_bcrypt none_blank 7
        (normalize_branch_ids lists plain_bcrypt none_blank asked)
        offices
      ≡ (ok tt, offices))
    ↔ All (HasBranch 7 offices.branches) (normalize_branch_ids lists plain_bcrypt none_blank asked)
assert_branches_exist_iff_example =
    assert_branches_exist_iff lists list_groups plain_bcrypt none_blank 7 offices asked
      (((λ e. ground arith), tt), (tt, tt))

abbrev hired : CreateUserDto
hired = record {
  name = 26;
  email = 27;
  password = 28;
  role = some Role.driver;
  branch_id = some 81;
  branch_ids = some asked;
}

abbrev promoted : UpdateUserDto
promoted = record {
  name = none;
  password = none;
  role = some Role.employee;
  is_active = some false;
  branch_id = none;
  branch_ids = some (82 ∷ []);
}

abbrev as_bob : CurrentUser
as_bob = record { id = 40; role = Role.admin }

offices-UserKeys : UserKeys offices.users
offices-UserKeys a b m n =
    two_keyed (λ x. x.id) (bob ApprovalStatus.approved true) eve a b (λ e. ground arith) m n

-- An employee is changed, and a request to delete the administrator refused.
Reach-Safe_example :
    Safe offices.users
      (Accounts.remove lists plain_bcrypt none_blank 60 7 40 as_bob
        (Accounts.update lists plain_bcrypt none_blank
          (λ k. k)
          0
          7
          41
          promoted
          as_bob
          offices).1).1.users
Reach-Safe_example =
    Reach-Safe lists plain_bcrypt none_blank
      (Reach.next (Reach.next Reach.here (Step.updates (λ k. k) 0 7 41 promoted as_bob refl))
        (Step.removes 60 7 40 as_bob refl))
      offices-UserKeys

update-Stands_example :
    Stands
      (bob ApprovalStatus.approved true)
      (Accounts.update lists plain_bcrypt none_blank
        (λ k. k)
        0
        7
        40
        promoted
        as_bob
        offices).1.users
update-Stands_example =
    update-Stands lists plain_bcrypt none_blank 7 40 offices as_bob
      (bob ApprovalStatus.approved true) (Memᴰ.head refl) refl (λ k. k) 0 promoted
