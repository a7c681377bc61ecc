-- ===== src/Users/Requests.antt =====
-- users.service.ts: the DTOs, the rows that they make, and the tests of the queries.
use node_vms.Prelude.{
  ℕ, Bool, true, false, ◌&&◌, ◌||◌, not, Option, none, some, List, [], ◌∷◌, filter_by, ◌==◌,
  is_none, is_some, given, get_or, if◌then◌else◌,
}
use node_vms.Schema.{User, UserBranch, Branch, Role, ApprovalStatus, is_manageable}
use node_vms.Auth.Crypto.{Bcrypt}

pub record CreateUserDto : Type 0 where
  pub name : ℕ
  pub email : ℕ
  pub password : ℕ
  pub role : Option Role
  pub branch_id : Option ℕ
  pub branch_ids : Option (List ℕ)

-- `branch_id` is undefined, null, or a key.
pub record UpdateUserDto : Type 0 where
  pub name : Option ℕ
  pub password : Option ℕ
  pub role : Option Role
  pub is_active : Option Bool
  pub branch_id : Option (Option ℕ)
  pub branch_ids : Option (List ℕ)

pub record CurrentUser : Type 0 where
  pub id : ℕ
  pub role : Role

-- What `userSelect` picks: never the password. The branches are shown by their keys.
pub record UserView : Type 0 where
  pub id : ℕ
  pub tenant_id : ℕ
  pub branch_id : Option ℕ
  pub name : ℕ
  pub email : ℕ
  pub role : Role
  pub approval_status : ApprovalStatus
  pub is_active : Bool
  pub user_branches : List ℕ

abbrev pub has_user_key : ℕ → User → Bool
has_user_key id u = u.id == id

-- `assertManageableRole` passes.
abbrev pub role_allowed : Option Role → Bool
role_allowed none = true
role_allowed (some role) = is_manageable role

-- `[...new Set(ids)]`
abbrev pub distinct_ids : List ℕ → List ℕ
distinct_ids [] = []
distinct_ids (x ∷ xs) = x ∷ filter_by (λ y. not (y == x)) (distinct_ids xs)

abbrev pub one_of : List ℕ → ℕ → Bool
one_of [] k = false
one_of (x ∷ xs) k = x == k || one_of xs k

-- `ids[0]`
abbrev pub first_of : List ℕ → Option ℕ
first_of [] = none
first_of (x ∷ xs) = some x

-- `...(dto.branchId ? [dto.branchId] : [])`
abbrev pub as_list : Option ℕ → List ℕ
as_list branch_id = if given branch_id then get_or branch_id 0 ∷ [] else []

abbrev pub link_of : ℕ → ℕ → UserBranch → Bool
link_of user_id branch_id r = r.user_id == user_id && r.branch_id == branch_id

abbrev pub counted : ℕ → List ℕ → Branch → Bool
counted tenant_id branch_ids b =
    b.tenant_id == tenant_id && (is_none b.deleted_at && one_of branch_ids b.id)

-- The branch that `update` writes, given the list of branches if there is one.
abbrev pub branch_after : UpdateUserDto → Option (List ℕ) → User → Option ℕ
branch_after dto incoming u = elim dto.branch_id [
  | some b ↦ (if given b then b else none)
  | none ↦ elim incoming [ none ↦ u.branch_id | some ids ↦ first_of ids ]
]

-- `Object.keys(data).length > 0`: a list of branches sets the branch, too.
abbrev pub has_user_updates : UpdateUserDto → Bool
has_user_updates dto =
    is_some dto.name
    || (is_some dto.role
        || (is_some dto.is_active
            || (is_some dto.branch_id || (is_some dto.password || is_some dto.branch_ids))))

module _ (b : Bcrypt) (salt : ℕ) where
  abbrev pub new_user : ℕ → ℕ → Option ℕ → CreateUserDto → User
  new_user id tenant_id branch_id dto = record {
    id = id;
    tenant_id = tenant_id;
    branch_id = branch_id;
    name = dto.name;
    email = dto.email;
    password = b.hash salt dto.password;
    role = get_or dto.role Role.employee;
    approval_status = ApprovalStatus.approved;
    is_active = true;
    deleted_at = none;
  }

  -- `hashPassword`, where there is one.
  abbrev pub hashed : Option ℕ → ℕ → ℕ
  hashed none old = old
  hashed (some password) old = b.hash salt password

  abbrev pub edited : UpdateUserDto → Option (List ℕ) → User → User
  edited dto incoming u = record u {
    name = get_or dto.name u.name;
    role = get_or dto.role u.role;
    is_active = get_or dto.is_active u.is_active;
    branch_id = branch_after dto incoming u;
    password = hashed dto.password u.password;
  }
