-- ===== src/Branches.antt =====
-- src/branches/branches.service.ts, with its DTOs. `id` is the key that the database gives to a new
-- row and `now` the clock. The text of a conflict is the code's without the name that it quotes.
pub mod Names
pub mod Removal
use node_vms.Prelude.{
  ℕ, ◌+◌, Bool, true, false, ◌&&◌, not, Option, none, some, List, map, length, sum_of, ◌==◌,
  is_none, is_some, given, is_just, get_or, or_else,
}
use node_vms.Schema.{Branch, User, Vehicle, Driver, Booking, WorkshopJob}
use node_vms.Database.Client.{Client}
use node_vms.Database.Errors.{not_found, conflict, ok}
use node_vms.Database.Action.{
  Db, Action, pure, throw_if, or_throw, when, modify, transaction, ◌>>=◌, ◌>>◌, find_first,
  insert_row, update_row, put_branches, put_users, put_user_branches, put_vehicles, put_drivers,
}
use node_vms.EntityValidator.{is_branch}

pub record CreateBranchDto : Type 0 where
  pub name : ℕ
  pub address : Option ℕ
  pub phone : Option ℕ

pub record UpdateBranchDto : Type 0 where
  pub name : Option ℕ
  pub address : Option ℕ
  pub phone : Option ℕ
  pub is_active : Option Bool

-- `_count`, which counts deleted rows too.
pub record BranchCounts : Type 0 where
  pub users : ℕ
  pub vehicles : ℕ
  pub drivers : ℕ
  pub bookings : ℕ
  pub workshop_jobs : ℕ

pub record BranchSummary : Type 0 where
  pub branch : Branch
  pub counts : BranchCounts

pub record BranchDetails : Type 0 where
  pub branch : Branch
  pub users : List User
  pub vehicles : List Vehicle
  pub drivers : List Driver
  pub counts : BranchCounts

pub record Totals : Type 0 where
  pub branches : ℕ
  pub counts : BranchCounts

abbrev pub new_branch : ℕ → ℕ → CreateBranchDto → Branch
new_branch id tenant_id dto = record {
  id = id;
  tenant_id = tenant_id;
  name = dto.name;
  address = dto.address;
  phone = dto.phone;
  is_active = true;
  deleted_at = none;
}

abbrev pub has_branch_key : ℕ → Branch → Bool
has_branch_key id b = b.id == id

abbrev pub named : ℕ → ℕ → Branch → Bool
named tenant_id name b = b.tenant_id == tenant_id && (b.name == name && is_none b.deleted_at)

abbrev pub other_named : ℕ → ℕ → ℕ → Branch → Bool
other_named tenant_id id name b = named tenant_id name b && not (b.id == id)

abbrev pub edited : UpdateBranchDto → Branch → Branch
edited dto b = record b {
  name = get_or dto.name b.name;
  address = or_else dto.address b.address;
  phone = or_else dto.phone b.phone;
  is_active = get_or dto.is_active b.is_active;
}

module _ (c : Client) where
  abbrev pub counts_of : Db → Branch → BranchCounts
  counts_of s b = record {
    users = length (c.find_many (λ u. is_just u.branch_id b.id) s.users);
    vehicles = length (c.find_many (λ v. is_just v.branch_id b.id) s.vehicles);
    drivers = length (c.find_many (λ d. is_just d.branch_id b.id) s.drivers);
    bookings = length (c.find_many (λ k. is_just k.branch_id b.id) s.bookings);
    workshop_jobs = length (c.find_many (λ j. is_just j.branch_id b.id) s.workshop_jobs);
  }

  abbrev pub summary_of : Db → Branch → BranchSummary
  summary_of s b = record { branch = b; counts = counts_of s b }

  unfoldable pub create : ℕ → ℕ → CreateBranchDto → Action Branch
  create id tenant_id dto = do
    existing ← find_first c (λ s. s.branches) (named tenant_id dto.name)
    throw_if (is_some existing)
        (conflict "A branch with this name already exists for your organization")
    insert_row c (λ s. s.branches) put_branches (new_branch id tenant_id dto)

  unfoldable pub find_all : ℕ → Action (List BranchSummary)
  find_all tenant_id s = (
    ok (
        map (summary_of s)
          (c.find_many (λ b. b.tenant_id == tenant_id && is_none b.deleted_at) s.branches)),
    s,
  )

  abbrev pub details_of : Db → Branch → BranchDetails
  details_of s b = record {
    branch = b;
    users = c.find_many (λ u. is_just u.branch_id b.id && is_none u.deleted_at) s.users;
    vehicles = c.find_many (λ v. is_just v.branch_id b.id && is_none v.deleted_at) s.vehicles;
    drivers = c.find_many (λ d. is_just d.branch_id b.id && is_none d.deleted_at) s.drivers;
    counts = counts_of s b;
  }

  unfoldable pub find_one : ℕ → ℕ → Action BranchDetails
  find_one tenant_id id = do
    found ← find_first c (λ s. s.branches) (is_branch tenant_id id)
    branch ← or_throw found (not_found "Branch not found")
    λ s. (ok (details_of s branch), s)

  abbrev pub totals_of : List BranchSummary → Totals
  totals_of branches = record {
    branches = length branches;
    counts = record {
      users = sum_of (λ b. b.counts.users) branches;
      vehicles = sum_of (λ b. b.counts.vehicles) branches;
      drivers = sum_of (λ b. b.counts.drivers) branches;
      bookings = sum_of (λ b. b.counts.bookings) branches;
      workshop_jobs = sum_of (λ b. b.counts.workshop_jobs) branches;
    };
  }

  unfoldable pub get_aggregate_summary : ℕ → Action (Totals × List BranchSummary)
  get_aggregate_summary tenant_id = do
    branches ← find_all tenant_id
    pure (totals_of branches, branches)

  unfoldable pub update : ℕ → ℕ → UpdateBranchDto → Action Branch
  update tenant_id id dto = do
    found ← find_first c (λ s. s.branches) (is_branch tenant_id id)
    branch ← or_throw found (not_found "Branch not found")
    when (given dto.name && not (is_just dto.name branch.name)) (do
      dup ← find_first c (λ s. s.branches) (other_named tenant_id id (get_or dto.name 0))
      throw_if (is_some dup)
          (conflict "A branch with this name already exists for your organization"))
    update_row c (λ s. s.branches) put_branches (has_branch_key id) (edited dto)

  -- The four statements that unlink what points to the branch.
  abbrev pub unlinked : ℕ → Db → Db
  unlinked id s = record s {
    users = c.update (λ u. is_just u.branch_id id) (λ u. record u { branch_id = none }) s.users;
    user_branches = c.delete (λ r. r.branch_id == id) s.user_branches;
    vehicles =
        c.update (λ v. is_just v.branch_id id) (λ v. record v { branch_id = none }) s.vehicles;
    drivers = c.update (λ d. is_just d.branch_id id) (λ d. record d { branch_id = none }) s.drivers;
  }

  unfoldable pub remove : ℕ → ℕ → ℕ → Action (Unit {0})
  remove now tenant_id id = do
    found ← find_first c (λ s. s.branches) (is_branch tenant_id id)
    branch ← or_throw found (not_found "Branch not found")
    transaction (do
      modify (unlinked id)
      row ←
          update_row c (λ s. s.branches) put_branches (has_branch_key id)
            (λ b. record b { deleted_at = some now })
      pure tt)
