-- ===== src/Workshop.antt =====
-- src/workshop/workshop.service.ts, with its DTOs: job cards and their bill. `id` is the key that the
-- database gives to a new row. A cost is an exact number.
pub mod Bills
pub mod Outcomes
use node_vms.Prelude.{ℕ, ◌+◌, Bool, true, false, ◌&&◌, Option, none, some, List, map, ◌==◌, is_none}
use node_vms.Schema.{WorkshopJob, WorkshopItem, WorkshopJobStatus, job_is_completed, job_status_eq}
use node_vms.Database.Client.{Client}
use node_vms.Database.Errors.{bad_request, not_found, ok}
use node_vms.Database.Action.{
  Db, Action, pure, throw_if, or_throw, ◌>>=◌, ◌>>◌, find_first, insert_row, update_row,
  transaction, put_workshop_jobs, put_workshop_items,
}
use node_vms.EntityValidator.{is_tenant_vehicle}

pub record CreateWorkshopJobDto : Type 0 where
  pub vehicle_id : ℕ
  pub issue : ℕ

pub record AddWorkshopItemDto : Type 0 where
  pub name : ℕ
  pub cost : ℕ

-- What `jobSelect` picks: the row with its items.
pub record JobCard : Type 0 where
  pub job : WorkshopJob
  pub items : List WorkshopItem

abbrev pub is_tenant_job : ℕ → ℕ → WorkshopJob → Bool
is_tenant_job tenant_id id j = j.id == id && (j.tenant_id == tenant_id && is_none j.deleted_at)

abbrev pub has_job_key : ℕ → WorkshopJob → Bool
has_job_key id j = j.id == id

abbrev pub item_of : ℕ → WorkshopItem → Bool
item_of job_id i = i.job_id == job_id

-- `...(status && { status })`
abbrev pub has_status : Option WorkshopJobStatus → WorkshopJob → Bool
has_status none j = true
has_status (some status) j = job_status_eq j.status status

abbrev pub new_job : ℕ → ℕ → CreateWorkshopJobDto → WorkshopJob
new_job id tenant_id dto = record {
  id = id;
  tenant_id = tenant_id;
  branch_id = none;
  vehicle_id = dto.vehicle_id;
  issue = dto.issue;
  status = WorkshopJobStatus.open_;
  total_cost = 0;
  deleted_at = none;
}

abbrev pub new_item : ℕ → AddWorkshopItemDto → WorkshopItem
new_item job_id dto = record { job_id = job_id; name = dto.name; cost = dto.cost }

-- `totalCost: { increment: dto.cost }`
abbrev pub charged : ℕ → WorkshopJob → WorkshopJob
charged cost j = record j { total_cost = j.total_cost + cost }

abbrev pub with_status : WorkshopJobStatus → WorkshopJob → WorkshopJob
with_status status j = record j { status = status }

module _ (c : Client) where
  abbrev pub card_of : Db → WorkshopJob → JobCard
  card_of s job = record { job = job; items = c.find_many (item_of job.id) s.workshop_items }

  -- `select: jobSelect` on a row.
  abbrev pub job_select : WorkshopJob → Action JobCard
  job_select job s = (ok (card_of s job), s)

  unfoldable pub create_job : ℕ → ℕ → CreateWorkshopJobDto → Action JobCard
  create_job id tenant_id dto = do
    found ← find_first c (λ s. s.vehicles) (is_tenant_vehicle tenant_id dto.vehicle_id)
    vehicle ← or_throw found (not_found "Vehicle not found")
    job ← insert_row c (λ s. s.workshop_jobs) put_workshop_jobs (new_job id tenant_id dto)
    job_select job

  pub find_all : ℕ → Option WorkshopJobStatus → Action (List JobCard)
  find_all tenant_id status s = (
    ok (
        map (card_of s) (
          c.find_many
            (λ j. j.tenant_id == tenant_id && (is_none j.deleted_at && has_status status j))
            s.workshop_jobs)),
    s,
  )

  unfoldable pub find_one : ℕ → ℕ → Action JobCard
  find_one tenant_id id = do
    found ← find_first c (λ s. s.workshop_jobs) (is_tenant_job tenant_id id)
    job ← or_throw found (not_found "Workshop job not found")
    job_select job

  -- The item and the increment, in one transaction.
  unfoldable pub charge : ℕ → AddWorkshopItemDto → Action JobCard
  charge job_id dto = transaction (do
    item ← insert_row c (λ s. s.workshop_items) put_workshop_items (new_item job_id dto)
    job ←
        update_row c (λ s. s.workshop_jobs) put_workshop_jobs (has_job_key job_id)
          (charged dto.cost)
    job_select job)

  unfoldable pub add_item : ℕ → ℕ → AddWorkshopItemDto → Action JobCard
  add_item tenant_id job_id dto = do
    found ← find_first c (λ s. s.workshop_jobs) (is_tenant_job tenant_id job_id)
    job ← or_throw found (not_found "Workshop job not found")
    throw_if (job_is_completed job.status) (bad_request "Cannot add items to a completed job")
    charge job_id dto

  unfoldable pub update_status : ℕ → ℕ → WorkshopJobStatus → Action JobCard
  update_status tenant_id job_id status = do
    found ← find_first c (λ s. s.workshop_jobs) (is_tenant_job tenant_id job_id)
    job ← or_throw found (not_found "Workshop job not found")
    row ←
        update_row c (λ s. s.workshop_jobs) put_workshop_jobs (has_job_key job_id)
          (with_status status)
    job_select row
