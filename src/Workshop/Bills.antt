-- ===== src/Workshop/Bills.antt =====
-- workshop.service.ts over time: the bill of each job card against its items.
use node_vms.Prelude.{
  ℕ, ◌≡◌, ◌≢◌, refl, sym, ◌∙◌, ◌⊎◌, inl, inr, Bool, false, some, List, All, All-Listed,
  All-of_Listed, Listed, arith, total_of, total_of_none, Option-cases,
}
use node_vms.Schema.{WorkshopJob, WorkshopItem, WorkshopJobStatus}
use node_vms.Database.Client.{Client}
use node_vms.Database.Action.{Db, put_workshop_jobs, put_workshop_items}
use node_vms.Database.Lookup.{Listed-insert}
use node_vms.Database.Pairs.{Listed-inserted, Listed-update_elim, Listed-changed, changed}
use node_vms.Workshop.{
  CreateWorkshopJobDto, AddWorkshopItemDto, new_job, new_item, charged, with_status, item_of,
  has_job_key, create_job, charge, add_item, update_status,
}

-- What the job's items cost.
abbrev pub cost_of_items : List WorkshopItem → WorkshopJob → ℕ
cost_of_items items j = total_of (λ i. i.cost) (item_of j.id) items

abbrev pub HasJob : List WorkshopJob → WorkshopItem → Type 0
HasJob jobs i = (j : WorkshopJob) × Listed j jobs × (j.id ≡ i.job_id)

-- Every job costs what its items cost, and every item belongs to a job.
pub record BillsAgree (s : Db) : Type 0 where
  pub billed :
      (j : WorkshopJob) → Listed j s.workshop_jobs → j.total_cost ≡ cost_of_items s.workshop_items j
  pub owned : (i : WorkshopItem) → Listed i s.workshop_items → HasJob s.workshop_jobs i

module _ (c : Client) (p : WorkshopJob → Bool) (f : WorkshopJob → WorkshopJob)
    (same : (j : WorkshopJob) → (f j).id ≡ j.id) where
  changed_id : (j : WorkshopJob) → (changed p f j).id ≡ j.id
  changed_id j = ground (arith, same j)

  HasJob-update :
      (jobs : List WorkshopJob) (i : WorkshopItem) → HasJob jobs i → HasJob (c.update p f jobs) i
  HasJob-update jobs i (j, m, e) = (changed p f j, Listed-changed c p f jobs j m, changed_id j ∙ e)

abbrev pub charged_state : Client → Db → ℕ → AddWorkshopItemDto → Db
charged_state c s job_id dto =
    put_workshop_jobs (c.update (has_job_key job_id) (charged dto.cost) s.workshop_jobs)
      (put_workshop_items (c.insert (new_item job_id dto) s.workshop_items) s)

module _ (c : Client) (s : Db) (h : BillsAgree s) where
  created-BillsAgree :
      (id tenant_id : ℕ) (dto : CreateWorkshopJobDto)
      → All (λ j. j.id ≢ id) s.workshop_jobs
      → BillsAgree (put_workshop_jobs (c.insert (new_job id tenant_id dto) s.workshop_jobs) s)
  created-BillsAgree id tenant_id dto fresh = record {
    billed = λ j m. elim (Listed-inserted c s.workshop_jobs j (new_job id tenant_id dto) m) [
      | inl e ↦ rw e (
          sym (
            total_of_none (λ k. k.cost) (item_of id) s.workshop_items
              (All-of_Listed (λ k. item_of id k ≡ false) s.workshop_items
                (λ i n.
                  let (k, l, g) = h.owned i n in
                  let other = All-Listed _ s.workshop_jobs fresh l in ground arith))))
      | inr n ↦ h.billed j n
    ];
    owned = λ i n.
        let (k, l, g) = h.owned i n in
        (k, Listed-insert c s.workshop_jobs (new_job id tenant_id dto) l, g);
  }

  pub charged-BillsAgree :
      (job : WorkshopJob) (job_id : ℕ) (dto : AddWorkshopItemDto)
      → Listed job s.workshop_jobs
      → job.id ≡ job_id
      → BillsAgree (charged_state c s job_id dto)
  charged-BillsAgree job job_id dto m e = record {
    billed =
        Listed-update_elim c
          (λ j. j.total_cost ≡ cost_of_items (c.insert (new_item job_id dto) s.workshop_items) j)
          (has_job_key job_id) (charged dto.cost) s.workshop_jobs
          (λ j n k.
            rw (c.insert_rows (new_item job_id dto) s.workshop_items)
              (let b = h.billed j n in ground arith))
          (λ j n k.
            rw (c.insert_rows (new_item job_id dto) s.workshop_items)
              (let b = h.billed j n in ground arith));
    owned = λ i n.
        HasJob-update c (has_job_key job_id) (charged dto.cost) (λ j. refl) s.workshop_jobs i
          (elim (Listed-inserted c s.workshop_items i (new_item job_id dto) n) [
            | inl g ↦ (job, m, rw g e)
            | inr l ↦ h.owned i l
          ]);
  }

  status-BillsAgree :
      (job_id : ℕ) (status : WorkshopJobStatus)
      → BillsAgree
          (put_workshop_jobs (c.update (has_job_key job_id) (with_status status) s.workshop_jobs) s)
  status-BillsAgree job_id status = record {
    billed =
        Listed-update_elim c (λ j. j.total_cost ≡ cost_of_items s.workshop_items j)
          (has_job_key job_id) (with_status status) s.workshop_jobs (λ j n k. h.billed j n)
          (λ j n k. h.billed j n);
    owned = λ i n.
        HasJob-update c (has_job_key job_id) (with_status status) (λ j. refl) s.workshop_jobs i
          (h.owned i n);
  }

module _ (c : Client) (s : Db) where
  create_job_cases :
      (id tenant_id : ℕ) (dto : CreateWorkshopJobDto)
      → ((create_job c id tenant_id dto s).1 ≡ s)
        ⊎ ((create_job c id tenant_id dto s).1
            ≡ put_workshop_jobs (c.insert (new_job id tenant_id dto) s.workshop_jobs) s)
  unfolding create_job
  create_job_cases id tenant_id dto = ground arith

  charge_cases :
      (job_id : ℕ) (dto : AddWorkshopItemDto)
      → ((charge c job_id dto s).1 ≡ s)
        ⊎ ((job : WorkshopJob) × (c.find_first (has_job_key job_id) s.workshop_jobs ≡ some job)
            × ((charge c job_id dto s).1 ≡ charged_state c s job_id dto))
  unfolding charge
  charge_cases job_id dto =
      elim (Option-cases (c.find_first (has_job_key job_id) s.workshop_jobs)) [
        | inl e ↦ inl (ground arith)
        | inr (job, e) ↦ inr (job, e, ground arith)
      ]

  add_item_cases :
      (tenant_id job_id : ℕ) (dto : AddWorkshopItemDto)
      → ((add_item c tenant_id job_id dto s).1 ≡ s)
        ⊎ ((add_item c tenant_id job_id dto s).1 ≡ (charge c job_id dto s).1)
  unfolding add_item
  add_item_cases tenant_id job_id dto = ground arith

  update_status_cases :
      (tenant_id job_id : ℕ) (status : WorkshopJobStatus)
      → ((update_status c tenant_id job_id status s).1 ≡ s)
        ⊎ ((update_status c tenant_id job_id status s).1
            ≡ put_workshop_jobs
                (c.update (has_job_key job_id) (with_status status) s.workshop_jobs)
                s)
  unfolding update_status
  update_status_cases tenant_id job_id status = ground arith

-- One request, served to its end, or a write of another component, which leaves the two tables
-- alone.
pub data Step (c : Client) (s s' : Db) : Type 0 where
  opens :
      (id tenant_id : ℕ) (dto : CreateWorkshopJobDto)
      → All (λ j. j.id ≢ id) s.workshop_jobs
      → s' ≡ (create_job c id tenant_id dto s).1
      → Step c s s'
  adds :
      (tenant_id job_id : ℕ) (dto : AddWorkshopItemDto)
      → s' ≡ (add_item c tenant_id job_id dto s).1
      → Step c s s'
  moves :
      (tenant_id job_id : ℕ) (status : WorkshopJobStatus)
      → s' ≡ (update_status c tenant_id job_id status s).1
      → Step c s s'
  others : s'.workshop_jobs ≡ s.workshop_jobs → s'.workshop_items ≡ s.workshop_items → Step c s s'

pub data Reach (c : Client) (s : Db) : Db → Type 0 where
  here : Reach c s s
  next : {t u : Db} → Reach c s t → Step c t u → Reach c s u

Step-BillsAgree : (c : Client) (s s' : Db) → Step c s s' → BillsAgree s → BillsAgree s'
Step-BillsAgree c s s' (Step.opens id tenant_id dto fresh e) h =
    elim (create_job_cases c s id tenant_id dto) [
      | inl f ↦ rw (e, f) h
      | inr f ↦ rw (e, f) (created-BillsAgree c s h id tenant_id dto fresh)
    ]
Step-BillsAgree c s s' (Step.adds tenant_id job_id dto e) h =
    elim (add_item_cases c s tenant_id job_id dto) [
      | inl f ↦ rw (e, f) h
      | inr f ↦ elim (charge_cases c s job_id dto) [
        | inl g ↦ rw (e, f, g) h
        | inr (job, found, g) ↦
            let (m, k) = c.find_first-some (has_job_key job_id) s.workshop_jobs job found in
            rw (e, f, g) (charged-BillsAgree c s h job job_id dto m (ground arith))
      ]
    ]
Step-BillsAgree c s s' (Step.moves tenant_id job_id status e) h =
    elim (update_status_cases c s tenant_id job_id status) [
      | inl f ↦ rw (e, f) h
      | inr f ↦ rw (e, f) (status-BillsAgree c s h job_id status)
    ]
Step-BillsAgree c s s' (Step.others e f) h = record {
  billed = λ j m. rw f (h.billed j (rw e at m));
  owned = λ i m. rw e (h.owned i (rw f at m));
}

-- From tables in which every job costs what its items cost and every item belongs to a job, no
-- history of served requests and of other components' writes, accepted or refused, reaches tables
-- in which one does not. A new job takes an id that no job has.
pub Reach-BillsAgree : (c : Client) {s s' : Db} → Reach c s s' → BillsAgree s → BillsAgree s'
Reach-BillsAgree c Reach.here h = h
Reach-BillsAgree c (Reach.next {t} {u} r st) h = Step-BillsAgree c t u st (Reach-BillsAgree c r h)
