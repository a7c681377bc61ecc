-- ===== src/Workshop/Outcomes.antt =====
-- workshop.service.ts: the card that a request gets back.
use node_vms.Prelude.{ℕ, ◌≡◌, refl, subst, sym, ◌∙◌, inl, inr, Listed, arith, sum_of, Option-cases}
use node_vms.Schema.{WorkshopJob}
use node_vms.Database.Client.{Client}
use node_vms.Database.Errors.{ok, err, Error}
use node_vms.Database.Action.{Db}
use node_vms.Database.Aggregates.{Aggregates}
use node_vms.Database.Pairs.{Listed-changed}
use node_vms.Workshop.{
  AddWorkshopItemDto, JobCard, has_job_key, item_of, charged, card_of, charge, add_item,
}
use node_vms.Workshop.Bills.{BillsAgree, charged-BillsAgree, charged_state}

-- The card's total is what the items on it cost.
abbrev pub AddsUp : JobCard → Type 0
AddsUp card = sum_of (λ i. i.cost) card.items ≡ card.job.total_cost

module _ (c : Client) (a : Aggregates c) where
  card_of-AddsUp :
      (s : Db) (job : WorkshopJob)
      → BillsAgree s
      → Listed job s.workshop_jobs
      → AddsUp (card_of c s job)
  card_of-AddsUp s job h m =
      a.find_many_sum (λ i. i.cost) (item_of job.id) s.workshop_items ∙ sym (h.billed job m)

  module _ (s : Db) (h : BillsAgree s) where
    charge-AddsUp :
        (job_id : ℕ) (dto : AddWorkshopItemDto) (card : JobCard)
        → (charge c job_id dto s).0 ≡ ok card
        → AddsUp card
    unfolding charge
    charge-AddsUp job_id dto card e =
        elim (Option-cases (c.find_first (has_job_key job_id) s.workshop_jobs)) [
          | inl g ↦ ground arith
          | inr (job, g) ↦
              let (m, k) = c.find_first-some (has_job_key job_id) s.workshop_jobs job g in
              let bill =
                card_of-AddsUp (charged_state c s job_id dto) (charged dto.cost job)
                  (charged-BillsAgree c s h job job_id dto m (ground arith))
                  (subst
                    (λ x.
                      Listed x (c.update (has_job_key job_id) (charged dto.cost) s.workshop_jobs))
                    (rw k refl)
                    (Listed-changed c (has_job_key job_id) (charged dto.cost) s.workshop_jobs job
                      m)) in
              let same : card ≡ card_of c (charged_state c s job_id dto) (charged dto.cost job) =
                ground arith in
              rw same bill
        ]

    charge-refused :
        (job_id : ℕ) (dto : AddWorkshopItemDto) (e : Error)
        → (charge c job_id dto s).0 ≡ err e
        → (charge c job_id dto s).1 ≡ s
    unfolding charge
    charge-refused job_id dto e r = ground arith

    -- Where every job costs what its items cost and every item belongs to a job, the card that
    -- `add_item` returns has a total that the items on it add up to, and a request that is refused
    -- leaves every table as it was.
    pub add_item-AddsUp :
        (tenant_id job_id : ℕ) (dto : AddWorkshopItemDto)
        → ((card : JobCard) → (add_item c tenant_id job_id dto s).0 ≡ ok card → AddsUp card)
          × ((e : Error)
              → (add_item c tenant_id job_id dto s).0 ≡ err e
              → (add_item c tenant_id job_id dto s).1 ≡ s)
    unfolding add_item
    add_item-AddsUp tenant_id job_id dto = (
      λ card e. charge-AddsUp job_id dto card (ground arith),
      λ e r. let back = charge-refused job_id dto e in ground arith,
    )
