-- ===== src/Maintenance/Itemised.antt =====
-- maintenance.service.ts: the price of a log against its items.
use node_vms.Prelude.{
  ℕ, ◌+◌, ◌≡◌, ◌≢◌, sym, ap, ◌∙◌, ◌⊎◌, inl, inr, false, some, List, [], ◌∷◌, All, All-Listed,
  All-of_Listed, Listed, ◌==◌, if◌then◌else◌, arith, total_of, total_of_none, sum_of, Option-cases,
}
use node_vms.Schema.{MaintenanceLog, MaintenanceItem}
use node_vms.Database.Client.{Client}
use node_vms.Database.Action.{Db, put_maintenance_logs, put_maintenance_items}
use node_vms.Database.Lookup.{Listed-insert, Listed-insert_self}
use node_vms.Database.Pairs.{Listed-inserted}
use node_vms.EntityValidator.{is_tenant_vehicle}
use node_vms.Maintenance.{
  CreateMaintenanceItemDto, CreateMaintenanceLogDto, items_given, price, new_log, new_part, part_of,
  insert_parts, create_log, create,
}

abbrev pub HasLog : List MaintenanceLog → MaintenanceItem → Type 0
HasLog logs i = (m : MaintenanceLog) × Listed m logs × (m.id ≡ i.maintenance_id)

-- A log with items costs what they cost, and every item belongs to a log.
pub record Itemised (s : Db) : Type 0 where
  pub priced :
      (m : MaintenanceLog) (i : MaintenanceItem)
      → Listed m s.maintenance_logs
      → Listed i s.maintenance_items
      → i.maintenance_id ≡ m.id
      → m.total_cost ≡ total_of (λ j. j.cost) (part_of m.id) s.maintenance_items
  pub owned : (i : MaintenanceItem) → Listed i s.maintenance_items → HasLog s.maintenance_logs i

module _ (c : Client) (id : ℕ) where
  -- The items that are there already, and the new ones.
  total_of-insert_parts :
      (items : List CreateMaintenanceItemDto) (t : List MaintenanceItem) (k : ℕ)
      → total_of (λ j. j.cost) (part_of k) (insert_parts c id items t)
        ≡ (if id == k then sum_of (λ i. i.cost) items else 0) + total_of (λ j. j.cost) (part_of k) t
  total_of-insert_parts [] t k = ground arith
  total_of-insert_parts (i ∷ items) t k =
      rw (c.insert_rows (new_part id i) (insert_parts c id items t))
        (ground (arith, total_of-insert_parts items t k))

  Listed-insert_parts :
      (items : List CreateMaintenanceItemDto) (t : List MaintenanceItem) (i : MaintenanceItem)
      → Listed i (insert_parts c id items t)
      → (i.maintenance_id ≡ id) ⊎ Listed i t
  Listed-insert_parts [] t i m = inr m
  Listed-insert_parts (x ∷ items) t i m =
      elim (Listed-inserted c (insert_parts c id items t) i (new_part id x) m) [
        | inl e ↦ inl (ap (λ y. y.maintenance_id) e)
        | inr n ↦ Listed-insert_parts items t i n
      ]

module _ (c : Client) (s : Db) (id tenant_id : ℕ) (dto : CreateMaintenanceLogDto) where
  abbrev created : ℕ → Db
  created total_cost =
      put_maintenance_items (insert_parts c id (items_given dto) s.maintenance_items)
        (put_maintenance_logs (c.insert (new_log id tenant_id total_cost dto) s.maintenance_logs) s)

  create_cases :
      ((create c id tenant_id dto s).1 ≡ s)
      ⊎ ((total_cost : ℕ) × (price (items_given dto) dto.total_cost ≡ some total_cost)
          × ((create c id tenant_id dto s).1 ≡ created total_cost))
  unfolding create create_log
  create_cases = elim (Option-cases (price (items_given dto) dto.total_cost)) [
    | inl e ↦ inl (ground arith)
    | inr (k, e) ↦
        elim (Option-cases (c.find_first (is_tenant_vehicle tenant_id dto.vehicle_id) s.vehicles)) [
          | inl g ↦ inl (ground arith)
          | inr (v, g) ↦ inr (k, e, ground arith)
        ]
  ]

  module _ (h : Itemised s) (fresh : All (λ m. m.id ≢ id) s.maintenance_logs) where
    no_part : total_of (λ j. j.cost) (part_of id) s.maintenance_items ≡ 0
    no_part =
        total_of_none (λ j. j.cost) (part_of id) s.maintenance_items
          (All-of_Listed (λ j. part_of id j ≡ false) s.maintenance_items
            (λ i n.
              let (k, l, g) = h.owned i n in
              let other = All-Listed _ s.maintenance_logs fresh l in ground arith))

    new_priced :
        (items : List CreateMaintenanceItemDto) (total_cost : ℕ) (i : MaintenanceItem)
        → price items dto.total_cost ≡ some total_cost
        → Listed i (insert_parts c id items s.maintenance_items)
        → i.maintenance_id ≡ id
        → total_cost
          ≡ total_of (λ j. j.cost) (part_of id) (insert_parts c id items s.maintenance_items)
    new_priced [] total_cost i e m g =
        let (k, l, f) = h.owned i m in
        let other = All-Listed _ s.maintenance_logs fresh l in absurd (other (f ∙ g))
    new_priced (x ∷ items) total_cost i e m g =
        let sum = total_of-insert_parts c id (x ∷ items) s.maintenance_items id in
        let zero_part = no_part in ground arith

    old_priced :
        (m : MaintenanceLog) (i : MaintenanceItem)
        → Listed m s.maintenance_logs
        → Listed i (insert_parts c id (items_given dto) s.maintenance_items)
        → i.maintenance_id ≡ m.id
        → m.total_cost
          ≡ total_of
              (λ j. j.cost)
              (part_of m.id)
              (insert_parts c id (items_given dto) s.maintenance_items)
    old_priced m i n l e =
        let other = All-Listed _ s.maintenance_logs fresh n in
        let sum = total_of-insert_parts c id (items_given dto) s.maintenance_items m.id in
        elim (Listed-insert_parts c id (items_given dto) s.maintenance_items i l) [
          | inl g ↦ absurd (other (sym e ∙ g))
          | inr k ↦ let old = h.priced m i n k e in ground arith
        ]

    created-Itemised :
        (total_cost : ℕ)
        → price (items_given dto) dto.total_cost ≡ some total_cost
        → Itemised (created total_cost)
    created-Itemised total_cost e = record {
      priced = λ m i n l g.
          elim (Listed-inserted c s.maintenance_logs m (new_log id tenant_id total_cost dto) n) [
            | inl f ↦ rw f (new_priced (items_given dto) total_cost i e l (g ∙ ap (λ y. y.id) f))
            | inr k ↦ old_priced m i k l g
          ];
      owned = λ i l. elim (Listed-insert_parts c id (items_given dto) s.maintenance_items i l) [
        | inl g ↦
            (new_log id tenant_id total_cost dto, Listed-insert_self c s.maintenance_logs, sym g)
        | inr k ↦
            let (m, n, g) = h.owned i k in
            (m, Listed-insert c s.maintenance_logs (new_log id tenant_id total_cost dto) n, g)
      ];
    }

    -- If every log that has items costs what they cost and every item belongs to a log, then
    -- recording a log under a fresh id, with items, with a price, with both or refused for want of
    -- either, leaves all of that so.
    pub create-Itemised : Itemised (create c id tenant_id dto s).1
    create-Itemised = elim create_cases [
      | inl e ↦ rw e h
      | inr (total_cost, e, f) ↦ rw f (created-Itemised total_cost e)
    ]
