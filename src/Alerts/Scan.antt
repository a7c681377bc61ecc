-- ===== src/Alerts/Scan.antt =====
-- alerts.service.ts: the alerts that a scan adds.
use node_vms.Prelude.{
  ℕ, ◌+◌, ◌≡◌, refl, ap, ◌∙◌, ◌⊎◌, inl, inr, List, [], ◌∷◌, length, All, Listed, arith,
}
use mathlib.Core.List.{Memᴰ}
use node_vms.Schema.{Alert, Notice}
use node_vms.Database.Client.{Client}
use node_vms.Database.Errors.{ok}
use node_vms.Database.Action.{Db}
use node_vms.Database.Lookup.{Listed-insert, Listed-insert_self}
use node_vms.Database.Pairs.{Listed-inserted}
use node_vms.Alerts.{ScanResult, new_alert, create_alerts, scan}
use node_vms.Alerts.Due.{Due, notices, due-Listed, notices-Due, length-notices}

module _ (c : Client) (key : ℕ → ℕ) (tenant_id : ℕ) where
  old-Listed :
      (ns : List Notice) (t : List Alert) (a : Alert)
      → Listed a t
      → Listed a (create_alerts c key tenant_id ns t)
  old-Listed [] t a m = m
  old-Listed (n ∷ ns) t a m =
      Listed-insert c (create_alerts c key tenant_id ns t) _ (old-Listed ns t a m)

  raised-Listed :
      (ns : List Notice) (t : List Alert) (n : Notice)
      → Listed n ns
      → (id : ℕ) × Listed (new_alert c id tenant_id n) (create_alerts c key tenant_id ns t)
  raised-Listed [] t n m = elim m [ ]
  raised-Listed (x ∷ ns) t n (Memᴰ.head e) =
      (key (length ns), rw e (Listed-insert_self c (create_alerts c key tenant_id ns t)))
  raised-Listed (x ∷ ns) t n (Memᴰ.tail m) =
      let (id, l) = raised-Listed ns t n m in
      (id, Listed-insert c (create_alerts c key tenant_id ns t) _ l)

  created-cases :
      (P : Notice → Type 0) (ns : List Notice) (t : List Alert) (a : Alert)
      → All P ns
      → Listed a (create_alerts c key tenant_id ns t)
      → Listed a t ⊎ (P a.notice × (a.tenant_id ≡ tenant_id))
  created-cases P [] t a h m = inl m
  created-cases P (n ∷ ns) t a (p, h) m =
      elim (Listed-inserted c (create_alerts c key tenant_id ns t) a _ m) [
        | inl e ↦ inr (rw e (p, refl))
        | inr l ↦ created-cases P ns t a h l
      ]

  created-length :
      (ns : List Notice) (t : List Alert)
      → length (create_alerts c key tenant_id ns t) ≡ length ns + length t
  created-length [] t = omega arith
  created-length (n ∷ ns) t =
      rw
        (c.insert_rows (new_alert c (key (length ns)) tenant_id n)
          (create_alerts c key tenant_id ns t))
        (let e = created-length ns t in omega arith)

-- A scan answers. The alerts of before stay, each thing that is due gets an unread alert of the
-- tenant, every other alert was there before or is of the tenant and due, and the number of
-- alerts grows by the number the answer gives.
pub scan-Due :
    (c : Client) (key : ℕ → ℕ) (now tenant_id days_ahead : ℕ) (s : Db)
    → (v : ScanResult) × ((scan c key now tenant_id days_ahead s).0 ≡ ok v)
      × ((a : Alert)
          → Listed a s.alerts
          → Listed a (scan c key now tenant_id days_ahead s).1.alerts)
      × ((n : Notice)
          → Due c tenant_id now days_ahead s n
          → (id : ℕ) × Listed
              (new_alert c id tenant_id n)
              (scan c key now tenant_id days_ahead s).1.alerts)
      × ((a : Alert)
          → Listed a (scan c key now tenant_id days_ahead s).1.alerts
          → Listed a s.alerts
            ⊎ (Due c tenant_id now days_ahead s a.notice × (a.tenant_id ≡ tenant_id)))
      × (length (scan c key now tenant_id days_ahead s).1.alerts ≡ v.created + length s.alerts)
unfolding scan
scan-Due c key now tenant_id days_ahead s =
    let ns = notices c tenant_id now days_ahead s in
    let length-raised =
      created-length c key tenant_id ns s.alerts
      ∙ ap (λ n. n + length s.alerts) (length-notices c tenant_id now days_ahead s) in
    (
      _,
      refl,
      old-Listed c key tenant_id ns s.alerts,
      (λ n d.
          raised-Listed c key tenant_id ns s.alerts n
            (due-Listed c tenant_id now days_ahead s n d)),
      (λ a m.
          created-cases c key tenant_id _ ns s.alerts a (notices-Due c tenant_id now days_ahead s)
            m),
      length-raised,
    )
