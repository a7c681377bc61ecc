-- ===== src/Alerts/Daily.antt =====
-- jobs.service.ts: the alerts of the daily job.
use node_vms.Prelude.{
  ℕ, ◌≡◌, refl, sym, subst, ◌⊎◌, inl, inr, true, none, List, [], ◌∷◌, All, All-Listed,
  All-of_Listed, Listed, arith,
}
use mathlib.Core.List.{Memᴰ}
use node_vms.Schema.{Alert, Notice, Tenant}
use node_vms.Database.Client.{Client}
use node_vms.Database.Errors.{ok}
use node_vms.Database.Action.{Db, put_alerts}
use node_vms.Alerts.{is_served, new_alert, scan, scan_all, run_daily_alerts_scan}
use node_vms.Alerts.Due.{Due}
use node_vms.Alerts.Scan.{scan-Due}

-- The alert is of one of the tenants, and tells of what is due to it.
abbrev pub Owed : Client → ℕ → Db → List Tenant → Alert → Type 0
Owed c now s ts a = (t : Tenant) × Listed t ts × (a.tenant_id ≡ t.id) × Due c t.id now 30 s a.notice

module _ (c : Client) (key : ℕ → ℕ → ℕ) (now : ℕ) where
  -- What is due does not depend on the alerts.
  Due-put_alerts :
      (tenant_id days_ahead : ℕ) (s : Db) (alerts : List Alert) (n : Notice)
      → Due c tenant_id now days_ahead s n
      → Due c tenant_id now days_ahead (put_alerts alerts s) n
  Due-put_alerts tenant_id days_ahead s alerts n (Due.document d m own live soon) =
      Due.document d m own live soon
  Due-put_alerts tenant_id days_ahead s alerts n (Due.contract k m own live soon) =
      Due.contract k m own live soon
  Due-put_alerts tenant_id days_ahead s alerts n (Due.upkeep v m own live on old) =
      Due.upkeep v m own live on old

  Due-scan :
      (k : ℕ → ℕ) (id tenant_id : ℕ) (s : Db) (n : Notice)
      → Due c tenant_id now 30 s n
      → Due c tenant_id now 30 (scan c k now id 30 s).1 n
  unfolding scan
  Due-scan k id tenant_id s n d = Due-put_alerts tenant_id 30 s _ n d

  Due-before_scan :
      (k : ℕ → ℕ) (id tenant_id : ℕ) (s : Db) (n : Notice)
      → Due c tenant_id now 30 (scan c k now id 30 s).1 n
      → Due c tenant_id now 30 s n
  unfolding scan
  Due-before_scan k id tenant_id s n d =
      Due-put_alerts tenant_id 30 (scan c k now id 30 s).1 s.alerts n d

  scan_all-ok : (ts : List Tenant) (s : Db) → (scan_all c key now ts s).0 ≡ ok tt
  unfolding scan_all
  scan_all-ok [] s = refl
  scan_all-ok (t ∷ ts) s = scan_all-ok ts (scan c (key t.id) now t.id 30 s).1

  scan_all-old :
      (ts : List Tenant) (s : Db) (a : Alert)
      → Listed a s.alerts
      → Listed a (scan_all c key now ts s).1.alerts
  unfolding scan_all
  scan_all-old [] s a m = m
  scan_all-old (t ∷ ts) s a m =
      let (_, _, old, _, _, _) = scan-Due c (key t.id) now t.id 30 s in
      scan_all-old ts (scan c (key t.id) now t.id 30 s).1 a (old a m)

  scan_all-raised :
      (ts : List Tenant) (s : Db) (t : Tenant) (n : Notice)
      → Listed t ts
      → Due c t.id now 30 s n
      → (id : ℕ) × Listed (new_alert c id t.id n) (scan_all c key now ts s).1.alerts
  unfolding scan_all
  scan_all-raised [] s t n m d = elim m [ ]
  scan_all-raised (x ∷ ts) s t n (Memᴰ.head e) d =
      let (_, _, _, raised, _, _) = scan-Due c (key x.id) now x.id 30 s in
      let (id, l) = raised n (subst (λ y. Due c y.id now 30 s n) e d) in
      (
        id,
        scan_all-old ts (scan c (key x.id) now x.id 30 s).1 _ (
            subst (λ y. Listed (new_alert c id y.id n) (scan c (key x.id) now x.id 30 s).1.alerts)
              (sym e) l),
      )
  scan_all-raised (x ∷ ts) s t n (Memᴰ.tail m) d =
      scan_all-raised ts (scan c (key x.id) now x.id 30 s).1 t n m
        (Due-scan (key x.id) x.id t.id s n d)

  scan-Owed :
      (x : Tenant) (ts : List Tenant) (s : Db) (a : Alert)
      → Listed a (scan c (key x.id) now x.id 30 s).1.alerts
      → Listed a s.alerts ⊎ Owed c now s (x ∷ ts) a
  scan-Owed x ts s a m =
      let (_, _, _, _, cases, _) = scan-Due c (key x.id) now x.id 30 s in
      elim (cases a m) [ inl l ↦ inl l | inr (d, own) ↦ inr (x, Memᴰ.head refl, own, d) ]

  scan_all-cases :
      (ts : List Tenant) (s : Db) (a : Alert)
      → Listed a (scan_all c key now ts s).1.alerts
      → Listed a s.alerts ⊎ Owed c now s ts a
  unfolding scan_all
  scan_all-cases [] s a m = inl m
  scan_all-cases (x ∷ ts) s a m = elim (scan_all-cases ts (scan c (key x.id) now x.id 30 s).1 a m) [
    | inr (t, l, own, d) ↦
        inr (t, Memᴰ.tail l, own, Due-before_scan (key x.id) x.id t.id s a.notice d)
    | inl l ↦ scan-Owed x ts s a l
  ]

-- The alert is of an active tenant, and tells of what is due to it in 30 days.
abbrev pub Justified : Client → ℕ → Db → Alert → Type 0
Justified c now s a =
    (t : Tenant) × Listed t s.tenants
    × (is_served t ≡ true)
    × (a.tenant_id ≡ t.id)
    × Due c t.id now 30 s a.notice

module _ (c : Client) (key : ℕ → ℕ → ℕ) (now : ℕ) (s : Db) where
  -- If a tenant is active and not deleted and a thing is due to it in 30 days, the daily job answers
  -- and leaves an unread alert of the tenant that tells of it.
  pub run_daily_alerts_scan-raises :
      (t : Tenant)
      → Listed t s.tenants
      → t.is_active ≡ true
      → t.deleted_at ≡ none
      → (n : Notice) → Due c t.id now 30 s n
      → ((run_daily_alerts_scan c key now s).0 ≡ ok tt)
        × (id : ℕ) × Listed (new_alert c id t.id n) (run_daily_alerts_scan c key now s).1.alerts
  unfolding run_daily_alerts_scan
  run_daily_alerts_scan-raises t m on live n d =
      let ts = c.find_many is_served s.tenants in
      let (id, l) =
        scan_all-raised c key now ts s t n
          (c.find_many-complete is_served s.tenants t m (ground arith)) d in
      (scan_all-ok c key now ts s, id, l)

  -- The daily job keeps every alert that was there before. Every other alert afterwards is of a
  -- tenant that is active and not deleted, and tells of a thing due to that tenant in 30 days.
  pub run_daily_alerts_scan-Justified :
      All (λ a. Listed a (run_daily_alerts_scan c key now s).1.alerts) s.alerts
      × All
          (λ a. Listed a s.alerts ⊎ Justified c now s a)
          (run_daily_alerts_scan c key now s).1.alerts
  unfolding run_daily_alerts_scan
  run_daily_alerts_scan-Justified =
      let ts = c.find_many is_served s.tenants in
      (
        All-of_Listed _ s.alerts (scan_all-old c key now ts s),
        All-of_Listed _ _ (λ a m. elim (scan_all-cases c key now ts s a m) [
          | inl l ↦ inl l
          | inr (t, l, own, d) ↦
              let (listed, hit) = All-Listed _ ts (c.find_many-sound is_served s.tenants) l in
              inr (t, listed, hit, own, d)
        ]),
      )
