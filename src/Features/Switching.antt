-- ===== src/Features/Switching.antt =====
-- feature-access.service.ts and feature.guard.ts: what the guard answers after a module is switched.
use node_vms.Prelude.{
  ℕ, ◌≡◌, ◌≢◌, sym, ap, ◌∙◌, some, inl, inr, Bool, true, false, arith, All, All-Listed, Listed,
  Option-cases, true≢false, List,
}
use node_vms.Schema.{FeatureAccess, Role}
use node_vms.Database.Client.{Client}
use node_vms.Database.Errors.{ok}
use node_vms.Database.Action.{Db}
use node_vms.Database.Lookup.{Unique, find_first-total, Listed-insert_self}
use node_vms.Database.Pairs.{changed, Listed-update, Listed-changed, Listed-inserted}
use node_vms.Auth.Crypto.{Payload, Jwt, Cache}
use node_vms.Auth.{Config}
use node_vms.Guards.{Route, Request, check_feature, admit}
use node_vms.Guards.Admitted.{admit_sound}
use node_vms.Features.{is_record, has_feature_id, switched, new_feature, switch, enable, disable}

module _ (c : Client) (enabled : Bool) (id tenant_id name : ℕ) (s : Db)
    (single : Unique (is_record tenant_id name) s.features) where
  -- Every record of the module says what the switch says, and there is one.
  abbrev Switched : List FeatureAccess → Type 0
  Switched t =
      ((f : FeatureAccess)
        → Listed f t
        → is_record tenant_id name f ≡ true
        → f.is_enabled ≡ enabled)
      × ((f : FeatureAccess) × Listed f t × (is_record tenant_id name f ≡ true))

  updated-Switched :
      (x : FeatureAccess)
      → Listed x s.features
      → is_record tenant_id name x ≡ true
      → Switched (c.update (has_feature_id x.id) (switched enabled) s.features)
  updated-Switched x m k = (
    λ f n hit.
        let (g, i, e) = Listed-update c (has_feature_id x.id) (switched enabled) s.features f n in
        let same = single g x i m (ground arith) k in ground arith,
    (
      changed (has_feature_id x.id) (switched enabled) x,
      Listed-changed c (has_feature_id x.id) (switched enabled) s.features x m,
      ground arith,
    ),
  )

  inserted-Switched :
      All (λ f. is_record tenant_id name f ≡ false) s.features
      → Switched (c.insert (new_feature id tenant_id name enabled) s.features)
  inserted-Switched free = (
    λ f n hit. elim (Listed-inserted c s.features f (new_feature id tenant_id name enabled) n) [
      | inl e ↦ ground arith
      | inr i ↦ absurd (true≢false hit (All-Listed _ s.features free i))
    ],
    (new_feature id tenant_id name enabled, Listed-insert_self c s.features, ground arith),
  )

  switch-Switched :
      (a : FeatureAccess)
      → (switch c enabled id tenant_id name s).0 ≡ ok a
      → Switched (switch c enabled id tenant_id name s).1.features
  unfolding switch
  switch-Switched a h = elim (Option-cases (c.find_first (is_record tenant_id name) s.features)) [
    | inl e ↦ ground (arith, inserted-Switched (c.find_first-none _ _ e))
    | inr (x, e) ↦ let (m, k) = c.find_first-some _ _ x e in ground (arith, updated-Switched x m k)
  ]

module _ (c : Client) (id tenant_id name : ℕ) (s : Db) (a : FeatureAccess)
    (single : Unique (is_record tenant_id name) s.features) where
  -- Once a module is switched off, no request whose token is of the tenant and does not say
  -- SUPER_ADMIN reaches the handler of a route of the module that is not public, on the tables that
  -- the switch leaves, if the tenant had at most one record of the module.
  pub disable_closes :
      (disable c id tenant_id name s).0 ≡ ok a
      → (j : Jwt) (r : Cache j.Token) (config : Config) (now : ℕ) (state : r.State) (route : Route)
        (request : Request j.Token) (p : Payload)
      → route.is_public ≡ false
      → route.feature ≡ some name
      → p.role ≢ Role.super_admin
      → p.tenant_id ≡ tenant_id
      → (admit c j r config now state route request (disable c id tenant_id name s).1).0
        ≢ ok (some p)
  unfolding disable
  disable_closes h j r config now state route request p closed module_ plain own e =
      let (all, (f, m, k)) = switch-Switched c false id tenant_id name s single a h in
      let s' = (switch c false id tenant_id name s).1 in
      let (q, same, token, by) =
        admit_sound c j r config now state route request s' closed (some p) e in
      let pq : p ≡ q = cc in
      let home : q.tenant_id ≡ tenant_id = sym (ap (λ x. x.tenant_id) pq) ∙ own in
      elim by [
        | inl super ↦ plain (rw pq super)
        | inr g ↦ elim (g.feature name module_) [
          | inl free ↦ true≢false k (rw home at (All-Listed _ s'.features free m))
          | inr (x, n, hit, on) ↦ true≢false on (all x n (rw home at hit))
        ]
      ]

  -- Once a module is switched on, the guard's check of the tenant's module passes on the tables that
  -- the switch leaves, if the tenant had at most one record of the module.
  pub enable_opens :
      (enable c id tenant_id name s).0 ≡ ok a
      → (check_feature c tenant_id name (enable c id tenant_id name s).1).0 ≡ ok true
  unfolding enable check_feature
  enable_opens h =
      let (all, (f, m, k)) = switch-Switched c true id tenant_id name s single a h in
      let t = (switch c true id tenant_id name s).1.features in
      let (g, e) = find_first-total c (is_record tenant_id name) t f m k in
      let (n, hit) = c.find_first-some _ _ g e in let on = all g n hit in ground arith
