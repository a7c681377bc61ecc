-- ===== src/Tenants/Removal.antt =====
-- tenants.service.ts and the guards: what the removal of a tenant means for its accounts.
use node_vms.Prelude.{
  ℕ, ◌≡◌, ◌≢◌, sym, ap, ◌∙◌, refl, inl, inr, false, some, true≢false, arith, Listed,
}
use node_vms.Schema.{User, Tenant, Role}
use node_vms.Database.Client.{Client}
use node_vms.Database.Errors.{ok}
use node_vms.Database.Action.{Db}
use node_vms.Database.Pairs.{Listed-update_elim}
use node_vms.Auth.Crypto.{Payload, Jwt, Cache}
use node_vms.Auth.{Config}
use node_vms.Guards.{Route, Request, admit}
use node_vms.Guards.Admitted.{admit_sound}
use node_vms.Tenants.{has_tenant_key, closed, remove}

module _ (c : Client) (removed_at id : ℕ) (s : Db)
    (done : (remove c removed_at id s).0 ≡ ok tt) where
  remove_deactivates :
      (t : Tenant) → Listed t (remove c removed_at id s).1.tenants → t.id ≡ id → t.is_active ≡ false
  unfolding remove
  remove_deactivates t m e =
      let off =
        Listed-update_elim c (λ x. x.id ≡ id → x.is_active ≡ false) (has_tenant_key id)
          (closed removed_at) s.tenants (λ a n k _. refl) (λ a n k e. absurd (ground arith)) t in
      ground (arith, off)

  -- After a tenant is removed, on whatever tables still have the table of tenants that the removal
  -- left, no request with a token of one of its accounts reaches a handler of a route that is not
  -- public, unless the token says SUPER_ADMIN.
  pub remove_locks_out :
      (j : Jwt) (r : Cache j.Token) (config : Config) (now : ℕ) (state : r.State) (route : Route)
      (request : Request j.Token) (p : Payload) (s' : Db)
      → s'.tenants ≡ (remove c removed_at id s).1.tenants
      → route.is_public ≡ false
      → p.role ≢ Role.super_admin
      → ((u : User) → Listed u s'.users → u.id ≡ p.sub → u.tenant_id ≡ id)
      → (admit c j r config now state route request s').0 ≢ ok (some p)
  remove_locks_out j r config now state route request p s' kept open_ plain member h =
      let (q, e, token, by) =
        admit_sound c j r config now state route request s' open_ (some p) h in
      let pq : p ≡ q = cc in
      elim by [
        | inl super ↦ plain (rw pq super)
        | inr g ↦
            let home =
              member g.account.user g.account.listed (g.account.named ∙ sym (ap (λ x. x.sub) pq)) in
            true≢false g.account.enters.tenant_active (
              remove_deactivates g.account.tenant (rw kept at g.account.home)
                (g.account.same_tenant ∙ home))
      ]
