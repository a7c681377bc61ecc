-- ===== src/Guards/Revocation.antt =====
-- What a suspension means for the tokens of the account.
use node_vms.Prelude.{ℕ, ◌≡◌, ◌≢◌, sym, ap, ◌∙◌, inl, inr, false, some, true≢false}
use node_vms.Schema.{User, Role}
use node_vms.Database.Client.{Client}
use node_vms.Database.Errors.{ok}
use node_vms.Database.Action.{Db}
use node_vms.AdminApplications.{suspend}
use node_vms.AdminApplications.Coherence.{Coherent, suspend_deactivates}
use node_vms.Auth.Crypto.{Payload, Jwt, Cache}
use node_vms.Auth.{Config, refresh}
use node_vms.Auth.Login.{refresh_sound}
use node_vms.Guards.{Route, Request, admit}
use node_vms.Guards.Admitted.{admit_sound}

module _ (c : Client) (user_id : ℕ) (s : Db) (u : User) (done : (suspend c user_id s).0 ≡ ok u)
    (j : Jwt) (config : Config) (now : ℕ) where
  -- Once an administrator is suspended, no request with a token of that account reaches a handler
  -- of a route that is not public, whatever the token's age, unless the token says SUPER_ADMIN.
  pub suspend_revokes :
      (r : Cache j.Token) (state : r.State) (route : Route) (request : Request j.Token)
      (p : Payload)
      → route.is_public ≡ false
      → p.sub ≡ user_id
      → p.role ≢ Role.super_admin
      → (admit c j r config now state route request (suspend c user_id s).1).0 ≢ ok (some p)
  suspend_revokes r state route request p closed same plain h =
      let (q, e, token, by) =
        admit_sound c j r config now state route request (suspend c user_id s).1 closed (some p)
          h in
      let pq : p ≡ q = cc in
      elim by [
        | inl super ↦ plain (rw pq super)
        | inr g ↦
            let off =
              suspend_deactivates c user_id s u done g.account.user g.account.listed
                (g.account.named ∙ sym (ap (λ x. x.sub) pq) ∙ same) in
            true≢false g.account.enters.active off
      ]

  -- Once an administrator is suspended, no refresh token of that account gives a new access token,
  -- if the accounts are coherent after the suspension.
  pub suspend_stops_refresh :
      (token new : j.Token) (payload : Payload)
      → Coherent (suspend c user_id s).1
      → j.verify config.jwt_refresh_secret token now ≡ some payload
      → payload.sub ≡ user_id
      → (refresh j config now c token (suspend c user_id s).1).0 ≢ ok new
  suspend_stops_refresh token new payload coherent verified same h =
      let (q, v, t, e, m, named, live, enters, home, n) =
        refresh_sound j config now c token new (suspend c user_id s).1 coherent h in
      let pq : payload ≡ q = cc in
      let off =
        suspend_deactivates c user_id s u done v m (named ∙ sym (ap (λ x. x.sub) pq) ∙ same) in
      true≢false enters.active off
