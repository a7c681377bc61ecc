-- ===== src/Guards/Tokens.antt =====
-- The life of an access token: from `login` through the guards to `logout`.
use node_vms.Prelude.{ℕ, ◌≡◌, ◌≢◌, ◌<◌, inl, inr, true, false, Option, some, arith, Option-cases}
use node_vms.Database.Client.{Client}
use node_vms.Database.Errors.{ok}
use node_vms.Database.Action.{Db}
use node_vms.Auth.Crypto.{Payload, Jwt, Cache}
use node_vms.Auth.{Config, logout}
use node_vms.Auth.Sessions.{logged_out}
use node_vms.Guards.{Route, Request, extract_token, auth_guard, admit}

module _ (j : Jwt) (r : Cache j.Token) (config : Config) (now exp : ℕ) (token : j.Token)
    (state state' : r.State) where
  -- After a logout that reached the cache, a request with the token is refused on every route that
  -- is not public, up to the token's end of life, at every time at which the cache answers. Where the
  -- cache is not reached, the guard takes the token as not revoked.
  pub logout_revokes :
      (c : Client) (route : Route) (request : Request j.Token) (later : ℕ) (user : Option Payload)
      (s : Db)
      → now < exp
      → logout j config now r token exp state ≡ some state'
      → later < exp
      → r.answers later state' ≡ true
      → route.is_public ≡ false
      → extract_token request ≡ some token
      → (admit c j r config later state' route request s).0 ≢ ok user
  unfolding admit auth_guard
  logout_revokes c route request later user s lt h before reached closed sent e =
      let listed = logged_out j r config now exp token state state' lt h later before reached in
      elim (Option-cases (j.verify config.jwt_secret token later)) [
        | inl bad ↦ ground arith
        | inr (p, good) ↦ ground arith
      ]
