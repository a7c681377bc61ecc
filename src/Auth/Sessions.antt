-- ===== src/Auth/Sessions.antt =====
-- auth.service.ts: what a session's tokens are, and what a logout leaves in the cache.
use node_vms.Prelude.{ℕ, ◌≡◌, ◌-◌, ◌<◌, true, some, arith}
use node_vms.Schema.{User, Tenant}
use node_vms.Database.Client.{Client}
use node_vms.Database.Errors.{ok}
use node_vms.Database.Action.{Db}
use node_vms.Auth.Crypto.{Bcrypt, Jwt, Cache}
use node_vms.Auth.{
  LoginDto, Config, has_email, is_tenant, to_payload, tenant_of, login_user, login, logout,
  sign_access_token, generate_token_pair,
}

module _ (j : Jwt) (r : Cache j.Token) (config : Config) (now exp : ℕ) (token : j.Token)
    (state state' : r.State) where
  pub logged_out :
      now < exp
      → logout j config now r token exp state ≡ some state'
      → (later : ℕ) → later < exp
      → r.answers later state' ≡ true
      → r.get token later state' ≡ some 1
  unfolding logout
  logged_out lt h later before reached =
      r.get-set token 1 (exp - now) now later state state' (ground arith) (omega arith) reached

-- A login that answers has logged in the account with the email, and its first token is the
-- account's access token.
pub login_tokens :
    (c : Client) (b : Bcrypt) (j : Jwt) (config : Config) (now : ℕ) (dto : LoginDto) (s : Db)
    (u : User) (t : Tenant) (tokens : j.Token × j.Token)
    → c.find_first (has_email dto.email) s.users ≡ some u
    → c.find_first (is_tenant u.tenant_id) s.tenants ≡ some t
    → login j config now c b dto s ≡ (ok tokens, s)
    → (login_user c b dto s ≡ (ok u, s))
      × (tokens.0 ≡ j.sign config.jwt_secret (to_payload u) now config.jwt_expires_in)
unfolding login login_user tenant_of sign_access_token generate_token_pair
login_tokens c b j config now dto s u t tokens found home h = (ground arith, ground arith)
