-- ===== src/Auth/Crypto.antt =====
-- What auth.service.ts and auth.guard.ts use of bcrypt, of the JWT library and of Redis.
use node_vms.Prelude.{ℕ, ◌≡◌, ◌≢◌, ◌+◌, ◌<◌, ◌≤◌, Bool, true, false, Option, none, some}
use node_vms.Schema.{Role}

-- `interface JwtPayload`; the times of issue and expiry stay in the token.
pub record Payload : Type 0 where
  pub sub : ℕ
  pub email : ℕ
  pub role : Role
  pub tenant_id : ℕ

-- `bcrypt.hash` draws a salt; `bcrypt.compare` accepts the password that was hashed.
pub record Bcrypt : Type 0 where
  pub hash : ℕ → ℕ → ℕ
  pub compare : ℕ → ℕ → Bool
  pub compare-hash : (salt password : ℕ) → compare password (hash salt password) ≡ true

-- A token verifies under its secret until it expires, and gives back its payload; after that, and
-- under other secrets, `verify` throws. Times are seconds.
pub record Jwt : Type 1 where
  pub Token : Type 0
  pub sign : ℕ → Payload → ℕ → ℕ → Token
  pub verify : ℕ → Token → ℕ → Option Payload
  pub verify-sign :
      (secret : ℕ) (payload : Payload) (issued life now : ℕ)
      → now < issued + life
      → verify secret (sign secret payload issued life) now ≡ some payload
  pub verify_late :
      (secret : ℕ) (payload : Payload) (issued life now : ℕ)
      → issued + life ≤ now
      → verify secret (sign secret payload issued life) now ≡ none
  pub verify_other :
      (secret other : ℕ) (payload : Payload) (issued life now : ℕ)
      → secret ≢ other
      → verify other (sign secret payload issued life) now ≡ none

-- Redis with expiring keys. `answers` says whether the server is reached at a time. `get` is null for
-- a missing key and, as the code catches its failure, for a server that is not reached; `set` throws,
-- as `none`, where the server is not reached.
pub record Cache (Key : Type 0) : Type 1 where
  pub State : Type 0
  pub answers : ℕ → State → Bool
  pub get : Key → ℕ → State → Option ℕ
  pub set : Key → ℕ → ℕ → ℕ → State → Option State
  pub get_silent : (k : Key) (now : ℕ) (s : State) → answers now s ≡ false → get k now s ≡ none
  pub get-set :
      (k : Key) (v life set_at now : ℕ) (s s' : State)
      → set k v life set_at s ≡ some s'
      → now < set_at + life
      → answers now s' ≡ true
      → get k now s' ≡ some v
  pub get-set_expired :
      (k : Key) (v life set_at now : ℕ) (s s' : State)
      → set k v life set_at s ≡ some s'
      → set_at + life ≤ now
      → get k now s' ≡ none
  pub get-set_ne :
      (k j : Key) (v life set_at now : ℕ) (s s' : State)
      → set k v life set_at s ≡ some s'
      → k ≢ j
      → answers now s ≡ true
      → answers now s' ≡ true
      → get j now s' ≡ get j now s
