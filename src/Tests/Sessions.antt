-- ===== src/Tests/Sessions.antt =====
-- Concrete instances of the interfaces of Auth/Crypto.antt: a signature that is the secret itself, a
-- hash that is the password, and a cache that is a function.
use node_vms.Prelude.{
  ℕ, ◌≡◌, refl, true≢false, ◌≢◌, ◌+◌, ◌<◌, ◌≤◌, inl, inr, Bool, true, Option, none, some, arith,
  ◌&&◌, ◌==◌, ltb, Bool-cases, if◌then◌else◌,
}
use node_vms.Schema.{Role, role_eq}
use node_vms.Auth.Crypto.{Payload, Bcrypt, Jwt, Cache}
use node_vms.Auth.{Config}

pub record ShownToken : Type 0 where
  pub secret : ℕ
  pub payload : Payload
  pub expires : ℕ

abbrev read : ℕ → ShownToken → ℕ → Option Payload
read secret t now = if t.secret == secret && ltb now t.expires then some t.payload else none

abbrev shown : ℕ → Payload → ℕ → ℕ → ShownToken
shown secret payload issued life = record {
  secret = secret;
  payload = payload;
  expires = issued + life;
}

pub read-shown :
    (secret : ℕ) (payload : Payload) (issued life now : ℕ)
    → now < issued + life
    → read secret (shown secret payload issued life) now ≡ some payload
read-shown secret payload issued life now lt = ground arith

pub read_late :
    (secret : ℕ) (payload : Payload) (issued life now : ℕ)
    → issued + life ≤ now
    → read secret (shown secret payload issued life) now ≡ none
read_late secret payload issued life now le = ground arith

pub read_other :
    (secret other : ℕ) (payload : Payload) (issued life now : ℕ)
    → secret ≢ other
    → read other (shown secret payload issued life) now ≡ none
read_other secret other payload issued life now ne = ground arith

abbrev pub shown_jwt : Jwt
shown_jwt = record {
  Token = ShownToken;
  sign = shown;
  verify = read;
  verify-sign = read-shown;
  verify_late = read_late;
  verify_other = read_other;
}

pub same_text : (salt password : ℕ) → (password == password) ≡ true
same_text salt password = ground arith

abbrev pub plain_bcrypt : Bcrypt
plain_bcrypt = record {
  hash = λ salt password. password;
  compare = λ password hash. password == hash;
  compare-hash = same_text;
}

abbrev token_eq : ShownToken → ShownToken → Bool
token_eq a b =
    a.secret == b.secret
    && (a.expires == b.expires
        && (a.payload.sub == b.payload.sub
            && (a.payload.email == b.payload.email
                && (a.payload.tenant_id == b.payload.tenant_id
                    && role_eq a.payload.role b.payload.role))))

role_eq_refl : (r : Role) → role_eq r r ≡ true
role_eq_refl r = ground arith

role_eq_eq : (r q : Role) → role_eq r q ≡ true → r ≡ q
role_eq_eq r q e = ground arith

token_eq_refl : (t : ShownToken) → token_eq t t ≡ true
token_eq_refl t = ground (arith, role_eq_refl t.payload.role)

token_eq_eq : (t u : ShownToken) → token_eq t u ≡ true → t ≡ u
token_eq_eq t u e = ground (arith, role_eq_eq t.payload.role u.payload.role)

abbrev Entries : Type 0
Entries = ShownToken → ℕ → Option ℕ

abbrev put : ShownToken → ℕ → ℕ → ℕ → Entries → Option Entries
put k v life at s =
    some (λ j now. if token_eq k j then if ltb now (at + life) then some v else none else s j now)

put-same :
    (k : ShownToken) (v life at now : ℕ) (s s' : Entries)
    → put k v life at s ≡ some s'
    → s' k now ≡ (if ltb now (at + life) then some v else none)
put-same k v life at now s s' e = ground (arith, token_eq_refl k)

pub put-other :
    (k j : ShownToken) (v life at now : ℕ) (s s' : Entries)
    → put k v life at s ≡ some s'
    → k ≢ j
    → s' j now ≡ s j now
put-other k j v life at now s s' e ne = elim (Bool-cases (token_eq k j)) [
  | inl h ↦ absurd (ne (token_eq_eq k j h))
  | inr h ↦ ground arith
]

pub put-kept :
    (k : ShownToken) (v life at now : ℕ) (s s' : Entries)
    → put k v life at s ≡ some s'
    → now < at + life
    → s' k now ≡ some v
put-kept k v life at now s s' e lt = ground (arith, put-same k v life at now s s' e)

pub put-expired :
    (k : ShownToken) (v life at now : ℕ) (s s' : Entries)
    → put k v life at s ≡ some s'
    → at + life ≤ now
    → s' k now ≡ none
put-expired k v life at now s s' e le = ground (arith, put-same k v life at now s s' e)

abbrev pub shown_cache : Cache ShownToken
shown_cache = record {
  State = Entries;
  answers = λ now s. true;
  get = λ k now s. s k now;
  set = put;
  get_silent = λ k now s e. absurd (true≢false refl e);
  get-set = λ k v life at now s s' e lt up. put-kept k v life at now s s' e lt;
  get-set_expired = put-expired;
  get-set_ne = λ k j v life at now s s' e ne up up'. put-other k j v life at now s s' e ne;
}

abbrev pub nothing_listed : shown_cache.State
nothing_listed = λ k now. none

abbrev pub config : Config
config = record {
  jwt_secret = 901;
  jwt_refresh_secret = 902;
  seed_secret = 903;
  jwt_expires_in = 100;
  jwt_refresh_expires_in = 1000;
}
