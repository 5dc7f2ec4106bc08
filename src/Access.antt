-- ===== src/Access.antt =====
-- app/auth.py: the dependencies that let a request in by a session, an API key or an operator token,
-- and `parse_api_key` of app/security.py.
pub mod Granted
pub mod Operator
use kunlun_model_gateway.Base.{
  ℕ, ◌+◌, Bool, true, false, not, ◌&&◌, ◌||◌, Option, none, some, List, [], ◌∷◌, ltb, leb, ◌==◌,
  length, if◌then◌else◌, ◌++◌,
}
use kunlun_model_gateway.Base.Int.{pos}
use kunlun_model_gateway.Base.Result.{
  Error, Result, ok, err, guard, require, ◌>>=◌, ◌>>◌, http, ops_token, value_error,
}
use kunlun_model_gateway.Base.Table.{find}
use kunlun_model_gateway.Json.{codes}
use kunlun_model_gateway.Models.{
  AccessSession, ApiKey, Db, RateLimitCounter, User, is_active_key, is_active_user, same_text,
}
use kunlun_model_gateway.Billing.Reserve.{api_key_key, user_key}
use kunlun_model_gateway.Operators.Tokens.{Codec, OperatorClaims, is_ascii, verify_operator_token}
use kunlun_model_gateway.Providers.{contains_text}
use kunlun_model_gateway.RateLimits.{enforce_rate_limit}
use kunlun_model_gateway.Streaming.{after_prefix}

pub record Principal : Type 0 where
  pub user_id : ℕ
  pub api_key_id : Option ℕ

-- The configuration, HMAC-SHA256 as a digest of a secret under a pepper, and the number that stands
-- for a key id.
pub record AccessSettings : Type 0 where
  pub session_pepper : List ℕ
  pub api_key_pepper : List ℕ
  pub rate_limit_per_minute : ℕ
  pub operator_signing_secret : List ℕ
  pub operator_token : List ℕ
  pub environment : List ℕ
  pub token_digest : List ℕ → List ℕ → ℕ
  pub text_id : List ℕ → ℕ

-- The header as HTTPBearer splits it; the scheme is in lower case.
pub record Credentials : Type 0 where
  pub scheme : List ℕ
  pub credentials : List ℕ

unfoldable pub bearer_credentials : Option Credentials → Result (List ℕ)
bearer_credentials none = err (http 401)
bearer_credentials (some c) = do
  guard (same_text c.scheme (codes "bearer")) (http 401)
  guard (leb 1 (length c.credentials) && leb (length c.credentials) 512) (http 401)
  ok c.credentials

-- The first session with the digest that is not revoked.
unfoldable pub find_session : ℕ → List AccessSession → Option AccessSession
find_session digest [] = none
find_session digest (s ∷ rest) =
    if (s.token_digest == digest) && not s.revoked then some s else find_session digest rest

unfoldable pub active_user : ℕ → Db → Result User
active_user id db = do
  user ← require (find user_key id db.users) (http 401)
  guard (is_active_user user.status) (http 401)
  ok user

abbrev starts_with : List ℕ → List ℕ → Bool
starts_with prefix text = elim (after_prefix prefix text) [ none ↦ false | some rest ↦ true ]

pub record ParsedApiKey : Type 0 where
  pub key_id : List ℕ
  pub secret : List ℕ

-- `text.split(".", 1)`, where there is a dot.
unfoldable pub split_once : List ℕ → List ℕ → Option (List ℕ × List ℕ)
split_once part [] = none
split_once part (c ∷ cs) = elim (c == b'.') [
  | true ↦ some (part, cs)
  | false ↦ split_once (part ++ (c ∷ [])) cs
]

abbrev fitting_key : Option (List ℕ × List ℕ) → Option ParsedApiKey
fitting_key none = none
fitting_key (some (key_id, secret)) =
    if (leb 4 (length key_id) && leb (length key_id) 32)
      && (leb 32 (length secret) && leb (length secret) 128)
    then some (record { key_id = key_id; secret = secret })
    else none

abbrev split_key : Option (List ℕ) → Option ParsedApiKey
split_key none = none
split_key (some rest) = fitting_key (split_once [] rest)

-- The prefix has no dot, so the dot that is looked for is in the rest.
unfoldable pub parse_api_key : List ℕ → Option ParsedApiKey
parse_api_key raw =
    if leb 20 (length raw) && leb (length raw) 256
    then split_key (after_prefix (codes "gw_") raw)
    else none

abbrev is_ops_token : Error → Bool
is_ops_token ops_token = true
is_ops_token _ = false

module _ (a : AccessSettings) where
  unfoldable pub require_session : Option Credentials → ℕ → Db → Result Principal
  require_session credentials now db = do
    raw ← bearer_credentials credentials
    guard (starts_with (codes "sess_") raw) (http 401)
    found ←
        require (find_session (a.token_digest raw a.session_pepper) db.access_sessions) (http 401)
    guard (ltb now found.expires_at) (http 401)
    user ← active_user found.user_id db
    ok (record { user_id = user.id; api_key_id = none })

  -- The UPDATE of `last_used_at`, which is committed in between, is of a column that is not here.
  unfoldable pub require_api_key :
      Option Credentials
      → Bool
      → ℕ
      → Db
      → List RateLimitCounter
      → Result (Principal × List RateLimitCounter)
  require_api_key credentials seen now db counters = do
    raw ← bearer_credentials credentials
    parsed ← require (parse_api_key raw) (http 401)
    key ← require (find api_key_key (a.text_id parsed.key_id) db.api_keys) (http 401)
    guard
        (is_active_key key.status
          && (a.token_digest parsed.secret a.api_key_pepper == key.secret_digest))
        (http 401)
    user ← active_user key.user_id db
    counted ← enforce_rate_limit seen (a.text_id parsed.key_id) now a.rate_limit_per_minute counters
    ok (record { user_id = user.id; api_key_id = some key.id }, counted)

  abbrev pub legacy_scopes : List (List ℕ)
  legacy_scopes = codes "reconciliation:read" ∷ codes "reconciliation:write" ∷ []

  -- The shared token of local set-ups. `compare_digest` raises a TypeError on texts that are not
  -- ASCII.
  unfoldable pub legacy_claims : List ℕ → List ℕ → ℕ → Result OperatorClaims
  legacy_claims supplied required now = do
    guard
        (contains_text a.environment (codes "development" ∷ codes "test" ∷ [])
          && leb 32 (length a.operator_token))
        (http 404)
    guard (contains_text required legacy_scopes) (http 404)
    guard (leb 1 (length supplied)) (http 401)
    guard (is_ascii supplied && is_ascii a.operator_token) value_error
    guard (same_text supplied a.operator_token) (http 401)
    ok (record {
      subject = codes "legacy-local-operator";
      scopes = legacy_scopes;
      issued_at = pos now;
      expires_at = pos (now + 1);
      token_id = codes "legacy-local";
    })

  -- `except OpsTokenError`.
  unfoldable pub catch_ops_token : Result OperatorClaims → Result OperatorClaims
  catch_ops_token (ok claims) = ok claims
  catch_ops_token (err e) = err (if is_ops_token e then http 401 else e)

  unfoldable pub operator_claims : Codec → List ℕ → List ℕ → ℕ → Result OperatorClaims
  operator_claims k supplied required now =
      guard (leb (length supplied) 4_096) (http 401)
      >> (if leb 32 (length a.operator_signing_secret)
          then catch_ops_token
              (verify_operator_token k supplied a.operator_signing_secret required now)
          else legacy_claims supplied required now)
