-- ===== src/Access/Granted.antt =====
-- Whom app/auth.py lets in.
use mathlib.Core.Bool.{and-eq-true_iff}
use kunlun_model_gateway.Base.{ℕ, ◌≡◌, refl, true, Bool, some, List, ==_iff}
use kunlun_model_gateway.Base.Result.{
  ok, Ensures, Ensures-guard, Ensures-require, Ensures-call, Ensures-bind, Ensures-ok,
}
use kunlun_model_gateway.Models.{
  ApiKey, Db, KeyStatus, User, UserStatus, RateLimitCounter, is_active_key, is_active_user,
}
use kunlun_model_gateway.Access.{
  AccessSettings, Credentials, Principal, active_user, bearer_credentials, parse_api_key,
  require_api_key, ParsedApiKey,
}
use kunlun_model_gateway.Base.Table.{find}
use kunlun_model_gateway.Billing.Reserve.{api_key_key, user_key}
use kunlun_model_gateway.RateLimits.{enforce_rate_limit}

-- The key of a parsed secret is active, its digest is the secret's, and its user is active; the call
-- is counted.
pub record HoldsKey (a : AccessSettings) (raw : List ℕ) (seen : Bool) (now : ℕ) (db : Db)
    (counters : List RateLimitCounter) (p : Principal) (counters' : List RateLimitCounter)
    : Type 0 where
  pub parsed : ParsedApiKey
  pub key : ApiKey
  pub user : User
  pub text : parse_api_key raw ≡ some parsed
  pub key_found : find api_key_key (a.text_id parsed.key_id) db.api_keys ≡ some key
  pub key_active : key.status ≡ KeyStatus.active
  pub same_secret : a.token_digest parsed.secret a.api_key_pepper ≡ key.secret_digest
  pub user_found : find user_key key.user_id db.users ≡ some user
  pub user_active : user.status ≡ UserStatus.active
  pub names : p ≡ record { user_id = user.id; api_key_id = some key.id }
  pub counted :
      enforce_rate_limit seen (a.text_id parsed.key_id) now a.rate_limit_per_minute counters
      ≡ ok counters'

active_key : (s : KeyStatus) → is_active_key s ≡ true → s ≡ KeyStatus.active
active_key KeyStatus.active e = refl
active_key KeyStatus.revoked e = absurd (cc)

active_status : (s : UserStatus) → is_active_user s ≡ true → s ≡ UserStatus.active
active_status UserStatus.active e = refl
active_status UserStatus.frozen e = absurd (cc)
active_status UserStatus.pending_email e = absurd (cc)

active_user-found :
    (id : ℕ) (db : Db)
    → Ensures
        (λ (u : User). (find user_key id db.users ≡ some u) × (u.status ≡ UserStatus.active))
        (active_user id db)
unfolding active_user
active_user-found id db =
    Ensures-require _ _ _
      λ user here. Ensures-guard _ _ _ λ on. Ensures-ok _ (here, active_status user.status on)

bearer_text :
    (c : Credentials)
    → Ensures (λ (raw : List ℕ). raw ≡ c.credentials) (bearer_credentials (some c))
unfolding bearer_credentials
bearer_text c = Ensures-guard _ _ _ λ _. Ensures-guard _ _ _ λ _. Ensures-ok _ refl

-- A request is let in by an API key only if the key parses, is active, has the digest of the secret,
-- and belongs to an active user; the principal is that user and that key, and the call has been
-- counted within the limit of its minute.
pub require_api_key-HoldsKey :
    (a : AccessSettings) (c : Credentials) (seen : Bool) (now : ℕ) (db : Db)
    (counters : List RateLimitCounter) (p : Principal) (counters' : List RateLimitCounter)
    → require_api_key a (some c) seen now db counters ≡ ok (p, counters')
    → HoldsKey a c.credentials seen now db counters p counters'
unfolding require_api_key
require_api_key-HoldsKey a c seen now db counters p counters' e =
    (Ensures-call
        {P = λ (r : Principal × List RateLimitCounter).
          HoldsKey a c.credentials seen now db counters r.0 r.1}
        _ _ (bearer_text c)
        λ raw same. Ensures-require _ _ _ λ parsed text. Ensures-require _ _ _ λ key here.
          Ensures-guard _ _ _ λ valid.
            Ensures-call _ _ (active_user-found key.user_id db) λ user (there, on).
              Ensures-bind _ _ λ counted limited. Ensures-ok _ (record {
                parsed = parsed;
                key = key;
                user = user;
                text = rw (← same) text;
                key_found = here;
                key_active = active_key key.status ((and-eq-true_iff _ _).0 valid).0;
                same_secret = (==_iff _ _).0 ((and-eq-true_iff _ _).0 valid).1;
                user_found = there;
                user_active = on;
                names = refl;
                counted = limited;
              })).returned
      (p, counters') e
