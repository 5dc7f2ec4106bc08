-- ===== src/Operators/Tokens.antt =====
-- app/services/ops_tokens.py: short-lived scoped tokens. HMAC-SHA256 and Python's json module are
-- parameters; `loads` is `none` where it raises.
pub mod Verified
pub mod Round
use kunlun_model_gateway.Base.{
  ℕ, ◌+◌, Bool, true, false, not, ◌&&◌, ◌||◌, Option, none, some, List, [], ◌∷◌, ◌++◌, ltb, leb,
  length, if◌then◌else◌, ◌==◌,
}
use kunlun_model_gateway.Base.Int.{ℤ, pos, ltb_ℤ, ◌+ℤ◌, ◌-ℤ◌}
use kunlun_model_gateway.Base.Result.{
  Result, ok, err, guard, require, ◌>>=◌, ◌>>◌, ops_token, value_error,
}
use kunlun_model_gateway.Json.{
  Json, Items, Fields, dict, str, int, list, nil, cons, field, end, codes, get, as_dict, as_int,
  as_list, as_str,
}
use kunlun_model_gateway.Models.{same_text}
use kunlun_model_gateway.Providers.{contains_text}
use kunlun_model_gateway.Operators.Base64.{b64encode, b64decode}

pub record Codec : Type 0 where
  pub hmac : List ℕ → List ℕ → List ℕ
  pub utf8 : List ℕ → List ℕ
  pub dumps : Json → List ℕ
  pub loads : List ℕ → Option Json

abbrev pub allowed_scopes : List (List ℕ)
allowed_scopes =
    codes "reconciliation:read"
    ∷ codes "reconciliation:write"
    ∷ codes "accounts:read"
    ∷ codes "accounts:write"
    ∷ codes "payments:read"
    ∷ codes "payments:write"
    ∷ codes "payments:risk:write"
    ∷ codes "metrics:read"
    ∷ []

-- A set of scopes is a list of its members, in the order of the token; the code keeps a frozenset.
pub record OperatorClaims : Type 0 where
  pub subject : List ℕ
  pub scopes : List (List ℕ)
  pub issued_at : ℤ
  pub expires_at : ℤ
  pub token_id : List ℕ

-- `scopes <= ALLOWED_SCOPES`.
unfoldable pub all_allowed : List (List ℕ) → Bool
all_allowed [] = true
all_allowed (s ∷ scopes) = contains_text s allowed_scopes && all_allowed scopes

abbrev pub is_nil {ℓ} : {A : Type ℓ} → List A → Bool
is_nil [] = true
is_nil (x ∷ xs) = false

unfoldable pub text_items : List (List ℕ) → Items
text_items [] = nil
text_items (s ∷ scopes) = cons (str s) (text_items scopes)

abbrev pub prefix : List ℕ
prefix = codes "ops1"

pub record MintCall : Type 0 where
  pub subject : List ℕ
  pub scopes : List (List ℕ)
  pub ttl_seconds : ℕ
  pub issued_at : ℕ
  pub token_id : List ℕ

abbrev pub payload_of : MintCall → Fields
payload_of q = field (codes "aud") (str (codes "kunlun-gateway-ops")) (
    field (codes "exp") (int (pos (q.issued_at + q.ttl_seconds))) (
      field (codes "iat") (int (pos q.issued_at)) (
        field (codes "jti") (str q.token_id) (
          field (codes "scp") (list (text_items q.scopes))
            (field (codes "sub") (str q.subject) end)))))

abbrev pub join : List ℕ → List ℕ → List ℕ
join a b = a ++ (b'.' ∷ b)

-- `token.split(".")`; the first argument is what was read of the current part.
unfoldable pub split_from : List ℕ → List ℕ → List (List ℕ)
split_from part [] = part ∷ []
split_from part (c ∷ cs) = elim (c == b'.') [
  | true ↦ part ∷ split_from [] cs
  | false ↦ split_from (part ++ (c ∷ [])) cs
]

unfoldable pub is_ascii : List ℕ → Bool
is_ascii [] = true
is_ascii (c ∷ cs) = ltb c 128 && is_ascii cs

unfoldable pub same_bytes : List ℕ → List ℕ → Bool
same_bytes a b = same_text a b

-- `any(not isinstance(scope, str) for scope in scopes)` must fail.
unfoldable pub texts_of : Items → Option (List (List ℕ))
texts_of nil = some []
texts_of (cons (str s) rest) = elim (texts_of rest) [ none ↦ none | some ss ↦ some (s ∷ ss) ]
texts_of (cons other rest) = none

abbrev texts_in : Option Items → Option (List (List ℕ))
texts_in none = none
texts_in (some items) = texts_of items

-- A text that is there and not empty.
abbrev pub nonempty : Option (List ℕ) → Option (List ℕ)
nonempty none = none
nonempty (some []) = none
nonempty (some (c ∷ s)) = some (c ∷ s)

unfoldable pub read_claims : Fields → Result OperatorClaims
read_claims claims = do
  subject ← require (nonempty (as_str (get (codes "sub") claims))) ops_token
  scopes ← require (texts_in (as_list (get (codes "scp") claims))) ops_token
  issued_at ← require (as_int (get (codes "iat") claims)) ops_token
  expires_at ← require (as_int (get (codes "exp") claims)) ops_token
  token_id ← require (nonempty (as_str (get (codes "jti") claims))) ops_token
  ok (record {
    subject = subject;
    scopes = scopes;
    issued_at = issued_at;
    expires_at = expires_at;
    token_id = token_id;
  })

-- The checks of scope and time.
unfoldable pub check_claims : OperatorClaims → List ℕ → ℕ → Result OperatorClaims
check_claims claims required now = do
  guard (all_allowed claims.scopes && contains_text required claims.scopes) ops_token
  guard
      (not (ltb_ℤ (pos (now + 30)) claims.issued_at)
        && (ltb_ℤ claims.issued_at claims.expires_at
            && not (ltb_ℤ (pos 900) (claims.expires_at -ℤ claims.issued_at))))
      ops_token
  guard (ltb_ℤ (pos now) claims.expires_at) ops_token
  ok claims

abbrev pub audience_of : Option Json → Option Fields
audience_of value = elim (as_dict value) [
  | none ↦ none
  | some claims ↦ elim (as_str (get (codes "aud") claims)) [
    | none ↦ none
    | some aud ↦ if same_text aud (codes "kunlun-gateway-ops") then some claims else none
  ]
]

module _ (k : Codec) where
  abbrev pub validate_secret : List ℕ → Bool
  validate_secret secret = leb 32 (length (k.utf8 secret))

  abbrev pub signature : List ℕ → List ℕ → List ℕ
  signature secret encoded = k.hmac (k.utf8 secret) (join prefix encoded)

  unfoldable pub mint_operator_token : List ℕ → MintCall → Result (List ℕ)
  mint_operator_token secret q = do
    guard (validate_secret secret) ops_token
    guard (not (is_nil q.subject) && leb (length q.subject) 200) ops_token
    guard (not (is_nil q.scopes) && all_allowed q.scopes) ops_token
    guard (leb 30 q.ttl_seconds && leb q.ttl_seconds 900) ops_token
    let encoded = b64encode (k.dumps (dict (payload_of q)))
    ok (join (join prefix encoded) (b64encode (signature secret encoded)))

  -- The part between the dots, its signature checked. A character outside ASCII raises a
  -- UnicodeEncodeError, which is a ValueError and no OpsTokenError.
  unfoldable pub check_signature : List ℕ → List ℕ → List ℕ → Result (List ℕ)
  check_signature secret encoded supplied = do
    guard (is_ascii encoded) value_error
    mac ← require (b64decode supplied) ops_token
    guard (same_bytes (signature secret encoded) mac) ops_token
    require (b64decode encoded) ops_token

  unfoldable pub check_parts : List ℕ → List (List ℕ) → Result (List ℕ)
  check_parts secret (head ∷ encoded ∷ supplied ∷ []) =
      guard (same_text head prefix) ops_token >> check_signature secret encoded supplied
  check_parts secret (head ∷ encoded ∷ supplied ∷ more ∷ rest) = err ops_token
  check_parts secret (head ∷ encoded ∷ []) = err ops_token
  check_parts secret (head ∷ []) = err ops_token
  check_parts secret [] = err ops_token

  unfoldable pub verify_operator_token : List ℕ → List ℕ → List ℕ → ℕ → Result OperatorClaims
  verify_operator_token token secret required now = do
    guard (validate_secret secret) ops_token
    guard (leb 1 (length token) && leb (length token) 4_096) ops_token
    guard (contains_text required allowed_scopes) ops_token
    body ← check_parts secret (split_from [] token)
    claims ← require (audience_of (k.loads body)) ops_token
    read ← read_claims claims
    check_claims read required now
