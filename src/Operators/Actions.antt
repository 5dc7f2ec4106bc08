-- ===== src/Operators/Actions.antt =====
-- The audit rows that the operator routes of app/__init__.py write, and the errors of the services as
-- these routes answer them.
use kunlun_model_gateway.Base.{
  ℕ, ◌++◌, Bool, false, not, ◌||◌, Option, List, [], ◌∷◌, ◌==◌, if◌then◌else◌, true, ◌&&◌, ltb,
}
use kunlun_model_gateway.Models.{OperatorAction, TargetType, Db, same_text}
use kunlun_model_gateway.Operators.Tokens.{OperatorClaims}
use kunlun_model_gateway.Base.Result.{
  Result, ◌>>◌, ok, err, guard, integrity, billing, payment_domain, http, Error,
}

-- Who calls, and what the route adds: two uuids and the digest of the caller's address.
pub record Operation : Type 0 where
  pub operator : OperatorClaims
  pub reason : List ℕ
  pub id : ℕ
  pub operation_id : ℕ
  pub source_ip_digest : ℕ
  pub now : ℕ

-- Python's order on texts, by code points.
unfoldable pub text_lt : List ℕ → List ℕ → Bool
text_lt s [] = false
text_lt [] (b ∷ t) = true
text_lt (a ∷ s) (b ∷ t) = ltb a b || ((a == b) && text_lt s t)

unfoldable pub insert_text : List ℕ → List (List ℕ) → List (List ℕ)
insert_text s [] = s ∷ []
insert_text s (t ∷ ts) =
    let rest = insert_text s ts in
    if same_text s t then t ∷ ts else if text_lt s t then s ∷ t ∷ ts else t ∷ rest

-- `sorted` of a frozenset, given by its members in any order, repetitions included.
unfoldable pub sorted_set : List (List ℕ) → List (List ℕ)
sorted_set [] = []
sorted_set (s ∷ ts) = insert_text s (sorted_set ts)

-- `" ".join`.
unfoldable pub join_texts : List (List ℕ) → List ℕ
join_texts [] = []
join_texts (s ∷ []) = s
join_texts (s ∷ t ∷ ts) = s ++ (b' ' ∷ join_texts (t ∷ ts))

-- `" ".join(sorted(operator.scopes))`.
unfoldable pub join_scopes : List (List ℕ) → List ℕ
join_scopes scopes = join_texts (sorted_set scopes)

abbrev pub action_row :
    Operation → Option ℕ → TargetType → ℕ → List ℕ → List ℕ → List ℕ → OperatorAction
action_row q request type target action before after = record {
  id = q.id;
  request_id = request;
  target_type = type;
  target_id = target;
  action = action;
  reason = q.reason;
  actor = q.operator.subject;
  scopes = join_scopes q.operator.scopes;
  token_id = q.operator.token_id;
  operation_id = q.operation_id;
  source_ip_digest = q.source_ip_digest;
  before_status = before;
  after_status = after;
}

-- The primary key, and the unique constraint on `operation_id`.
unfoldable pub has_action : OperatorAction → List OperatorAction → Bool
has_action a [] = false
has_action a (b ∷ rest) =
    ((b.id == a.id) || (b.operation_id == a.operation_id)) || has_action a rest

unfoldable pub add_action : OperatorAction → Db → Result Db
add_action a db = do
  guard (not (has_action a db.actions)) integrity
  ok (record db { actions = a ∷ db.actions })

abbrev http_error : Error → Error
http_error (billing status) = http status
http_error (payment_domain status) = http status
http_error other = other

-- `except BillingError` and `except PaymentDomainError`: the session is rolled back, and the answer
-- has the status of the error.
unfoldable pub as_http {ℓ} : {A : Type ℓ} → Result A → Result A
as_http (ok a) = ok a
as_http (err e) = err (http_error e)
