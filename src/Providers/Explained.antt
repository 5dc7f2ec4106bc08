-- ===== src/Providers/Explained.antt =====
-- What an exchange with a provider was that app/providers.py reports as a ProviderError.
use kunlun_model_gateway.Base.{
  joined, ℕ, ◌<◌, ◌≤◌, ◌≡◌, ◌≢◌, refl, Bool, true, false, Option, none, some, List, arith,
  Bool-cases, inl, inr, leb, ◌==◌, ==_iff,
}
use kunlun_model_gateway.Json.{Json, Fields, dict}
use kunlun_model_gateway.Providers.{
  ProviderError, Interrupt, Exchange, Answer, Opening, new_error, lost, response, status_error,
}

-- The request has not reached the upstream: no connection was made.
abbrev pub is_unsent : Interrupt → Bool
is_unsent Interrupt.connect_error = true
is_unsent Interrupt.connect_timeout = true
is_unsent _ = false

-- Nor when none came free in httpx's pool, which `open_stream` tells apart.
abbrev pub is_unsent_or_pooled : Interrupt → Bool
is_unsent_or_pooled Interrupt.pool_timeout = true
is_unsent_or_pooled i = is_unsent i

-- The next provider may be called, and this one cannot send a bill.
abbrev pub IsFree : ProviderError → Type 0
IsFree e = (e.safe_to_failover ≡ true) × (e.request_may_be_billable ≡ false)

-- The next provider may not be called, and this one may send a bill.
abbrev pub IsUncertain : ProviderError → Type 0
IsUncertain e = (e.safe_to_failover ≡ false) × (e.request_may_be_billable ≡ true)

-- The next provider may not be called, and this one cannot send a bill.
abbrev pub IsRejected : ProviderError → Type 0
IsRejected e = (e.safe_to_failover ≡ false) × (e.request_may_be_billable ≡ false)

-- What the exchange was that ended in the error `e`, where `unsent` tells the interruptions before
-- the upstream has the request.
pub data IsExplained (unsent : Interrupt → Bool) (x : Exchange) (e : ProviderError) : Type 0 where
  unsent_request :
      (i : Interrupt) → x ≡ lost i → unsent i ≡ true → IsFree e → IsExplained unsent x e
  uncertain_request :
      (i : Interrupt) → x ≡ lost i → unsent i ≡ false → IsUncertain e → IsExplained unsent x e
  rate_limited :
      (chunks : List (List ℕ)) (i : Option Interrupt)
      → x ≡ response 429 chunks i
      → IsFree e
      → IsExplained unsent x e
  rejected :
      (status : ℕ) (chunks : List (List ℕ)) (i : Option Interrupt)
      → x ≡ response status chunks i
      → 400 ≤ status
      → status < 500
      → status ≢ 429
      → IsRejected e
      → IsExplained unsent x e
  server_error :
      (status : ℕ) (chunks : List (List ℕ)) (i : Option Interrupt)
      → x ≡ response status chunks i
      → 500 ≤ status
      → IsUncertain e
      → IsExplained unsent x e
  unread :
      (status : ℕ) (chunks : List (List ℕ)) (i : Option Interrupt)
      → x ≡ response status chunks i
      → status < 400
      → IsUncertain e
      → IsExplained unsent x e

-- The exchange is a complete response below 400, and its body is a JSON object.
pub record IsRead (loads : List ℕ → Option Json) (x : Exchange) (fields : Fields) : Type 0 where
  pub status : ℕ
  pub chunks : List (List ℕ)
  pub answered : x ≡ response status chunks none
  pub accepted : status < 400
  pub decoded : loads (joined chunks) ≡ some (dict fields)

abbrev pub AnswerIsExplained : (List ℕ → Option Json) → Exchange → Answer → Type 0
AnswerIsExplained loads x (Answer.refused e) = IsExplained is_unsent x e
AnswerIsExplained loads x (Answer.result fields) = IsRead loads x fields
AnswerIsExplained loads x Answer.not_a_dict = ⊥
AnswerIsExplained loads x Answer.cancelled = Unit
AnswerIsExplained loads x Answer.failed = Unit

abbrev pub OpeningIsExplained : Exchange → Opening → Type 0
OpeningIsExplained x (Opening.refused e) = IsExplained is_unsent_or_pooled x e
OpeningIsExplained x (Opening.opened chunks ended) = Unit
OpeningIsExplained x Opening.cancelled = Unit
OpeningIsExplained x Opening.failed = Unit

-- httpx raises no connection failure once a response has begun.
abbrev pub HasConnected : Exchange → Type 0
HasConnected (lost i) = Unit
HasConnected (response status chunks none) = Unit
HasConnected (response status chunks (some i)) = is_unsent i ≡ false

pub status_error-IsExplained :
    (unsent : Interrupt → Bool) (status : ℕ) (chunks : List (List ℕ)) (i : Option Interrupt)
    → 400 ≤ status
    → IsExplained unsent (response status chunks i) (status_error status)
unfolding new_error
status_error-IsExplained unsent status chunks i high = elim (Bool-cases (status == 429)) [
  | inl same ↦
      let it : status ≡ 429 = (==_iff _ _).0 same in
      IsExplained.rate_limited chunks i (rw it refl) (same, ground arith)
  | inr other ↦ elim (Bool-cases (leb 500 status)) [
    | inl server ↦ IsExplained.server_error status chunks i refl (ground arith) (other, server)
    | inr client ↦
        IsExplained.rejected status chunks i refl high (ground arith) (λ it. ground arith)
          (other, client)
  ]
]
