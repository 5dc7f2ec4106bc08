-- ===== src/Providers.antt =====
-- app/providers.py: `OpenAICompatibleProvider` and the functions on clients; gateway.py:
-- `ProviderError`. What httpx brings is a parameter, as an `Exchange`.
pub mod Explained
pub mod Caution
use kunlun_model_gateway.Base.{
  ℕ, suc, ◌+◌, Bool, true, false, ◌||◌, Option, none, some, List, [], ◌∷◌, ◌++◌, ltb, leb, ◌==◌,
  length, if◌then◌else◌,
}
use kunlun_model_gateway.Json.{Json, Fields, dict, codes, digits}
use kunlun_model_gateway.Models.{same_text}

-- gateway.py
pub record ProviderError : Type 0 where
  pub status_code : ℕ
  pub category : List ℕ
  pub safe_to_failover : Bool
  pub request_may_be_billable : Bool

abbrev or_text : List ℕ → List ℕ → List ℕ
or_text [] other = other
or_text (c ∷ s) other = c ∷ s

abbrev or_text? : Option (List ℕ) → List ℕ → List ℕ
or_text? none other = other
or_text? (some s) other = or_text s other

abbrev or_flag : Option Bool → Bool → Bool
or_flag none default = default
or_flag (some b) default = b

-- The constructor, with `None` for an argument that is not given.
unfoldable pub new_error : ℕ → Option (List ℕ) → Option Bool → Option Bool → ProviderError
new_error status category safe billable = record {
  status_code = status;
  category = or_text? category (codes "provider_http_" ++ digits status);
  safe_to_failover = or_flag safe (status == 429);
  request_may_be_billable = or_flag billable (leb 500 status);
}

-- What ends a call of httpx without a value.
pub data Interrupt : Type 0 where
  connect_error connect_timeout read_timeout write_timeout pool_timeout cancelled other : Interrupt

-- The request that was sent: it was interrupted, or a response came with its status, the chunks of
-- its body, and what interrupted the body, if anything did.
pub data Exchange : Type 0 where
  lost : Interrupt → Exchange
  response : ℕ → List (List ℕ) → Option Interrupt → Exchange

-- How a call of a client ends: with a dict, with another value, or by an exception.
pub data Answer : Type 0 where
  result : Fields → Answer
  not_a_dict : Answer
  refused : ProviderError → Answer
  cancelled failed : Answer

-- How the chunks of a stream end. `dropped` is a consumer that closes the generator at a `yield`.
pub data StreamEnd : Type 0 where
  exhausted cancelled failed dropped : StreamEnd
  refused : ProviderError → StreamEnd

pub data Opening : Type 0 where
  opened : List (List ℕ) → StreamEnd → Opening
  refused : ProviderError → Opening
  cancelled failed : Opening

abbrev connect_failure : ProviderError
connect_failure = new_error 503 (some (codes "provider_connect_failure")) (some true) (some false)

abbrev ambiguous_timeout : ProviderError
ambiguous_timeout =
    new_error 504 (some (codes "provider_ambiguous_timeout")) (some false) (some true)

-- A 502 after the provider has answered.
abbrev pub bad_answer : List ℕ → ProviderError
bad_answer category = new_error 502 (some category) (some false) (some true)

abbrev status_error : ℕ → ProviderError
status_error status = new_error status none (some (status == 429)) (some (leb 500 status))

-- The `except` clauses of `__call__`.
unfoldable pub call_interrupted : Interrupt → Answer
call_interrupted Interrupt.connect_error = Answer.refused connect_failure
call_interrupted Interrupt.connect_timeout = Answer.refused connect_failure
call_interrupted Interrupt.read_timeout = Answer.refused ambiguous_timeout
call_interrupted Interrupt.write_timeout = Answer.refused ambiguous_timeout
call_interrupted Interrupt.pool_timeout = Answer.refused ambiguous_timeout
call_interrupted Interrupt.cancelled = Answer.cancelled
call_interrupted Interrupt.other = Answer.failed

-- Those of `open_stream`, which files a pool timeout under the connection failures.
unfoldable pub open_interrupted : Interrupt → Opening
open_interrupted Interrupt.connect_error = Opening.refused connect_failure
open_interrupted Interrupt.connect_timeout = Opening.refused connect_failure
open_interrupted Interrupt.pool_timeout = Opening.refused connect_failure
open_interrupted Interrupt.read_timeout = Opening.refused ambiguous_timeout
open_interrupted Interrupt.write_timeout = Opening.refused ambiguous_timeout
open_interrupted Interrupt.cancelled = Opening.cancelled
open_interrupted Interrupt.other = Opening.failed

-- An interruption of `aiter_bytes` in the stream, which no clause of the client translates.
unfoldable pub stream_ended : Option Interrupt → StreamEnd
stream_ended none = StreamEnd.exhausted
stream_ended (some Interrupt.cancelled) = StreamEnd.cancelled
stream_ended (some i) = StreamEnd.failed

module _ (loads : List ℕ → Option Json) (max_response_bytes : ℕ) where
  unfoldable pub parse_body : Option Json → Answer
  parse_body none = Answer.refused (bad_answer (codes "provider_invalid_json"))
  parse_body (some (dict fields)) = Answer.result fields
  parse_body (some value) = Answer.refused (bad_answer (codes "provider_invalid_payload"))

  -- The loop over the body, and what follows it.
  unfoldable pub read_body : List ℕ → List (List ℕ) → Option Interrupt → Answer
  read_body content [] none = parse_body (loads content)
  read_body content [] (some i) = call_interrupted i
  read_body content (chunk ∷ chunks) i =
      elim (ltb max_response_bytes (length content + length chunk)) [
        | true ↦ Answer.refused (bad_answer (codes "provider_response_too_large"))
        | false ↦ read_body (content ++ chunk) chunks i
      ]

  unfoldable pub call : Exchange → Answer
  call (lost i) = call_interrupted i
  call (response status chunks i) =
      let body = read_body [] chunks i in
      if leb 400 status then Answer.refused (status_error status) else body

unfoldable pub open_stream : Exchange → Opening
open_stream (lost i) = open_interrupted i
open_stream (response status chunks i) =
    if leb 400 status
    then Opening.refused (status_error status)
    else Opening.opened chunks (stream_ended i)

pub record Price : Type 0 where
  pub input_microusd_per_million : Option ℕ
  pub output_microusd_per_million : Option ℕ

pub record OpenAiCompatibleProvider : Type 0 where
  pub name : List ℕ
  pub models : List (List ℕ)
  pub pricing : List (List ℕ × Price)
  pub max_response_bytes : ℕ

unfoldable pub contains_text : List ℕ → List (List ℕ) → Bool
contains_text s [] = false
contains_text s (t ∷ ts) = same_text s t || contains_text s ts

abbrev is_nil {ℓ} : {A : Type ℓ} → List A → Bool
is_nil [] = true
is_nil (x ∷ xs) = false

unfoldable pub provider_supports : OpenAiCompatibleProvider → List ℕ → Bool
provider_supports p model = is_nil p.models || contains_text model p.models

unfoldable pub price_of : List ℕ → List (List ℕ × Price) → Option Price
price_of model [] = none
price_of model ((m, price) ∷ rest) = if same_text m model then some price else price_of model rest

abbrev or_fallback : Option ℕ → ℕ → ℕ
or_fallback none fallback = fallback
or_fallback (some n) fallback = n

abbrev configured_prices : Option Price → ℕ → ℕ → ℕ × ℕ
configured_prices none input output = (input, output)
configured_prices (some p) input output = (
  or_fallback p.input_microusd_per_million input,
  or_fallback p.output_microusd_per_million output,
)

unfoldable pub provider_prices : OpenAiCompatibleProvider → List ℕ → ℕ → ℕ → ℕ × ℕ
provider_prices p model input output = configured_prices (price_of model p.pricing) input output

-- A member of the route plan, by the attributes that are looked up on it; any but the call may be
-- missing.
pub record Client : Type 0 where
  pub name : Option (List ℕ)
  pub supports : Option (List ℕ → Bool)
  pub prices : Option (List ℕ → ℕ → ℕ → ℕ × ℕ)
  pub call : Fields → Answer
  pub open_stream : Option (Fields → Opening)

unfoldable pub provider_name : Client → ℕ → List ℕ
provider_name client index = or_text? client.name (codes "provider-" ++ digits (index + 1))

abbrev asks : Option (List ℕ → Bool) → List ℕ → Bool
asks none model = true
asks (some predicate) model = predicate model

unfoldable pub supports_model : Client → List ℕ → Bool
supports_model client model = asks client.supports model

abbrev resolves : Option (List ℕ → ℕ → ℕ → ℕ × ℕ) → List ℕ → ℕ → ℕ → ℕ × ℕ
resolves none model input output = (input, output)
resolves (some resolver) model input output = resolver model input output

unfoldable pub upstream_prices : Client → List ℕ → ℕ → ℕ → ℕ × ℕ
upstream_prices client model input output = resolves client.prices model input output

-- The client that a configured provider is, over the exchanges that its requests lead to.
unfoldable pub provider_client :
    (List ℕ → Option Json) → (Fields → Exchange) → OpenAiCompatibleProvider → Client
provider_client loads exchange p = record {
  name = some p.name;
  supports = some (provider_supports p);
  prices = some (provider_prices p);
  call = λ payload. call loads p.max_response_bytes (exchange payload);
  open_stream = some (λ payload. open_stream (exchange payload));
}
