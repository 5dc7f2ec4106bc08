-- ===== src/Gateway.antt =====
-- The handler of `POST /v1/chat/completions` in app/__init__.py: what it is given, what it answers,
-- and the rows that it writes itself. Its children translate the body.
pub mod Stream
pub mod Turn
pub mod Payload
pub mod Route
pub mod Rule
pub mod History
pub mod Closed
pub mod Ready
pub mod Answered
pub mod Failover
use kunlun_model_gateway.Base.{
  ℕ, Bool, true, false, not, Option, none, some, List, [], ◌∷◌, ◌==◌, ◌||◌, if◌then◌else◌,
}
use kunlun_model_gateway.Base.Result.{Error, Result, ok, guard, ◌>>=◌, ◌>>◌, billing, integrity}
use kunlun_model_gateway.Json.{Json, Fields}
use kunlun_model_gateway.Models.{Db, SafetyAudit, SafetyPhase}
use kunlun_model_gateway.Billing.Reserve.{Reservation}
use kunlun_model_gateway.ContentSafety.{SafetyAnswer}
use kunlun_model_gateway.Streaming.{SseUsageTracker}

-- The sessions that the handler opens in one round of its loop, by what they are for.
pub data Phase : Type 0 where
  screening reserving linking opening answering auditing settling handling closing : Phase

-- What the handler does not decide: `json.loads`, Python's text of a container, the number that
-- stands for a text in an id column, the hexadecimal form of a uuid, new uuids and the clock, by
-- round and phase (the reservation reads it three times); `renders`, whether the framework's
-- JSONResponse accepts an object (it raises ValueError on NaN); and `others`, what other requests commit before the handler
-- opens its session of a round and phase.
pub record World : Type 0 where
  pub loads : List ℕ → Option Json
  pub container_text : Json → List ℕ
  pub text_id : List ℕ → ℕ
  pub uuid_hex : ℕ → List ℕ
  pub renders : Fields → Bool
  pub new_uuid : ℕ → Phase → ℕ
  pub clock : ℕ → Phase → ℕ
  pub others : ℕ → Phase → Db → Db

-- `app.state.content_safety.check(kind, model, content)`, where a service is configured.
abbrev pub SafetyCheck : Type 0
SafetyCheck = SafetyPhase → List ℕ → Json → SafetyAnswer

-- How the body of a streamed answer ended: the generator returned, its task was cancelled, or it
-- was closed at a `yield`.
pub data StreamClose : Type 0 where
  returned cancelled dropped : StreamClose

-- An answer of the handler, with the request id where the code sends one; `cancelled` and `raised`
-- are exceptions that leave it.
pub data Reply : Type 0 where
  error : ℕ → List ℕ → Option ℕ → Reply
  completion : ℕ → List ℕ → Fields → Reply
  synthesized : ℕ → List ℕ → Fields → Reply
  streamed : ℕ → List ℕ → List (List ℕ) → StreamClose → Reply
  cancelled : Option ℕ → Reply
  raised : Reply

-- The variables that are fixed once the reservation is made.
pub record Serving : Type 0 where
  pub model : List ℕ
  pub payload : Fields
  pub stream : Bool
  pub direct : Bool
  pub safety : Option SafetyCheck
  pub policy_version : Option (List ℕ)
  pub user_id : ℕ
  pub api_key_id : ℕ
  pub reservation : Reservation
  pub total : ℕ

-- The variables of one round of the loop over the clients.
pub record Round : Type 0 where
  pub index : ℕ
  pub name : List ℕ
  pub input_price : ℕ
  pub output_price : ℕ

-- `except BillingError`.
abbrev pub billing_status : Error → Option ℕ
billing_status (billing status) = some status
billing_status _ = none

unfoldable pub has_audit : ℕ → List SafetyAudit → Bool
has_audit id [] = false
has_audit id (a ∷ rest) = (a.id == id) || has_audit id rest

-- The session that adds a SafetyAudit.
unfoldable pub add_audit : SafetyAudit → Db → Result Db
add_audit a db = do
  guard (not (has_audit a.id db.audits)) integrity
  ok (record db { audits = a ∷ db.audits })

unfoldable pub link_rows : ℕ → ℕ → List SafetyAudit → List SafetyAudit
link_rows id request [] = []
link_rows id request (a ∷ rest) =
    (if a.id == id then record a { request_id = some request } else a) ∷ link_rows id request rest

-- The UPDATE that writes the request id into the audit of its input.
unfoldable pub link_audit : Option ℕ → ℕ → Db → Db
link_audit none request db = db
link_audit (some id) request db = record db { audits = link_rows id request db.audits }
