-- ===== src/Gateway/Rule.antt =====
-- A rule for one round of the loop in `chat_completions` of app/__init__.py: what holds of the
-- transactions that the round makes, and of how it ends, holds of the round.
pub mod Stream
pub mod Body
use kunlun_model_gateway.Base.{
  ℕ, suc, ◌+◌, ◌≡◌, refl, Bool, true, false, not, ◌&&◌, Option, none, some, List, [], ◌∷◌, ◌++◌,
  ltb, arith, Bool-cases, Option-cases, inl, inr, if_elim, if◌then◌else◌,
}
use mathlib.Core.Bool.{and-eq-true_iff}
use kunlun_model_gateway.Base.Result.{Error, Result, ok, err, Result-cases}
use kunlun_model_gateway.Json.{Fields, Json, codes}
use kunlun_model_gateway.Models.{
  AttemptStatus, Db, ProviderAttempt, SafetyAudit, SafetyOutcome, SafetyPhase,
}
use kunlun_model_gateway.Billing.Settle.{settle_model_request}
use kunlun_model_gateway.Billing.Release.{record_attempt, release_call, release_model_request}
use kunlun_model_gateway.ContentSafety.{SafetyAnswer}
use kunlun_model_gateway.Providers.{Answer, Client, Opening, ProviderError, StreamEnd, bad_answer}
use kunlun_model_gateway.Streaming.{SseUsageTracker, feed, finish}
use kunlun_model_gateway.Gateway.{
  Phase, World, Reply, StreamClose, Serving, Round, SafetyCheck, add_audit, billing_status,
}
use kunlun_model_gateway.Gateway.Stream.{
  after_settle, not_settled, attempt, close_of, forward, hand_over, settle_call, settle_stream,
  stream_ended, stream_finished,
}
use kunlun_model_gateway.Gateway.Turn
use kunlun_model_gateway.Gateway.Turn.{Next, Verdict}

-- The request that a reply tells its caller is closed: the one that it names, unless the stream was
-- dropped.
abbrev pub request_of : Reply → Option ℕ
request_of (Reply.error status code request) = request
request_of (Reply.completion request name result) = some request
request_of (Reply.synthesized request name result) = some request
request_of (Reply.streamed request name sent StreamClose.returned) = some request
request_of (Reply.streamed request name sent StreamClose.cancelled) = some request
request_of (Reply.streamed request name sent StreamClose.dropped) = none
request_of (Reply.cancelled request) = request
request_of Reply.raised = none

-- The handler returns a response.
abbrev pub is_answer : Reply → Bool
is_answer (Reply.error status code request) = true
is_answer (Reply.completion request name result) = true
is_answer (Reply.synthesized request name result) = true
is_answer (Reply.streamed request name sent close) = true
is_answer (Reply.cancelled request) = false
is_answer Reply.raised = false

-- How far the round has come: whether its attempt is recorded, the failure that it handles, and the
-- audit of its output.
pub data Stage : Type 0 where
  fresh noted checked : Stage
  refusing : ProviderError → Stage

-- The client has refused the payload with this error.
pub data Refuses (c : Serving) (client : Client) (e : ProviderError) : Type 0 where
  call : client.call c.payload ≡ Answer.refused e → Refuses c client e
  opening :
      (open_stream : Fields → Opening)
      → client.open_stream ≡ some open_stream
      → open_stream c.payload ≡ Opening.refused e
      → Refuses c client e

-- The failure of the client that a round handles: its refusal, or its answer that is no dict.
pub data Fails (c : Serving) (client : Client) (e : ProviderError) : Type 0 where
  refuses : Refuses c client e → Fails c client e
  not_a_dict :
      client.call c.payload ≡ Answer.not_a_dict
      → e ≡ bad_answer (codes "provider_invalid_payload")
      → Fails c client e

-- A wait of the round was cancelled: for the client, or for the check of its output.
pub data IsCut (c : Serving) (client : Client) : Type 0 where
  call : client.call c.payload ≡ Answer.cancelled → IsCut c client
  opening :
      (open_stream : Fields → Opening)
      → client.open_stream ≡ some open_stream
      → open_stream c.payload ≡ Opening.cancelled
      → IsCut c client
  check :
      (safety : SafetyCheck) (output : Json)
      → c.safety ≡ some safety
      → safety SafetyPhase.output c.model output ≡ SafetyAnswer.cancelled
      → IsCut c client

module _ (w : World) (c : Serving) where
  abbrev pub IsOfRequest : Reply → Type 0
  IsOfRequest reply = request_of reply ≡ some c.reservation.request_id

  -- `R s db n` is to hold of a part of the round that starts at `db` in the stage `s` and ends in
  -- `n`.
  pub record Obeys (client : Client) (t : Round) (R : Stage → Db → Next → Type 0) : Type 0 where
    pub elsewhere :
        (s : Stage) (p : Phase) (db : Db) (n : Next) → R s (w.others t.index p db) n → R s db n
    pub attempted :
        (status : AttemptStatus) (code : ℕ) (category : Option (List ℕ)) (db db' : Db) (n : Next)
        → record_attempt (attempt w c t status code category) db ≡ ok db'
        → R Stage.noted db' n
        → R Stage.fresh db n
    pub refused :
        (e : ProviderError) (db db' : Db) (n : Next)
        → Fails c client e
        → record_attempt (attempt w c t AttemptStatus.failed e.status_code (some e.category)) db
          ≡ ok db'
        → R (Stage.refusing e) db' n
        → R Stage.fresh db n
    pub audited :
        (a : SafetyAudit) (db db' : Db) (n : Next)
        → add_audit a db ≡ ok db'
        → R Stage.checked db' n
        → R Stage.noted db n
    pub handed_over :
        (s : Stage) (category : List ℕ) (reply : Reply) (db : Db)
        → IsOfRequest reply
        → is_answer reply ≡ true
        → R s db (Next.done reply (hand_over w c t category db))
    pub cut :
        (s : Stage) (category : List ℕ) (db : Db)
        → IsCut c client
        → R s db (
            Next.done
              (Reply.cancelled (some c.reservation.request_id))
              (hand_over w c t category db))
    pub settled :
        (s : Stage) (response : Fields) (estimated : Bool) (charged : ℕ × Bool) (reply : Reply)
        (db db' : Db)
        → settle_model_request (settle_call w c t response estimated) db ≡ ok (charged, db')
        → IsOfRequest reply
        → is_answer reply ≡ true
        → R s db (Next.done reply db')
    pub unrendered :
        (s : Stage) (response : Fields) (charged : ℕ × Bool) (category : List ℕ) (reply : Reply)
        (db db' : Db)
        → settle_model_request (settle_call w c t response false) db ≡ ok (charged, db')
        → IsOfRequest reply
        → is_answer reply ≡ true
        → R s db (Next.done reply (hand_over w c t category db'))
    pub released :
        (e : ProviderError) (db db' : Db)
        → e.request_may_be_billable ≡ false
        → release_model_request
            (release_call c.reservation.request_id e.category (w.clock t.index Phase.closing))
            db
          ≡ ok db'
        → R
            (Stage.refusing e)
            db
            (Next.done (Reply.error e.status_code e.category (some c.reservation.request_id)) db')
    pub dropped :
        (sent : List (List ℕ)) (db : Db)
        → R Stage.noted db
            (Next.done (Reply.streamed c.reservation.request_id t.name sent StreamClose.dropped) db)
    pub continued :
        (e : ProviderError) (db : Db)
        → e.request_may_be_billable ≡ false
        → e.safe_to_failover ≡ true
        → ltb (t.index + 1) c.total ≡ true
        → R (Stage.refusing e) db (Next.continue e db)
    pub unnoted :
        (status : AttemptStatus) (code : ℕ) (category : Option (List ℕ)) (db : Db) (x : Error)
        → record_attempt (attempt w c t status code category) db ≡ err x
        → R Stage.fresh db (Next.done Reply.raised db)
    pub unreleased :
        (e : ProviderError) (db : Db) (x : Error)
        → release_model_request
            (release_call c.reservation.request_id e.category (w.clock t.index Phase.closing))
            db
          ≡ err x
        → R (Stage.refusing e) db (Next.done Reply.raised db)
