-- ===== src/Gateway/Turn.antt =====
-- One round of the loop over the clients in `chat_completions` of app/__init__.py.
use kunlun_model_gateway.Base.{
  ℕ, ◌+◌, Bool, true, false, ◌&&◌, Option, none, some, List, ltb, if◌then◌else◌, ◌++◌, ◌≡◌, refl,
  ◌⊎◌, inl, inr,
}
use kunlun_model_gateway.Base.Int.{pos}
use kunlun_model_gateway.Base.Result.{Result, ok, err}
use kunlun_model_gateway.Json.{Json, Fields, str, int, list, nil, codes, get}
use kunlun_model_gateway.Json.Edit.{set_default}
use kunlun_model_gateway.Models.{AttemptStatus, Db, SafetyAudit, SafetyOutcome, SafetyPhase}
use kunlun_model_gateway.Billing.Settle.{settle_model_request}
use kunlun_model_gateway.Billing.Release.{record_attempt, release_call, release_model_request}
use kunlun_model_gateway.ContentSafety.{SafetyAnswer, SafetyDecision}
use kunlun_model_gateway.Providers.{
  Answer, Client, Opening, ProviderError, StreamEnd, bad_answer, provider_name, upstream_prices,
}
use kunlun_model_gateway.Gateway.{
  Phase, World, SafetyCheck, Reply, Serving, Round, add_audit, billing_status,
}
use kunlun_model_gateway.Gateway.Stream.{attempt, forward_stream, hand_over, settle_call}

-- `return`, or an exception that leaves the handler; or `continue`, with `last_error`.
pub data Next : Type 0 where
  done : Reply → Db → Next
  continue : ProviderError → Db → Next

pub Next-cases :
    (n : Next)
    → ((reply : Reply) × (db : Db) × (n ≡ Next.done reply db))
      ⊎ ((e : ProviderError) × (db : Db) × (n ≡ Next.continue e db))
Next-cases (Next.done reply db) = inl (reply, db, refl)
Next-cases (Next.continue e db) = inr (e, db, refl)

abbrev pub Verdict : Type 0
Verdict = SafetyOutcome × List ℕ × Option (List ℕ)

abbrev pub decision_verdict : SafetyDecision → Verdict
decision_verdict d = (
  if d.allowed then SafetyOutcome.allowed else SafetyOutcome.blocked,
  d.reason_code,
  d.decision_id,
)

-- What `except ContentSafetyError` sets.
abbrev pub no_verdict : Verdict
no_verdict = (SafetyOutcome.unavailable, codes "service_unavailable", none)

abbrev json_or : Json → Option Json → Json
json_or default none = default
json_or default (some v) = v

module _ (w : World) (c : Serving) where
  abbrev pub round_of : ℕ → Client → Round
  round_of index client =
      let (input, output) =
        upstream_prices client c.model c.reservation.input_price c.reservation.output_price in
      record {
        index = index;
        name = provider_name client index;
        input_price = input;
        output_price = output;
      }

  module _ (t : Round) where
    abbrev id : ℕ
    id = c.reservation.request_id

    -- `except Exception`.
    unfoldable pub unexpected : Db → Next
    unexpected db =
        Next.done (Reply.error 502 (codes "reconciliation_pending") (some id))
          (hand_over w c t (codes "unexpected_provider_failure") db)

    -- `except asyncio.CancelledError`.
    unfoldable pub disconnected : Db → Next
    disconnected db =
        Next.done (Reply.cancelled (some id)) (hand_over w c t (codes "client_disconnected") db)

    -- The release after the last provider, or after one that forbids another.
    unfoldable pub released : ProviderError → Db → Result Db → Next
    released e db (ok db') = Next.done (Reply.error e.status_code e.category (some id)) db'
    released e db (err x) = Next.done Reply.raised db

    unfoldable pub give_up : ProviderError → Db → Next
    give_up e db =
        let before = w.others t.index Phase.closing db in
        released e before (
          release_model_request (release_call id e.category (w.clock t.index Phase.closing)) before)

    -- `except ProviderError`, after its attempt is recorded.
    unfoldable pub refusal_noted : ProviderError → Db → Next
    refusal_noted e db =
        if e.request_may_be_billable
        then Next.done (Reply.error 502 (codes "reconciliation_pending") (some id))
            (hand_over w c t e.category db)
        else if e.safe_to_failover && ltb (t.index + 1) c.total
        then Next.continue e db
        else give_up e db

    unfoldable pub after_refusal : ProviderError → Db → Result Db → Next
    after_refusal e db (ok db') = refusal_noted e db'
    after_refusal e db (err x) = Next.done Reply.raised db

    unfoldable pub refused : ProviderError → Db → Next
    refused e db =
        let before = w.others t.index Phase.handling db in
        after_refusal e before (
          record_attempt (attempt w c t AttemptStatus.failed e.status_code (some e.category))
            before)

    -- The four `setdefault` calls.
    abbrev pub completed : Fields → Fields
    completed result = set_default (codes "model") (str c.model) (
        set_default (codes "created") (int (pos (w.clock t.index Phase.closing))) (
          set_default (codes "object") (str (codes "chat.completion"))
            (set_default (codes "id") (str (codes "chatcmpl_" ++ w.uuid_hex id)) result)))

    -- The two answers with the completion. A JSONResponse that cannot be rendered raises inside the
    -- `try`.
    unfoldable pub rendered : Fields → Db → Next
    rendered fields db =
        if c.stream
        then Next.done (Reply.synthesized id t.name fields) db
        else if w.renders fields
        then Next.done (Reply.completion id t.name fields) db
        else unexpected db

    unfoldable pub delivered : Option SafetyOutcome → Fields → Db → Next
    delivered (some SafetyOutcome.unavailable) result db =
        Next.done (Reply.error 503 (codes "safety_unavailable") (some id)) db
    delivered (some SafetyOutcome.blocked) result db =
        Next.done (Reply.error 403 (codes "content_policy_rejected") (some id)) db
    delivered (some SafetyOutcome.allowed) result db = rendered (completed result) db
    delivered none result db = rendered (completed result) db

    unfoldable pub not_settled : Option ℕ → Db → Next
    not_settled (some status) db =
        Next.done (Reply.error 503 (codes "settlement_pending") (some id))
          (hand_over w c t (codes "settlement_failed") db)
    not_settled none db = unexpected db

    unfoldable pub after_result :
        Option SafetyOutcome → Fields → Db → Result ((ℕ × Bool) × Db) → Next
    after_result outcome result db (ok (charged, db')) = delivered outcome result db'
    after_result outcome result db (err e) = not_settled (billing_status e) db

    unfoldable pub settle_result : Option SafetyOutcome → Fields → Db → Next
    settle_result outcome result db =
        let before = w.others t.index Phase.settling db in
        after_result outcome result before
          (settle_model_request (settle_call w c t result false) before)

    abbrev pub output_audit : Verdict → SafetyAudit
    output_audit (outcome, reason, decision) = record {
      id = w.new_uuid t.index Phase.auditing;
      user_id = c.user_id;
      api_key_id = c.api_key_id;
      request_id = some id;
      phase = SafetyPhase.output;
      outcome = outcome;
      reason_code = reason;
      decision_id = decision;
      policy_version = c.policy_version;
    }

    unfoldable pub after_audit : SafetyOutcome → Fields → Db → Result Db → Next
    after_audit outcome result db (ok db') = settle_result (some outcome) result db'
    after_audit outcome result db (err x) = unexpected db

    unfoldable pub audit_output : Verdict → Fields → Db → Next
    audit_output v result db =
        let before = w.others t.index Phase.auditing db in
        after_audit v.0 result before (add_audit (output_audit v) before)

    unfoldable pub checked : SafetyAnswer → Fields → Db → Next
    checked (SafetyAnswer.decided d) result db = audit_output (decision_verdict d) result db
    checked SafetyAnswer.unavailable result db = audit_output no_verdict result db
    checked SafetyAnswer.cancelled result db = disconnected db
    checked SafetyAnswer.failed result db = unexpected db

    unfoldable pub check_output : Option SafetyCheck → Fields → Db → Next
    check_output none result db = settle_result none result db
    check_output (some check) result db =
        checked
          (check SafetyPhase.output c.model (json_or (list nil) (get (codes "choices") result)))
          result db

    unfoldable pub after_success : Fields → Db → Result Db → Next
    after_success result db (ok db') = check_output c.safety result db'
    after_success result db (err x) = unexpected db

    unfoldable pub succeeded : Fields → Db → Next
    succeeded result db =
        let before = w.others t.index Phase.answering db in
        after_success result before
          (record_attempt (attempt w c t AttemptStatus.succeeded 200 none) before)

    -- `await client(upstream_payload)`.
    unfoldable pub answered : Answer → Db → Next
    answered (Answer.result fields) db = succeeded fields db
    answered Answer.not_a_dict db = refused (bad_answer (codes "provider_invalid_payload")) db
    answered (Answer.refused e) db = refused e db
    answered Answer.cancelled db = disconnected db
    answered Answer.failed db = unexpected db

    unfoldable pub after_opening : List (List ℕ) → StreamEnd → Db → Result Db → Next
    after_opening chunks ended db (ok db') =
        let (reply, db'') = forward_stream w c t chunks ended db' in Next.done reply db''
    after_opening chunks ended db (err x) = unexpected db

    -- `await open_stream(client, upstream_payload)`.
    unfoldable pub opened : Opening → Db → Next
    opened (Opening.opened chunks ended) db =
        let before = w.others t.index Phase.opening db in
        after_opening chunks ended before
          (record_attempt (attempt w c t AttemptStatus.stream_opened 200 none) before)
    opened (Opening.refused e) db = refused e db
    opened Opening.cancelled db = disconnected db
    opened Opening.failed db = unexpected db

    -- `direct_upstream_stream and callable(open_stream)`.
    unfoldable pub ask : Bool → Option (Fields → Opening) → (Fields → Answer) → Db → Next
    ask true (some open_stream) call db = opened (open_stream c.payload) db
    ask true none call db = answered (call c.payload) db
    ask false open_stream call db = answered (call c.payload) db

  unfoldable pub turn : ℕ → Client → Db → Next
  turn index client db = ask (round_of index client) c.direct client.open_stream client.call db
