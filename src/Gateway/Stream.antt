-- ===== src/Gateway/Stream.antt =====
-- `forward_stream` in `chat_completions` of app/__init__.py: the chunks go to the client while
-- `SSEUsageTracker` counts them, and the usage is settled at the end.
use kunlun_model_gateway.Base.{ℕ, Bool, Option, none, some, List, [], ◌∷◌, if◌then◌else◌, ◌+◌, ◌++◌}
use kunlun_model_gateway.Base.Result.{
  Error, Result, ok, err, stream_too_large, stream_line_too_large, stream_invalid_json,
  stream_invalid_event,
}
use kunlun_model_gateway.Json.{Fields, codes}
use kunlun_model_gateway.Models.{AttemptStatus, Db, ProviderAttempt, RequestStatus}
use kunlun_model_gateway.Billing.Settle.{SettleCall, settle_model_request}
use kunlun_model_gateway.Billing.Release.{PendingCall, mark_pending_reconciliation}
use kunlun_model_gateway.Streaming.{SseUsageTracker, new_tracker, feed, finish, settlement_response}
use kunlun_model_gateway.Providers.{StreamEnd}
use kunlun_model_gateway.Gateway.{Phase, World, StreamClose, Reply, Serving, Round, billing_status}

module _ (w : World) (c : Serving) (t : Round) where
  abbrev pub pending_call : List ℕ → PendingCall
  pending_call category = record {
    request_id = c.reservation.request_id;
    failure_category = category;
    provider = some (w.text_id t.name);
    fallback_count = some t.index;
    now = w.clock t.index Phase.closing;
  }

  -- A session that hands the request over to reconciliation.
  unfoldable pub hand_over : List ℕ → Db → Db
  hand_over category db =
      mark_pending_reconciliation (pending_call category) (w.others t.index Phase.closing db)

  abbrev pub settle_call : Fields → Bool → SettleCall
  settle_call response estimated = record {
    request_id = c.reservation.request_id;
    response = response;
    provider = w.text_id t.name;
    fallback_count = t.index;
    force_usage_estimated = estimated;
    upstream_input_price = some t.input_price;
    upstream_output_price = some t.output_price;
    upstream_cost_override = none;
    allowed_statuses = RequestStatus.reserved ∷ [];
    now = w.clock t.index Phase.settling;
    container_text = w.container_text;
  }

  -- `except BillingError` inside, `except Exception` outside.
  unfoldable pub not_settled : Option ℕ → Db → Db
  not_settled (some status) db = hand_over (codes "settlement_failed") db
  not_settled none db = hand_over (codes "unexpected_stream_failure") db

  unfoldable pub after_settle : Db → Result ((ℕ × Bool) × Db) → Db
  after_settle db (ok (charged, db')) = db'
  after_settle db (err e) = not_settled (billing_status e) db

  unfoldable pub settle_stream : SseUsageTracker → Db → Db
  settle_stream tracker db =
      let (response, estimated) =
        settlement_response c.model c.reservation.estimated_input_tokens tracker in
      let before = w.others t.index Phase.settling db in
      after_settle before (settle_model_request (settle_call response estimated) before)

  -- `except (StreamProtocolError, ProviderError)`, then `except Exception`.
  abbrev stream_failure : Error → List ℕ
  stream_failure stream_too_large = codes "provider_stream_failed"
  stream_failure stream_line_too_large = codes "provider_stream_failed"
  stream_failure stream_invalid_json = codes "provider_stream_failed"
  stream_failure stream_invalid_event = codes "provider_stream_failed"
  stream_failure other = codes "unexpected_stream_failure"

  -- The code after the loop over the chunks.
  unfoldable pub stream_finished : Result SseUsageTracker → Db → Db
  stream_finished (err e) db = hand_over (stream_failure e) db
  stream_finished (ok tracker) db =
      if tracker.counters.done
      then settle_stream tracker db
      else hand_over (codes "provider_stream_incomplete") db

  -- How the loop over the chunks was left. A closed generator runs no handler but `finally`.
  unfoldable pub stream_ended : StreamEnd → SseUsageTracker → Db → Db
  stream_ended StreamEnd.exhausted tracker db = stream_finished (finish w.loads tracker) db
  stream_ended StreamEnd.cancelled tracker db = hand_over (codes "client_disconnected") db
  stream_ended StreamEnd.failed tracker db = hand_over (codes "unexpected_stream_failure") db
  stream_ended StreamEnd.dropped tracker db = db
  stream_ended (StreamEnd.refused e) tracker db = hand_over (codes "provider_stream_failed") db

  abbrev pub close_of : StreamEnd → StreamClose
  close_of StreamEnd.cancelled = StreamClose.cancelled
  close_of StreamEnd.dropped = StreamClose.dropped
  close_of StreamEnd.exhausted = StreamClose.returned
  close_of StreamEnd.failed = StreamClose.returned
  close_of (StreamEnd.refused e) = StreamClose.returned

  -- The loop: `sent` are the chunks that were yielded.
  unfoldable pub forward :
      List (List ℕ) → List (List ℕ) → StreamEnd → SseUsageTracker → Db → Reply × Db
  forward sent [] ended tracker db = (
    Reply.streamed c.reservation.request_id t.name sent (close_of ended),
    stream_ended ended tracker db,
  )
  forward sent (chunk ∷ chunks) ended tracker db = elim (feed w.loads chunk tracker) [
    | err e ↦ (
      Reply.streamed c.reservation.request_id t.name sent StreamClose.returned,
      hand_over (stream_failure e) db,
    )
    | ok fed ↦ forward (sent ++ (chunk ∷ [])) chunks ended fed db
  ]

  -- `SSEUsageTracker()`, with its default of 10 MiB.
  abbrev pub forward_stream : List (List ℕ) → StreamEnd → Db → Reply × Db
  forward_stream chunks ended db = forward [] chunks ended (new_tracker 10_485_760) db

  abbrev pub attempt : AttemptStatus → ℕ → Option (List ℕ) → ProviderAttempt
  attempt status code category = record {
    request_id = c.reservation.request_id;
    ordinal = t.index + 1;
    provider = w.text_id t.name;
    status = status;
    status_code = some code;
    failure_category = category;
  }
