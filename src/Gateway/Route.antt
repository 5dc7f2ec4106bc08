-- ===== src/Gateway/Route.antt =====
-- `chat_completions` of app/__init__.py: the checks before the reservation, the reservation, and the
-- loop over the clients.
use kunlun_model_gateway.Base.{
  ℕ, suc, Bool, not, Option, none, some, List, [], ◌∷◌, ltb, length, if◌then◌else◌,
}
use kunlun_model_gateway.Base.Result.{Result, ok, err}
use kunlun_model_gateway.Json.{Fields, dict, codes}
use kunlun_model_gateway.Models.{Db, SafetyAudit, SafetyOutcome, SafetyPhase}
use kunlun_model_gateway.Billing.Reserve.{ReserveCall, Reservation, reserve_model_request}
use kunlun_model_gateway.Billing.Release.{release_call, release_model_request}
use kunlun_model_gateway.ContentSafety.{SafetyAnswer}
use kunlun_model_gateway.Providers.{Client, ProviderError}
use kunlun_model_gateway.Gateway.{
  Phase, World, SafetyCheck, Reply, Serving, add_audit, link_audit, billing_status,
}
use kunlun_model_gateway.Gateway.Turn.{Next, Verdict, decision_verdict, no_verdict, turn}
use kunlun_model_gateway.Gateway.Payload.{
  ChatCall, Settings, billable_payload, direct_upstream_stream, eligible, key_fits, max_output,
  option_text, or_empty, upstream_payload,
}

module _ (w : World) where
  module _ (c : Serving) where
    -- The code after the loop.
    abbrev last_category : Option ProviderError → List ℕ
    last_category none = codes "no_provider"
    last_category (some e) = e.category

    unfoldable pub all_failed : Db → Result Db → Reply × Db
    all_failed db (ok db') =
        (Reply.error 503 (codes "all_providers_failed") (some c.reservation.request_id), db')
    all_failed db (err x) = (Reply.raised, db)

    unfoldable pub try_clients : ℕ → Option ProviderError → List Client → Db → Reply × Db
    try_clients index last [] db =
        let before = w.others index Phase.closing db in
        all_failed before (
          release_model_request
            (release_call c.reservation.request_id (last_category last)
              (w.clock index Phase.closing))
            before)
    try_clients index last (client ∷ clients) db = elim (turn w c index client db) [
      | Next.done reply db' ↦ (reply, db')
      | Next.continue e db' ↦ try_clients (suc index) (some e) clients db'
    ]

  module _ (settings : Settings) (q : ChatCall) where
    abbrev pub limit : ℕ
    limit = max_output settings q.request

    abbrev pub direct : Bool
    direct = direct_upstream_stream q.request.stream settings.content_safety

    abbrev pub payload : Fields
    payload = upstream_payload q.request direct limit

    abbrev key_id : Option (List ℕ) → Option ℕ
    key_id none = none
    key_id (some key) = some (w.text_id key)

    abbrev pub reserve_call : ReserveCall
    reserve_call = record {
      user_id = q.principal.user_id;
      api_key_id = or_empty q.principal.api_key_id;
      model = q.request.model;
      billable_payload = billable_payload payload;
      max_output_tokens = limit;
      idempotency_key = key_id q.idempotency_key;
      request_id = w.new_uuid 0 Phase.reserving;
      now = w.clock 0 Phase.reserving;
      later = w.clock 1 Phase.reserving;
      created_at = w.clock 2 Phase.reserving;
    }

    abbrev pub serving : Reservation → ℕ → Serving
    serving reservation total = record {
      model = q.request.model;
      payload = payload;
      stream = q.request.stream;
      direct = direct;
      safety = settings.content_safety;
      policy_version = option_text settings.content_safety_policy_version;
      user_id = q.principal.user_id;
      api_key_id = or_empty q.principal.api_key_id;
      reservation = reservation;
      total = total;
    }

    -- `except BillingError`.
    unfoldable pub not_reserved : Option ℕ → Reply
    not_reserved (some status) = Reply.error status (codes "billing_rejected") none
    not_reserved none = Reply.raised

    unfoldable pub after_reserve :
        List Client → Option ℕ → Db → Result (Reservation × Db) → Reply × Db
    after_reserve clients audit db (err e) = (not_reserved (billing_status e), db)
    after_reserve clients audit db (ok (reservation, db')) =
        let linked = link_audit audit reservation.request_id (w.others 0 Phase.linking db') in
        try_clients (serving reservation (length clients)) 0 none clients linked

    unfoldable pub reserve_and_serve : List Client → Option ℕ → Db → Reply × Db
    reserve_and_serve clients audit db =
        let before = w.others 0 Phase.reserving db in
        after_reserve clients audit before (reserve_model_request reserve_call before)

    abbrev pub input_audit : Verdict → SafetyAudit
    input_audit (outcome, reason, decision) = record {
      id = w.new_uuid 0 Phase.screening;
      user_id = q.principal.user_id;
      api_key_id = or_empty q.principal.api_key_id;
      request_id = none;
      phase = SafetyPhase.input;
      outcome = outcome;
      reason_code = reason;
      decision_id = decision;
      policy_version = option_text settings.content_safety_policy_version;
    }

    unfoldable pub screened : List Client → SafetyOutcome → Db → Reply × Db
    screened clients SafetyOutcome.unavailable db =
        (Reply.error 503 (codes "safety_unavailable") none, db)
    screened clients SafetyOutcome.blocked db =
        (Reply.error 403 (codes "content_policy_rejected") none, db)
    screened clients SafetyOutcome.allowed db =
        reserve_and_serve clients (some (w.new_uuid 0 Phase.screening)) db

    unfoldable pub after_input_audit : List Client → SafetyOutcome → Db → Result Db → Reply × Db
    after_input_audit clients outcome db (ok db') = screened clients outcome db'
    after_input_audit clients outcome db (err x) = (Reply.raised, db)

    unfoldable pub audit_input : List Client → Verdict → Db → Reply × Db
    audit_input clients v db =
        let before = w.others 0 Phase.screening db in
        after_input_audit clients v.0 before (add_audit (input_audit v) before)

    unfoldable pub input_checked : List Client → SafetyAnswer → Db → Reply × Db
    input_checked clients (SafetyAnswer.decided d) db = audit_input clients (decision_verdict d) db
    input_checked clients SafetyAnswer.unavailable db = audit_input clients no_verdict db
    input_checked clients SafetyAnswer.cancelled db = (Reply.cancelled none, db)
    input_checked clients SafetyAnswer.failed db = (Reply.raised, db)

    unfoldable pub screen : List Client → Option SafetyCheck → Db → Reply × Db
    screen clients none db = reserve_and_serve clients none db
    screen clients (some check) db =
        input_checked clients (check SafetyPhase.input q.request.model (dict payload)) db

    unfoldable pub route : List Client → Db → Reply × Db
    route [] db = (Reply.error 503 (codes "no_provider") none, db)
    route (client ∷ clients) db = screen (client ∷ clients) settings.content_safety db

    unfoldable pub chat_completions : Db → Reply × Db
    chat_completions db =
        if not (key_fits q.idempotency_key)
        then (Reply.error 422 (codes "invalid_idempotency_key") none, db)
        else if ltb settings.max_output_tokens limit
        then (Reply.error 422 (codes "max_output_tokens_exceeded") none, db)
        else route (eligible q.request.model settings.ordered_clients) db
