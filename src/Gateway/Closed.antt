-- ===== src/Gateway/Closed.antt =====
-- `chat_completions` of app/__init__.py leaves no reservation open behind an answer.
use kunlun_model_gateway.Base.{
  ℕ, suc, ◌≡◌, refl, subst, not, ltb, Option, none, some, List, [], ◌∷◌, inl, inr, if_elim, length,
}
use kunlun_model_gateway.Base.Result.{Result, ok, err}
use kunlun_model_gateway.Models.{Db, ModelRequest, SafetyOutcome}
use kunlun_model_gateway.Billing.Unreserved.{
  IsUnreserved, mark_pending_reconciliation-IsUnreserved, settle_model_request-IsUnreserved,
  release_model_request-IsUnreserved,
}
use kunlun_model_gateway.Billing.Release.{release_call, release_model_request}
use kunlun_model_gateway.Billing.Reserve.{Reservation}
use kunlun_model_gateway.ContentSafety.{SafetyAnswer}
use kunlun_model_gateway.Providers.{Client, ProviderError}
use kunlun_model_gateway.Gateway.{Phase, World, Reply, Serving, SafetyCheck, Round, billing_status}
use kunlun_model_gateway.Gateway.Stream.{hand_over, pending_call, settle_call}
use kunlun_model_gateway.Gateway.Turn.{Next, Next-cases, round_of, turn}
use kunlun_model_gateway.Gateway.Rule.{IsOfRequest, Obeys, request_of}
use kunlun_model_gateway.Gateway.Rule.Body.{turn-Obeys}
use kunlun_model_gateway.Gateway.Route
use kunlun_model_gateway.Gateway.Payload.{ChatCall, Settings, key_fits}
use kunlun_model_gateway.Gateway.Route.{all_failed, chat_completions, try_clients}

-- The request that the reply names is not `reserved`.
pub record Frees (reply : Reply) (requests : List ModelRequest) : Type 0 where
  pub freed : (id : ℕ) → request_of reply ≡ some id → IsUnreserved id requests

abbrev pub LeavesNoHold : Reply × Db → Type 0
LeavesNoHold (reply, db) = Frees reply db.requests

abbrev EndsWithoutHold : Next → Type 0
EndsWithoutHold (Next.done reply db) = LeavesNoHold (reply, db)
EndsWithoutHold (Next.continue e db) = Unit

no_request :
    (reply : Reply) (requests : List ModelRequest) → request_of reply ≡ none → Frees reply requests
no_request reply requests silent = record { freed = λ id named. absurd (cc) }

module _ (w : World) where
  module _ (c : Serving) where
    own_request :
        (reply : Reply) (requests : List ModelRequest)
        → IsOfRequest w c reply
        → IsUnreserved c.reservation.request_id requests
        → Frees reply requests
    own_request reply requests own closed = record {
      freed = λ id named.
          let same : c.reservation.request_id ≡ id = cc in
          subst (λ j. IsUnreserved j requests) same closed;
    }

    closing : (client : Client) (t : Round) → Obeys w c client t (λ s db n. EndsWithoutHold n)
    unfolding hand_over
    closing client t = record {
      elsewhere = λ s p db n after. after;
      attempted = λ status code category db db' n e after. after;
      refused = λ x db db' n fails e after. after;
      audited = λ a db db' n e after. after;
      handed_over = λ s category reply db own sent. own_request reply _ own (
          mark_pending_reconciliation-IsUnreserved (pending_call w c t category)
            (w.others t.index Phase.closing db));
      cut = λ s category db cut. own_request _ _ refl (
          mark_pending_reconciliation-IsUnreserved (pending_call w c t category)
            (w.others t.index Phase.closing db));
      unrendered = λ s response charged category reply db db' e own sent. own_request reply _ own (
          mark_pending_reconciliation-IsUnreserved (pending_call w c t category)
            (w.others t.index Phase.closing db'));
      settled = λ s response estimated charged reply db db' e own sent.
          own_request reply db'.requests own (
            settle_model_request-IsUnreserved (settle_call w c t response estimated) db charged db'
              e);
      released = λ e db db' free done. own_request _ db'.requests refl (
          release_model_request-IsUnreserved
            (release_call c.reservation.request_id e.category (w.clock t.index Phase.closing)) db
            db' refl refl done);
      dropped = λ sent db. no_request _ db.requests refl;
      continued = λ e db free safe more. tt;
      unnoted = λ status code category db x e. no_request _ db.requests refl;
      unreleased = λ e db x failed. no_request _ db.requests refl;
    }

    all_failed-closes :
        (category : List ℕ) (now : ℕ) (db : Db) (m : Result Db)
        → release_model_request (release_call c.reservation.request_id category now) db ≡ m
        → LeavesNoHold (all_failed w c db m)
    unfolding all_failed
    all_failed-closes category now db (ok db') e = own_request _ db'.requests refl (
        release_model_request-IsUnreserved (release_call c.reservation.request_id category now) db
          db' refl refl e)
    all_failed-closes category now db (err x) e = no_request _ db.requests refl

    try_clients-closes :
        (index : ℕ) (last : Option ProviderError) (clients : List Client) (db : Db)
        → LeavesNoHold (try_clients w c index last clients db)
    unfolding try_clients
    try_clients-closes index last [] db = all_failed-closes _ _ _ _ refl
    try_clients-closes index last (client ∷ clients) db =
        let first = turn-Obeys w c index client db (closing client (round_of w c index client)) in
        elim (Next-cases (turn w c index client db)) [
          | inl (reply, db', e) ↦ rw (try_clients, e) (rw e at first)
          | inr (x, db', e) ↦
              rw (try_clients, e) (try_clients-closes (suc index) (some x) clients db')
        ]

  module _ (settings : Settings) (q : ChatCall) where
    not_reserved-silent :
        (status : Option ℕ) → request_of (Route.not_reserved w settings q status) ≡ none
    unfolding Route.not_reserved
    not_reserved-silent (some status) = refl
    not_reserved-silent none = refl

    after_reserve-closes :
        (clients : List Client) (audit : Option ℕ) (db : Db) (m : Result (Reservation × Db))
        → LeavesNoHold (Route.after_reserve w settings q clients audit db m)
    unfolding Route.after_reserve
    after_reserve-closes clients audit db (err x) =
        no_request _ db.requests (not_reserved-silent (billing_status x))
    after_reserve-closes clients audit db (ok (reservation, db')) =
        try_clients-closes (Route.serving w settings q reservation (length clients)) 0 none clients
          _

    screened-closes :
        (clients : List Client) (outcome : SafetyOutcome) (db : Db)
        → LeavesNoHold (Route.screened w settings q clients outcome db)
    unfolding Route.screened Route.reserve_and_serve
    screened-closes clients SafetyOutcome.allowed db = after_reserve-closes clients _ _ _
    screened-closes clients SafetyOutcome.blocked db = no_request _ db.requests refl
    screened-closes clients SafetyOutcome.unavailable db = no_request _ db.requests refl

    after_input_audit-closes :
        (clients : List Client) (outcome : SafetyOutcome) (db : Db) (m : Result Db)
        → LeavesNoHold (Route.after_input_audit w settings q clients outcome db m)
    unfolding Route.after_input_audit
    after_input_audit-closes clients outcome db (ok db') = screened-closes clients outcome db'
    after_input_audit-closes clients outcome db (err x) = no_request _ db.requests refl

    input_checked-closes :
        (clients : List Client) (a : SafetyAnswer) (db : Db)
        → LeavesNoHold (Route.input_checked w settings q clients a db)
    unfolding Route.input_checked Route.audit_input
    input_checked-closes clients (SafetyAnswer.decided d) db =
        after_input_audit-closes clients _ _ _
    input_checked-closes clients SafetyAnswer.unavailable db =
        after_input_audit-closes clients _ _ _
    input_checked-closes clients SafetyAnswer.cancelled db = no_request _ db.requests refl
    input_checked-closes clients SafetyAnswer.failed db = no_request _ db.requests refl

    screen-closes :
        (clients : List Client) (safety : Option SafetyCheck) (db : Db)
        → LeavesNoHold (Route.screen w settings q clients safety db)
    unfolding Route.screen Route.reserve_and_serve
    screen-closes clients none db = after_reserve-closes clients none _ _
    screen-closes clients (some check) db = input_checked-closes clients _ db

    route-closes :
        (clients : List Client) (db : Db) → LeavesNoHold (Route.route w settings q clients db)
    unfolding Route.route
    route-closes [] db = no_request _ db.requests refl
    route-closes (client ∷ clients) db = screen-closes _ settings.content_safety db

    -- When the handler has answered with a request id, or was cancelled after the reservation, that
    -- request is not `reserved` any more: it was settled, released, or handed over to
    -- reconciliation, whatever the providers, the content-safety service and other requests did
    -- meanwhile. An answer with a stream counts when its generator has returned or was cancelled,
    -- and not when it was dropped at a `yield`.
    pub chat_completions-closes : (db : Db) → LeavesNoHold (chat_completions w settings q db)
    unfolding chat_completions
    chat_completions-closes db =
        if_elim LeavesNoHold (not (key_fits q.idempotency_key)) _ _
          (λ _. no_request _ db.requests refl)
          λ _.
            if_elim LeavesNoHold (ltb settings.max_output_tokens (Route.limit w settings q)) _ _
              (λ _. no_request _ db.requests refl) (λ _. route-closes _ db)
