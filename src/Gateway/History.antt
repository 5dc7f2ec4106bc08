-- ===== src/Gateway/History.antt =====
-- `chat_completions` of app/__init__.py writes only by transactions of the services.
use kunlun_model_gateway.Base.{
  ℕ, suc, ◌≡◌, refl, Option, none, some, List, [], ◌∷◌, inl, inr, if_elim, length, not, ltb,
}
use kunlun_model_gateway.Base.Result.{Result, ok, err}
use kunlun_model_gateway.Models.{Db, SafetyAudit, SafetyOutcome}
use kunlun_model_gateway.Billing.Reserve.{Reservation, reserve_model_request}
use kunlun_model_gateway.Billing.Release.{release_call, release_model_request}
use kunlun_model_gateway.ContentSafety.{SafetyAnswer}
use kunlun_model_gateway.Providers.{Client, ProviderError}
use kunlun_model_gateway.Gateway.{Phase, World, Reply, Serving, SafetyCheck, Round, add_audit}
use kunlun_model_gateway.Gateway.Stream.{hand_over}
use kunlun_model_gateway.Gateway.Turn.{Next, Next-cases, Verdict, round_of, turn}
use kunlun_model_gateway.Gateway.Rule.{Obeys}
use kunlun_model_gateway.Gateway.Rule.Body.{turn-Obeys}
use kunlun_model_gateway.Gateway.Route
use kunlun_model_gateway.Gateway.Payload.{ChatCall, Settings, key_fits}
use kunlun_model_gateway.Gateway.Route.{all_failed, chat_completions, try_clients}
use kunlun_model_gateway.Services.{Step, Reaches}
use kunlun_model_gateway.Services.History.{followed_by, one_step}

-- What other requests commit are transactions of the services.
abbrev pub SharesServices : World → Type 0
SharesServices w = (i : ℕ) (p : Phase) (db : Db) → Reaches db (w.others i p db)

abbrev database : Next → Db
database (Next.done reply db) = db
database (Next.continue e db) = db

module _ (w : World) (shared : SharesServices w) where
  module _ (c : Serving) where
    history : (client : Client) (t : Round) → Obeys w c client t (λ s db n. Reaches db (database n))
    unfolding hand_over
    history client t = record {
      elsewhere = λ s p db n after. followed_by (shared t.index p db) after;
      attempted =
          λ status code category db db' n e after. followed_by (one_step (Step.attempt _ e)) after;
      refused = λ x db db' n fails e after. followed_by (one_step (Step.attempt _ e)) after;
      audited = λ a db db' n e after. followed_by (one_step (Step.audit a e)) after;
      handed_over = λ s category reply db own sent.
          Reaches.next (shared t.index Phase.closing db) (Step.hand_over _);
      cut = λ s category db cut. Reaches.next (shared t.index Phase.closing db) (Step.hand_over _);
      unrendered = λ s response charged category reply db db' e own sent.
          followed_by (one_step (Step.settle _ charged (refl, tt) e))
            (Reaches.next (shared t.index Phase.closing db') (Step.hand_over _));
      settled = λ s response estimated charged reply db db' e own sent.
          one_step (Step.settle _ charged (refl, tt) e);
      released = λ e db db' free done. one_step (Step.release _ (refl, tt) refl done);
      dropped = λ sent db. Reaches.start;
      continued = λ e db free safe more. Reaches.start;
      unnoted = λ status code category db x e. Reaches.start;
      unreleased = λ e db x failed. Reaches.start;
    }

    all_failed-Reaches :
        (category : List ℕ) (now : ℕ) (db : Db) (m : Result Db)
        → release_model_request (release_call c.reservation.request_id category now) db ≡ m
        → Reaches db (all_failed w c db m).1
    unfolding all_failed
    all_failed-Reaches category now db (ok db') e = one_step (Step.release _ (refl, tt) refl e)
    all_failed-Reaches category now db (err x) e = Reaches.start

    try_clients-Reaches :
        (index : ℕ) (last : Option ProviderError) (clients : List Client) (db : Db)
        → Reaches db (try_clients w c index last clients db).1
    unfolding try_clients
    try_clients-Reaches index last [] db =
        followed_by (shared index Phase.closing db) (all_failed-Reaches _ _ _ _ refl)
    try_clients-Reaches index last (client ∷ clients) db =
        let first = turn-Obeys w c index client db (history client (round_of w c index client)) in
        elim (Next-cases (turn w c index client db)) [
          | inl (reply, db', e) ↦ rw (try_clients, e) (rw e at first)
          | inr (x, db', e) ↦
              rw (try_clients, e)
                (followed_by (rw e at first) (try_clients-Reaches (suc index) (some x) clients db'))
        ]

  module _ (settings : Settings) (q : ChatCall) where
    after_reserve-Reaches :
        (clients : List Client) (audit : Option ℕ) (db : Db) (m : Result (Reservation × Db))
        → reserve_model_request (Route.reserve_call w settings q) db ≡ m
        → Reaches db (Route.after_reserve w settings q clients audit db m).1
    unfolding Route.after_reserve
    after_reserve-Reaches clients audit db (err x) e = Reaches.start
    after_reserve-Reaches clients audit db (ok (reservation, db')) e =
        followed_by (one_step (Step.reserve _ reservation e)) (
          followed_by (shared 0 Phase.linking db') (
            followed_by (one_step (Step.link audit reservation.request_id)) (
              try_clients-Reaches (Route.serving w settings q reservation (length clients)) 0 none
                clients _)))

    reserve_and_serve-Reaches :
        (clients : List Client) (audit : Option ℕ) (db : Db)
        → Reaches db (Route.reserve_and_serve w settings q clients audit db).1
    unfolding Route.reserve_and_serve
    reserve_and_serve-Reaches clients audit db =
        followed_by (shared 0 Phase.reserving db) (after_reserve-Reaches clients audit _ _ refl)

    screened-Reaches :
        (clients : List Client) (outcome : SafetyOutcome) (db : Db)
        → Reaches db (Route.screened w settings q clients outcome db).1
    unfolding Route.screened
    screened-Reaches clients SafetyOutcome.allowed db = reserve_and_serve-Reaches clients _ db
    screened-Reaches clients SafetyOutcome.blocked db = Reaches.start
    screened-Reaches clients SafetyOutcome.unavailable db = Reaches.start

    after_input_audit-Reaches :
        (clients : List Client) (outcome : SafetyOutcome) (a : SafetyAudit) (db : Db)
        (m : Result Db)
        → add_audit a db ≡ m
        → Reaches db (Route.after_input_audit w settings q clients outcome db m).1
    unfolding Route.after_input_audit
    after_input_audit-Reaches clients outcome a db (ok db') e =
        followed_by (one_step (Step.audit a e)) (screened-Reaches clients outcome db')
    after_input_audit-Reaches clients outcome a db (err x) e = Reaches.start

    audit_input-Reaches :
        (clients : List Client) (v : Verdict) (db : Db)
        → Reaches db (Route.audit_input w settings q clients v db).1
    unfolding Route.audit_input
    audit_input-Reaches clients v db =
        followed_by (shared 0 Phase.screening db) (after_input_audit-Reaches clients v.0 _ _ _ refl)

    input_checked-Reaches :
        (clients : List Client) (a : SafetyAnswer) (db : Db)
        → Reaches db (Route.input_checked w settings q clients a db).1
    unfolding Route.input_checked
    input_checked-Reaches clients (SafetyAnswer.decided d) db = audit_input-Reaches clients _ db
    input_checked-Reaches clients SafetyAnswer.unavailable db = audit_input-Reaches clients _ db
    input_checked-Reaches clients SafetyAnswer.cancelled db = Reaches.start
    input_checked-Reaches clients SafetyAnswer.failed db = Reaches.start

    screen-Reaches :
        (clients : List Client) (safety : Option SafetyCheck) (db : Db)
        → Reaches db (Route.screen w settings q clients safety db).1
    unfolding Route.screen
    screen-Reaches clients none db = reserve_and_serve-Reaches clients none db
    screen-Reaches clients (some check) db = input_checked-Reaches clients _ db

    route-Reaches :
        (clients : List Client) (db : Db) → Reaches db (Route.route w settings q clients db).1
    unfolding Route.route
    route-Reaches [] db = Reaches.start
    route-Reaches (client ∷ clients) db = screen-Reaches _ settings.content_safety db

    -- Whatever the providers, the content-safety service and the caller do, the handler changes the
    -- database only by transactions of the services, among those that other requests commit
    -- meanwhile. (These commit only transactions of the services too.)
    pub chat_completions-Reaches : (db : Db) → Reaches db (chat_completions w settings q db).1
    unfolding chat_completions
    chat_completions-Reaches db =
        if_elim (λ (r : Reply × Db). Reaches db r.1) (not (key_fits q.idempotency_key)) _ _
          (λ _. Reaches.start)
          λ _.
            if_elim (λ (r : Reply × Db). Reaches db r.1)
              (ltb settings.max_output_tokens (Route.limit w settings q)) _ _ (λ _. Reaches.start)
              (λ _. route-Reaches _ db)
