-- ===== src/Gateway/Rule/Body.antt =====
-- The rule for a round of the loop in `chat_completions` of app/__init__.py.
use kunlun_model_gateway.Base.{
  ℕ, ◌+◌, ◌≡◌, refl, Bool, true, false, ◌&&◌, Option, none, some, List, [], ltb, if_elim,
}
use mathlib.Core.Bool.{and-eq-true_iff}
use kunlun_model_gateway.Base.Result.{Result, ok, err}
use kunlun_model_gateway.Json.{Fields, Json}
use kunlun_model_gateway.Models.{AttemptStatus, Db, SafetyAudit, SafetyOutcome, SafetyPhase}
use kunlun_model_gateway.Billing.Settle.{settle_model_request}
use kunlun_model_gateway.Billing.Release.{record_attempt, release_call, release_model_request}
use kunlun_model_gateway.ContentSafety.{SafetyAnswer}
use kunlun_model_gateway.Providers.{Answer, Client, Opening, ProviderError, StreamEnd}
use kunlun_model_gateway.Gateway.{
  Phase, World, Serving, Round, SafetyCheck, add_audit, billing_status,
}
use kunlun_model_gateway.Gateway.Stream.{attempt, settle_call}
use kunlun_model_gateway.Gateway.Turn
use kunlun_model_gateway.Gateway.Turn.{Next, Verdict}
use kunlun_model_gateway.Gateway.Rule.{Obeys, Stage, Fails, IsCut, Refuses}
use kunlun_model_gateway.Gateway.Rule.Stream.{forward-Obeys}

module _ (w : World) (c : Serving) where
  module _ (client : Client) (t : Round) {R : Stage → Db → Next → Type 0}
      (rule : Obeys w c client t R) where
    unexpected-Obeys : (s : Stage) (db : Db) → R s db (Turn.unexpected w c t db)
    unfolding Turn.unexpected
    unexpected-Obeys s db = rule.handed_over s _ _ db refl refl

    disconnected-Obeys :
        (s : Stage) (db : Db) → IsCut c client → R s db (Turn.disconnected w c t db)
    unfolding Turn.disconnected
    disconnected-Obeys s db cut = rule.cut s _ db cut

    released-Obeys :
        (e : ProviderError) (db : Db) (m : Result Db)
        → e.request_may_be_billable ≡ false
        → release_model_request
            (release_call c.reservation.request_id e.category (w.clock t.index Phase.closing))
            db
          ≡ m
        → R (Stage.refusing e) db (Turn.released w c t e db m)
    unfolding Turn.released
    released-Obeys e db (ok db') free done = rule.released e db db' free done
    released-Obeys e db (err x) free failed = rule.unreleased e db x failed

    refusal_noted-Obeys :
        (e : ProviderError) (db : Db) → R (Stage.refusing e) db (Turn.refusal_noted w c t e db)
    unfolding Turn.refusal_noted Turn.give_up
    refusal_noted-Obeys e db =
        if_elim (R (Stage.refusing e) db) e.request_may_be_billable _ _
          (λ _. rule.handed_over (Stage.refusing e) _ _ db refl refl)
          λ free.
            if_elim (R (Stage.refusing e) db) (e.safe_to_failover && ltb (t.index + 1) c.total) _ _
              (λ both.
                let (safe, more) = (and-eq-true_iff _ _).0 both in
                rule.continued e db free safe more)
              (λ _.
                rule.elsewhere (Stage.refusing e) Phase.closing db _
                  (released-Obeys e _ _ free refl))

    after_refusal-Obeys :
        (e : ProviderError) (db : Db) (m : Result Db)
        → Fails c client e
        → record_attempt (attempt w c t AttemptStatus.failed e.status_code (some e.category)) db ≡ m
        → R Stage.fresh db (Turn.after_refusal w c t e db m)
    unfolding Turn.after_refusal
    after_refusal-Obeys e db (ok db') fails done =
        rule.refused e db db' _ fails done (refusal_noted-Obeys e db')
    after_refusal-Obeys e db (err x) fails failed = rule.unnoted _ _ _ db x failed

    refused-Obeys :
        (e : ProviderError) (db : Db)
        → Fails c client e
        → R Stage.fresh db (Turn.refused w c t e db)
    unfolding Turn.refused
    refused-Obeys e db fails =
        rule.elsewhere Stage.fresh Phase.handling db _ (after_refusal-Obeys e _ _ fails refl)

    not_settled_result-Obeys :
        (s : Stage) (status : Option ℕ) (db : Db) → R s db (Turn.not_settled w c t status db)
    unfolding Turn.not_settled
    not_settled_result-Obeys s (some status) db = rule.handed_over s _ _ db refl refl
    not_settled_result-Obeys s none db = unexpected-Obeys s db

    module _ (s : Stage) (response : Fields) (charged : ℕ × Bool) (db db' : Db)
        (paid : settle_model_request (settle_call w c t response false) db
          ≡ ok (charged, db')) where
      rendered-Obeys : (fields : Fields) → R s db (Turn.rendered w c t fields db')
      unfolding Turn.rendered Turn.unexpected
      rendered-Obeys fields =
          if_elim (R s db) c.stream _ _
            (λ _. rule.settled s response false charged _ db db' paid refl refl)
            λ _.
              if_elim (R s db) (w.renders fields) _ _
                (λ _. rule.settled s response false charged _ db db' paid refl refl)
                (λ _. rule.unrendered s response charged _ _ db db' paid refl refl)

      delivered-Obeys :
          (outcome : Option SafetyOutcome) (result : Fields)
          → R s db (Turn.delivered w c t outcome result db')
      unfolding Turn.delivered
      delivered-Obeys none result = rendered-Obeys _
      delivered-Obeys (some SafetyOutcome.allowed) result = rendered-Obeys _
      delivered-Obeys (some SafetyOutcome.blocked) result =
          rule.settled s response false charged _ db db' paid refl refl
      delivered-Obeys (some SafetyOutcome.unavailable) result =
          rule.settled s response false charged _ db db' paid refl refl

    after_result-Obeys :
        (s : Stage) (outcome : Option SafetyOutcome) (result : Fields) (db : Db)
        (m : Result ((ℕ × Bool) × Db))
        → settle_model_request (settle_call w c t result false) db ≡ m
        → R s db (Turn.after_result w c t outcome result db m)
    unfolding Turn.after_result
    after_result-Obeys s outcome result db (ok (charged, db')) e =
        delivered-Obeys s result charged db db' e outcome result
    after_result-Obeys s outcome result db (err x) e =
        not_settled_result-Obeys s (billing_status x) db

    settle_result-Obeys :
        (s : Stage) (outcome : Option SafetyOutcome) (result : Fields) (db : Db)
        → R s db (Turn.settle_result w c t outcome result db)
    unfolding Turn.settle_result
    settle_result-Obeys s outcome result db =
        rule.elsewhere s Phase.settling db _ (after_result-Obeys s outcome result _ _ refl)

    after_audit-Obeys :
        (outcome : SafetyOutcome) (result : Fields) (a : SafetyAudit) (db : Db) (m : Result Db)
        → add_audit a db ≡ m
        → R Stage.noted db (Turn.after_audit w c t outcome result db m)
    unfolding Turn.after_audit
    after_audit-Obeys outcome result a db (ok db') done =
        rule.audited a db db' _ done (settle_result-Obeys Stage.checked _ result db')
    after_audit-Obeys outcome result a db (err x) failed = unexpected-Obeys Stage.noted db

    audit_output-Obeys :
        (v : Verdict) (result : Fields) (db : Db)
        → R Stage.noted db (Turn.audit_output w c t v result db)
    unfolding Turn.audit_output
    audit_output-Obeys v result db =
        rule.elsewhere Stage.noted Phase.auditing db _ (after_audit-Obeys v.0 result _ _ _ refl)

    checked-Obeys :
        (safety : SafetyCheck) (output : Json)
        → c.safety ≡ some safety
        → (a : SafetyAnswer) → safety SafetyPhase.output c.model output ≡ a
        → (result : Fields) (db : Db) → R Stage.noted db (Turn.checked w c t a result db)
    unfolding Turn.checked
    checked-Obeys safety output own (SafetyAnswer.decided d) e result db =
        audit_output-Obeys _ result db
    checked-Obeys safety output own SafetyAnswer.unavailable e result db =
        audit_output-Obeys _ result db
    checked-Obeys safety output own SafetyAnswer.cancelled e result db =
        disconnected-Obeys Stage.noted db (IsCut.check safety output own e)
    checked-Obeys safety output own SafetyAnswer.failed e result db =
        unexpected-Obeys Stage.noted db

    check_output-Obeys :
        (safety : Option SafetyCheck)
        → c.safety ≡ safety
        → (result : Fields) (db : Db) → R Stage.noted db (Turn.check_output w c t safety result db)
    unfolding Turn.check_output
    check_output-Obeys none own result db = settle_result-Obeys Stage.noted none result db
    check_output-Obeys (some check) own result db = checked-Obeys check _ own _ refl result db

    after_success-Obeys :
        (result : Fields) (db : Db) (m : Result Db)
        → record_attempt (attempt w c t AttemptStatus.succeeded 200 none) db ≡ m
        → R Stage.fresh db (Turn.after_success w c t result db m)
    unfolding Turn.after_success
    after_success-Obeys result db (ok db') done =
        rule.attempted _ _ _ db db' _ done (check_output-Obeys c.safety refl result db')
    after_success-Obeys result db (err x) failed = unexpected-Obeys Stage.fresh db

    answered-Obeys :
        (a : Answer)
        → client.call c.payload ≡ a
        → (db : Db) → R Stage.fresh db (Turn.answered w c t a db)
    unfolding Turn.answered Turn.succeeded
    answered-Obeys (Answer.result fields) e db =
        rule.elsewhere Stage.fresh Phase.answering db _ (after_success-Obeys fields _ _ refl)
    answered-Obeys Answer.not_a_dict e db = refused-Obeys _ db (Fails.not_a_dict e refl)
    answered-Obeys (Answer.refused x) e db = refused-Obeys x db (Fails.refuses (Refuses.call e))
    answered-Obeys Answer.cancelled e db = disconnected-Obeys Stage.fresh db (IsCut.call e)
    answered-Obeys Answer.failed e db = unexpected-Obeys Stage.fresh db

    after_opening-Obeys :
        (chunks : List (List ℕ)) (ended : StreamEnd) (db : Db) (m : Result Db)
        → record_attempt (attempt w c t AttemptStatus.stream_opened 200 none) db ≡ m
        → R Stage.fresh db (Turn.after_opening w c t chunks ended db m)
    unfolding Turn.after_opening
    after_opening-Obeys chunks ended db (ok db') done =
        rule.attempted _ _ _ db db' _ done (forward-Obeys w c client t rule [] chunks ended _ db')
    after_opening-Obeys chunks ended db (err x) failed = unexpected-Obeys Stage.fresh db

    opened-Obeys :
        (open_stream : Fields → Opening)
        → client.open_stream ≡ some open_stream
        → (o : Opening) → open_stream c.payload ≡ o
        → (db : Db) → R Stage.fresh db (Turn.opened w c t o db)
    unfolding Turn.opened
    opened-Obeys open_stream own (Opening.opened chunks ended) e db =
        rule.elsewhere Stage.fresh Phase.opening db _ (after_opening-Obeys chunks ended _ _ refl)
    opened-Obeys open_stream own (Opening.refused x) e db =
        refused-Obeys x db (Fails.refuses (Refuses.opening open_stream own e))
    opened-Obeys open_stream own Opening.cancelled e db =
        disconnected-Obeys Stage.fresh db (IsCut.opening open_stream own e)
    opened-Obeys open_stream own Opening.failed e db = unexpected-Obeys Stage.fresh db

    ask-Obeys :
        (direct : Bool) (open_stream : Option (Fields → Opening))
        → client.open_stream ≡ open_stream
        → (db : Db) → R Stage.fresh db (Turn.ask w c t direct open_stream client.call db)
    unfolding Turn.ask
    ask-Obeys true (some open_stream) own db = opened-Obeys open_stream own _ refl db
    ask-Obeys true none own db = answered-Obeys _ refl db
    ask-Obeys false open_stream own db = answered-Obeys _ refl db

  pub turn-Obeys :
      {R : Stage → Db → Next → Type 0} (index : ℕ) (client : Client) (db : Db)
      → Obeys w c client (Turn.round_of w c index client) R
      → R Stage.fresh db (Turn.turn w c index client db)
  unfolding Turn.turn
  turn-Obeys index client db rule = ask-Obeys client _ rule c.direct client.open_stream refl db
