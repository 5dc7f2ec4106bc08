-- ===== src/Gateway/Rule/Stream.antt =====
-- The rule for `forward_stream` in `chat_completions` of app/__init__.py.
use kunlun_model_gateway.Base.{
  ℕ, ◌≡◌, refl, Bool, Option, none, some, List, [], ◌∷◌, ◌++◌, inl, inr, if_elim, true,
}
use kunlun_model_gateway.Base.Result.{Result, ok, err, Result-cases}
use kunlun_model_gateway.Json.{Fields}
use kunlun_model_gateway.Models.{Db}
use kunlun_model_gateway.Billing.Settle.{settle_model_request}
use kunlun_model_gateway.Providers.{StreamEnd, Client}
use kunlun_model_gateway.Streaming.{SseUsageTracker, feed}
use kunlun_model_gateway.Gateway.{Phase, World, Reply, Serving, Round, billing_status}
use kunlun_model_gateway.Gateway.Stream.{
  after_settle, not_settled, close_of, forward, settle_call, settle_stream, stream_ended,
  stream_finished,
}
use kunlun_model_gateway.Gateway.Turn.{Next}
use kunlun_model_gateway.Gateway.Rule.{IsOfRequest, Obeys, Stage, is_answer}

module _ (w : World) (c : Serving) where
  module _ (client : Client) (t : Round) {R : Stage → Db → Next → Type 0}
      (rule : Obeys w c client t R) where
    abbrev Streams : Db → Reply × Db → Type 0
    Streams db (reply, db') = R Stage.noted db (Next.done reply db')

    not_settled-Obeys :
        (status : Option ℕ) (reply : Reply) (db : Db)
        → IsOfRequest w c reply
        → is_answer reply ≡ true
        → R Stage.noted db (Next.done reply (not_settled w c t status db))
    unfolding not_settled
    not_settled-Obeys (some status) reply db own sent =
        rule.handed_over Stage.noted _ reply db own sent
    not_settled-Obeys none reply db own sent = rule.handed_over Stage.noted _ reply db own sent

    after_settle-Obeys :
        (response : Fields) (estimated : Bool) (reply : Reply) (db : Db)
        (m : Result ((ℕ × Bool) × Db))
        → settle_model_request (settle_call w c t response estimated) db ≡ m
        → IsOfRequest w c reply
        → is_answer reply ≡ true
        → R Stage.noted db (Next.done reply (after_settle w c t db m))
    unfolding after_settle
    after_settle-Obeys response estimated reply db (ok (charged, db')) e own sent =
        rule.settled Stage.noted response estimated charged reply db db' e own sent
    after_settle-Obeys response estimated reply db (err x) e own sent =
        not_settled-Obeys (billing_status x) reply db own sent

    stream_finished-Obeys :
        (m : Result SseUsageTracker) (reply : Reply) (db : Db)
        → IsOfRequest w c reply
        → is_answer reply ≡ true
        → R Stage.noted db (Next.done reply (stream_finished w c t m db))
    unfolding stream_finished settle_stream
    stream_finished-Obeys (err e) reply db own sent =
        rule.handed_over Stage.noted _ reply db own sent
    stream_finished-Obeys (ok tracker) reply db own sent =
        if_elim (λ (db' : Db). R Stage.noted db (Next.done reply db')) tracker.counters.done _ _
          (λ _.
            rule.elsewhere Stage.noted Phase.settling db _
              (after_settle-Obeys _ _ reply _ _ refl own sent))
          (λ _. rule.handed_over Stage.noted _ reply db own sent)

    stream_ended-Obeys :
        (sent : List (List ℕ)) (ended : StreamEnd) (tracker : SseUsageTracker) (db : Db)
        → R Stage.noted db (
            Next.done
              (Reply.streamed c.reservation.request_id t.name sent (close_of w c t ended))
              (stream_ended w c t ended tracker db))
    unfolding stream_ended
    stream_ended-Obeys sent StreamEnd.exhausted tracker db = stream_finished-Obeys _ _ db refl refl
    stream_ended-Obeys sent StreamEnd.cancelled tracker db =
        rule.handed_over Stage.noted _ _ db refl refl
    stream_ended-Obeys sent StreamEnd.failed tracker db =
        rule.handed_over Stage.noted _ _ db refl refl
    stream_ended-Obeys sent StreamEnd.dropped tracker db = rule.dropped sent db
    stream_ended-Obeys sent (StreamEnd.refused e) tracker db =
        rule.handed_over Stage.noted _ _ db refl refl

    pub forward-Obeys :
        (sent chunks : List (List ℕ)) (ended : StreamEnd) (tracker : SseUsageTracker) (db : Db)
        → Streams db (forward w c t sent chunks ended tracker db)
    unfolding forward
    forward-Obeys sent [] ended tracker db = stream_ended-Obeys sent ended tracker db
    forward-Obeys sent (chunk ∷ chunks) ended tracker db =
        elim (Result-cases (feed w.loads chunk tracker)) [
          | inl (x, e) ↦ rw (forward, e) (rule.handed_over Stage.noted _ _ db refl refl)
          | inr (fed, e) ↦
              rw (forward, e) (forward-Obeys (sent ++ (chunk ∷ [])) chunks ended fed db)
        ]
