-- ===== src/Gateway/Answered.antt =====
-- How `chat_completions` of app/__init__.py ends once it holds a reservation.
use mathlib.Core.List.{Memᴰ}
use kunlun_model_gateway.Base.{
  ℕ, suc, ◌+◌, ◌≡◌, refl, subst, false, Option, some, List, [], ◌∷◌, inl, inr, arith, none, length,
  sym, true,
}
use kunlun_model_gateway.Base.Result.{Result, ok, err, Returns}
use kunlun_model_gateway.Models.{Db, LedgerKey}
use kunlun_model_gateway.Billing.Invariant.{IsSound}
use kunlun_model_gateway.Billing.Release.{has_attempt}
use kunlun_model_gateway.Ledger.{is_posted}
use kunlun_model_gateway.Billing.Reserve.{Reservation, reserve_model_request}
use kunlun_model_gateway.Billing.Reserve.Sound.{reserve_model_request-IsSound}
use kunlun_model_gateway.Billing.Reserve.Opened.{reserve_model_request-IsOpened}
use kunlun_model_gateway.Providers.{Client, ProviderError}
use kunlun_model_gateway.Gateway.{Phase, World, Reply, Serving, Round, link_audit}
use kunlun_model_gateway.Gateway.Stream.{attempt}
use kunlun_model_gateway.Gateway.Turn.{Next, Next-cases, round_of, turn}
use kunlun_model_gateway.Gateway.Rule.{Obeys, Stage, is_answer, IsCut}
use kunlun_model_gateway.Gateway.Rule.Body.{turn-Obeys}
use kunlun_model_gateway.Gateway.Ready.{
  IsReady, Spares, attempted-IsReady, audited-IsReady, linked-IsReady, not_err,
  record_attempt-Returns, release-Returns,
}
use kunlun_model_gateway.Gateway.Route
use kunlun_model_gateway.Gateway.Payload.{ChatCall, Settings}
use kunlun_model_gateway.Gateway.Route.{all_failed, try_clients}

-- The handler answers; or the wait for one of the clients, or for a check of an output, was
-- cancelled, and the CancelledError leaves it.
pub data IsHandled (c : Serving) (clients : List Client) (reply : Reply) : Type 0 where
  answered : is_answer reply ≡ true → IsHandled c clients reply
  cut :
      (client : Client)
      → Memᴰ client clients
      → IsCut c client
      → reply ≡ Reply.cancelled (some c.reservation.request_id)
      → IsHandled c clients reply

abbrev after : Stage → ℕ → ℕ
after Stage.fresh index = index
after Stage.noted index = index + 1
after Stage.checked index = index + 1
after (Stage.refusing e) index = index + 1

module _ (w : World) (c : Serving) (spared : Spares w c.reservation.request_id) where
  abbrev own : ℕ
  own = c.reservation.request_id

  module _ (all : List Client) where
    abbrev EndsWell : ℕ → Next → Type 0
    EndsWell index (Next.done reply db) = IsHandled c all reply
    EndsWell index (Next.continue e db) = IsReady own (index + 1) db

    answering :
        (client : Client)
        → Memᴰ client all
        → (t : Round)
        → Obeys w c client t (λ s db n. IsReady own (after s t.index) db → EndsWell t.index n)
    answering client member t = record {
      elsewhere = λ s p db n rest ready. rest (spared t.index _ p db ready);
      attempted = λ status code category db db' n e rest ready.
          rest ((attempted-IsReady own t.index _ db refl ready).returned db' e);
      refused = λ x db db' n fails e rest ready.
          rest ((attempted-IsReady own t.index _ db refl ready).returned db' e);
      audited = λ a db db' n e rest ready. rest ((audited-IsReady own _ a db ready).returned db' e);
      handed_over = λ s category reply db ofit sent ready. IsHandled.answered sent;
      cut = λ s category db cut ready. IsHandled.cut client member cut refl;
      settled =
          λ s response estimated charged reply db db' e ofit sent ready. IsHandled.answered sent;
      unrendered =
          λ s response charged category reply db db' e ofit sent ready. IsHandled.answered sent;
      released = λ e db db' free done ready. IsHandled.answered refl;
      dropped = λ sent db ready. IsHandled.answered refl;
      continued = λ e db free safe more ready. ready;
      unnoted = λ status code category db x e ready. absurd (
          not_err _ x
            (record_attempt-Returns own t.index (attempt w c t status code category) db refl refl
              ready)
            e);
      unreleased = λ e db x failed ready.
          absurd (not_err _ x (release-Returns own _ e.category _ db ready) failed);
    }

    all_failed-IsHandled :
        (db : Db) (m : Result Db) → Returns m → IsHandled c all (all_failed w c db m).0
    unfolding all_failed
    all_failed-IsHandled db (ok db') r = IsHandled.answered refl
    all_failed-IsHandled db (err x) r = absurd (not_err _ x r refl)

    -- From a request that is ready for the round `index`, the loop answers, or is cut off at one of
    -- its clients. (Other requests leave this one alone meanwhile.)
    pub try_clients-IsHandled :
        (index : ℕ) (last : Option ProviderError) (clients : List Client) (db : Db)
        → ((x : Client) → Memᴰ x clients → Memᴰ x all)
        → IsReady own index db
        → IsHandled c all (try_clients w c index last clients db).0
    unfolding try_clients
    try_clients-IsHandled index last [] db within ready =
        all_failed-IsHandled _ _
          (release-Returns own index _ _ _ (spared index index Phase.closing db ready))
    try_clients-IsHandled index last (client ∷ clients) db within ready =
        let member = within client (Memᴰ.head refl) in
        let first =
          turn-Obeys w c index client db (answering client member (round_of w c index client))
            ready in
        elim (Next-cases (turn w c index client db)) [
          | inl (reply, db', e) ↦ rw (try_clients, e) (rw e at first)
          | inr (x, db', e) ↦
              let ready' : IsReady own (suc index) db' =
                subst (λ k. IsReady own k db') (omega arith) (rw e at first) in
              rw (try_clients, e)
                (try_clients-IsHandled (suc index) (some x) clients db'
                  (λ y m. within y (Memᴰ.tail m)) ready')
        ]

-- A uuid that no row of the database has used.
pub record IsUnused (id : ℕ) (db : Db) : Type 0 where
  pub no_release : is_posted (LedgerKey.model_release id) db.ledger ≡ false
  pub no_attempt : (n : ℕ) → has_attempt id n db.attempts ≡ false

-- Once a reservation is granted in a sound database, the rest of the handler returns an answer,
-- whatever the providers and the content-safety service do; the one exception that it lets out is
-- the CancelledError of a wait, for a call of one of its clients or for the check of an output, that
-- was cancelled, and then it has the id of the request. (The uuid of the request is new, and other
-- requests leave this one alone. A stream counts as an answer however its body ends.)
pub after_reserve-answers :
    (w : World) (settings : Settings) (q : ChatCall) (clients : List Client) (audit : Option ℕ)
    (db : Db) (reservation : Reservation) (db' : Db)
    → IsSound db
    → IsUnused (w.new_uuid 0 Phase.reserving) db
    → Spares w (w.new_uuid 0 Phase.reserving)
    → reserve_model_request (Route.reserve_call w settings q) db ≡ ok (reservation, db')
    → IsHandled
        (Route.serving w settings q reservation (length clients))
        clients
        (Route.after_reserve w settings q clients audit db (ok (reservation, db'))).0
unfolding Route.after_reserve
after_reserve-answers w settings q clients audit db reservation db' sound unused spared granted =
    let call = Route.reserve_call w settings q in
    let (opened, attempts, same) =
      reserve_model_request-IsOpened call db reservation db' unused.no_release granted in
    let ready : IsReady call.request_id 0 db' = record {
      sound = reserve_model_request-IsSound call db reservation db' sound granted;
      opened = opened;
      fresh = λ n later. rw attempts (unused.no_attempt n);
    } in
    let linked =
      linked-IsReady call.request_id audit reservation.request_id _
        (spared 0 0 Phase.linking db' ready) in
    try_clients-IsHandled w (Route.serving w settings q reservation (length clients))
      (subst (Spares w) (sym same) spared) clients 0 none clients _ (λ x member. member)
      (subst
        (λ j. IsReady j 0 (link_audit audit reservation.request_id (w.others 0 Phase.linking db')))
        (sym same) linked)
