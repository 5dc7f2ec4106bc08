-- ===== src/Payments/Webhook/Once.antt =====
-- A payment event is processed once (app/services/payment_domain.py, `apply_webhook`).
use kunlun_model_gateway.Base.{
  ℕ, ◌≡◌, refl, ◌∙◌, Bool, Option, none, some, List, ◌∷◌, arith, true, false, eq_option, ◌&&◌, ◌==◌,
}
use kunlun_model_gateway.Base.Result.{
  Result, ok, guard, payment_domain, ◌>>◌, ◌>>=◌, Ensures, Ensures-ok, Ensures-err, Ensures-bind,
  Ensures-call, Ensures-guard, Ensures-require, Ensures-if,
}
use kunlun_model_gateway.Models.{
  Db, EventStatus, OrderStatus, PaymentOrder, PaymentRefund, PaymentWebhookEvent, Wallet,
}
use kunlun_model_gateway.Payments.Rows.{find_event, is_open_order, is_order}
use kunlun_model_gateway.Payments.Freeze.{apply_user_freeze, freeze_found}
use kunlun_model_gateway.Payments.Rows.{is_terminal_refund}
use kunlun_model_gateway.Payments.Refunds.{
  RefundCall, refund_whole, refund_short, complete_refund, apply_found, apply_refund,
}
use kunlun_model_gateway.Payments.Webhook.{
  WebhookCall, PaymentStatus, credit_order, paid_event, note_event, repeat_refund, new_refund_event,
  refund_event, dispatch, handle_event, seen_event, apply_webhook, event_row, nonce_of,
}

freeze-events : (u now : ℕ) (db : Db) → (apply_user_freeze u now db).1.events ≡ db.events
unfolding apply_user_freeze freeze_found
freeze-events u now db = found _
  where
    found : (o : _) → (freeze_found u now o db).1.events ≡ db.events
    found none = refl
    found (some user) = refl

-- A refund stores no event and drops none.
abbrev KeepsEvents : Db → Result (PaymentRefund × Db) → Type 0
KeepsEvents db m = Ensures (λ (x : PaymentRefund × Db). x.1.events ≡ db.events) m

module _ (q : RefundCall) (o : PaymentOrder) (db : Db) where
  refund_whole-events :
      (r : PaymentRefund) (rs : List PaymentRefund) (w : Wallet)
      → KeepsEvents db (refund_whole q o r rs w db)
  unfolding refund_whole
  refund_whole-events r rs w = Ensures-bind _ _ λ ledger _. Ensures-ok _ refl

  refund_short-events :
      (r : PaymentRefund) (rs : List PaymentRefund) (w : Wallet)
      → KeepsEvents db (refund_short q o r rs w db)
  unfolding refund_short
  refund_short-events r rs w =
      Ensures-bind _ _ λ ledger _. Ensures-ok _ (freeze-events o.user_id q.now db)

  complete_refund-events :
      (existing : Option PaymentRefund) → KeepsEvents db (complete_refund q o existing db)
  unfolding complete_refund
  complete_refund-events existing = Ensures-guard _ _ _ λ _. Ensures-require _ _ _ λ amount _.
      Ensures-require _ _ _ λ currency _. Ensures-bind _ _ λ opened _.
        Ensures-require _ _ _ λ w here. Ensures-guard _ _ _ λ _.
          Ensures-if _ _ _ (λ _. refund_whole-events opened.0 opened.1 w)
            (λ _. refund_short-events opened.0 opened.1 w)

apply_found-events :
    (q : RefundCall) (o : PaymentOrder) (existing : Option PaymentRefund) (db : Db)
    → Ensures (λ (x : PaymentRefund × Db). x.1.events ≡ db.events) (apply_found q o existing db)
unfolding apply_found
apply_found-events q o none db = complete_refund-events q o db none
apply_found-events q o (some r) db =
    Ensures-if (is_terminal_refund r.status)
      (guard (eq_option r.provider_refund_id (some q.provider_refund_id)) (payment_domain 409)
        >> ok (r, db))
      _ (λ _. Ensures-guard _ _ _ λ _. Ensures-ok _ refl)
      (λ _. complete_refund-events q o db (some r))

apply_refund-events :
    (q : RefundCall) (db : Db)
    → Ensures (λ (x : PaymentRefund × Db). x.1.events ≡ db.events) (apply_refund q db)
unfolding apply_refund
apply_refund-events q db = Ensures-require _ _ _ λ o _. apply_found-events q o _ db

same_nat : (n : ℕ) → (n == n) ≡ true
same_nat n = ground arith

-- Either the event is stored, or it was a repetition and nothing has changed.
data IsDone (q : WebhookCall) (db : Db) (x : Bool × Db) : Type 0 where
  stored :
      (s : EventStatus)
      → find_event q.provider q.event_id x.1.events ≡ some (event_row q s)
      → IsDone q db x
  unchanged : x.0 ≡ true → x.1 ≡ db → IsDone q db x

abbrev Done : WebhookCall → Db → Result (Bool × Db) → Type 0
Done q db m = Ensures (IsDone q db) m

find_event-head :
    (q : WebhookCall) (s : EventStatus) (vs : List PaymentWebhookEvent)
    → find_event q.provider q.event_id (event_row q s ∷ vs) ≡ some (event_row q s)
unfolding find_event
find_event-head q s vs = ground arith

module _ (q : WebhookCall) (db : Db) where
  credit_order-Done : (o : PaymentOrder) → Done q db (credit_order q o db)
  unfolding credit_order
  credit_order-Done o = Ensures-guard _ _ _ λ _. Ensures-require _ _ _ λ w _.
      Ensures-bind _ _ λ ledger _.
        Ensures-ok _
          (IsDone.stored EventStatus.processed (find_event-head q EventStatus.processed db.events))

  paid_event-Done : (o : PaymentOrder) → Done q db (paid_event q o db)
  unfolding paid_event
  paid_event-Done o =
      Ensures-if (is_open_order o.status) (credit_order q o db)
        (guard
            (eq_option o.provider_transaction_id (some q.provider_transaction_id)
              && is_order o.status OrderStatus.paid)
            (payment_domain 409)
          >> ok (true, db))
        (λ _. credit_order-Done o)
        (λ _. Ensures-guard _ _ _ λ _. Ensures-ok _ (IsDone.unchanged refl refl))

  note_event-Done : (o : PaymentOrder) → Done q db (note_event q o db)
  unfolding note_event
  note_event-Done o = Ensures-guard _ _ _ λ _. Ensures-guard _ _ _ λ _.
      Ensures-ok _
        (IsDone.stored EventStatus.processed (find_event-head q EventStatus.processed db.events))

  repeat_refund-Done : (o : PaymentOrder) (id : ℕ) → Done q db (repeat_refund q o id db)
  unfolding repeat_refund
  repeat_refund-Done o id = Ensures-require _ _ _ λ r _. Ensures-guard _ _ _ λ _. Ensures-ok _ (
      IsDone.stored EventStatus.processed_duplicate
        (find_event-head q EventStatus.processed_duplicate db.events))

  new_refund_event-Done : (o : PaymentOrder) (id : ℕ) → Done q db (new_refund_event q o id db)
  unfolding new_refund_event
  new_refund_event-Done o id = Ensures-bind _ _ λ key _.
      Ensures-call _ _
        (apply_refund-events _
          (record db { events = event_row q EventStatus.processed ∷ db.events }))
        λ x kept. Ensures-ok _ (
          IsDone.stored EventStatus.processed
            (rw kept (find_event-head q EventStatus.processed db.events)))

  refund_event-Done : (o : PaymentOrder) (id : Option ℕ) → Done q db (refund_event q o id db)
  unfolding refund_event
  refund_event-Done o none = Ensures-err _
  refund_event-Done o (some id) =
      Ensures-if _ _ _ (λ _. repeat_refund-Done o id) (λ _. new_refund_event-Done o id)

  dispatch-Done : (o : PaymentOrder) (s : PaymentStatus) → Done q db (dispatch q o s db)
  unfolding dispatch
  dispatch-Done o PaymentStatus.refunded = refund_event-Done o q.provider_refund_id
  dispatch-Done o PaymentStatus.pending = note_event-Done o
  dispatch-Done o PaymentStatus.failed = note_event-Done o
  dispatch-Done o PaymentStatus.closed = note_event-Done o
  dispatch-Done o PaymentStatus.paid = paid_event-Done o
  dispatch-Done o (PaymentStatus.unknown s) = paid_event-Done o

  handle_event-Done : Done q db (handle_event q db)
  unfolding handle_event
  handle_event-Done = Ensures-guard _ _ _ λ _. Ensures-require _ _ _ λ o _. Ensures-guard _ _ _ λ _.
      Ensures-guard _ _ _ λ _.
        Ensures-guard _ _ _
          λ _. Ensures-guard _ _ _ λ _. Ensures-bind _ _ λ _ _. dispatch-Done o q.status

  seen_event-Done : (v : Option PaymentWebhookEvent) → Done q db (seen_event q v db)
  unfolding seen_event
  seen_event-Done none = handle_event-Done
  seen_event-Done (some v) = Ensures-guard _ _ _ λ _. Ensures-ok _ (IsDone.unchanged refl refl)

-- The guard of a call that returned is passed again.
guard-again {ℓ} :
    {A : Type ℓ} (b : Bool) (e : _) (m n : Result A) (a : A)
    → (guard b e >> m) ≡ ok a
    → (guard b e >> n) ≡ n
unfolding guard ◌>>=◌
guard-again true e m n a x = refl
guard-again false e m n a x = absurd (cc)

seen_event-stored :
    (q : WebhookCall) (s : EventStatus) (db : Db)
    → seen_event q (some (event_row q s)) db ≡ ok (true, db)
unfolding seen_event guard ◌>>=◌
seen_event-stored q s db = rw (same_nat q.raw_digest, same_nat (nonce_of q)) refl

same_again :
    (f : Db → Result (Bool × Db)) (d : Bool) (db db' : Db)
    → d ≡ true
    → db' ≡ db
    → f db ≡ ok (d, db')
    → f db' ≡ ok (true, db')
same_again f d db db' twice same e = cc

-- Delivering an accepted event once more is answered as a repetition and changes nothing.
pub apply_webhook-again :
    (q : WebhookCall) (db : Db) (duplicate : Bool) (db' : Db)
    → apply_webhook q db ≡ ok (duplicate, db')
    → apply_webhook q db' ≡ ok (true, db')
unfolding apply_webhook
apply_webhook-again q db duplicate db' e = again (
    (Ensures-guard {P = IsDone q db} _ _ _ λ _. seen_event-Done q db _).returned (duplicate, db') e)
  where
    again : IsDone q db (duplicate, db') → apply_webhook q db' ≡ ok (true, db')
    again (IsDone.stored s there) = guard-again _ _ _ _ _ e ∙ rw there (seen_event-stored q s db')
    again (IsDone.unchanged twice same) = same_again (apply_webhook q) duplicate db db' twice same e
