-- ===== src/Payments/Webhook/Sound.antt =====
-- Payment events keep the database sound (app/services/payment_domain.py, `apply_webhook`).
use kunlun_model_gateway.Payments.Rows.{is_open_order, is_order}
use kunlun_model_gateway.Base.{
  ◌∷◌, ℕ, ◌+◌, ◌≡◌, refl, Bool, Option, none, some, arith, eq_option, ◌&&◌, true,
}
use kunlun_model_gateway.Base.Int.{pos, ◌+ℤ◌}
use kunlun_model_gateway.Base.Result.{
  Result, ok, Ensures, Ensures-ok, Ensures-err, Ensures-bind, Ensures-call, Ensures-guard,
  Ensures-require, Ensures-if, guard, payment_domain, ◌>>◌,
}
use kunlun_model_gateway.Models.{
  Account, Db, Kind, LedgerKey, PaymentOrder, PaymentWebhookEvent, EventStatus, OrderStatus,
}
use kunlun_model_gateway.Ledger.Sums.{amount_in}
use kunlun_model_gateway.Ledger.Post.{post_transaction-Posted}
use kunlun_model_gateway.Billing.Invariant.{IsSound}
use kunlun_model_gateway.Payments.Money.{move-IsSound, balance-Moves, credit_sum, same_money}
use kunlun_model_gateway.Payments.Refunds.Sound.{apply_refund-Ensures}
use kunlun_model_gateway.Payments.Webhook.{
  WebhookCall, PaymentStatus, credit_entries, credit_order, paid_event, note_event, repeat_refund,
  new_refund_event, refund_event, dispatch, handle_event, seen_event, apply_webhook, event_row,
}

credit_sums :
    (c : ℕ)
    → (amount_in Account.customer_available (credit_entries c) ≡ pos c)
      × (amount_in Account.customer_reserved (credit_entries c) ≡ pos 0)
unfolding amount_in ◌+ℤ◌
credit_sums c = (ground arith, ground arith)

-- The database that a handler of an event leaves is sound.
abbrev Keeps : Result (Bool × Db) → Type 0
Keeps m = Ensures (λ (x : Bool × Db). IsSound x.1) m

module _ (q : WebhookCall) (db : Db) (inv : IsSound db) where
  credit_order-IsSound : (o : PaymentOrder) → Keeps (credit_order q o db)
  unfolding credit_order
  credit_order-IsSound o =
      let c = o.credit_amount_microusd in
      Ensures-guard _ _ _ λ _. Ensures-require _ _ _ λ w here.
        Ensures-call _ _
          (post_transaction-Posted o.user_id Kind.payment_credit o.id
            (LedgerKey.payment_event q.provider q.event_id) (credit_entries c) db.ledger)
          λ ledger posted. Ensures-ok _ (
            same_money _ _ refl refl refl refl (
              move-IsSound db w (record w { balance_microusd = w.balance_microusd + c }) inv posted
                (balance-Moves _ w _ (pos c) (credit_sums c).0 (credit_sums c).1 (credit_sum c _))
                refl here))

  paid_event-IsSound : (o : PaymentOrder) → Keeps (paid_event q o db)
  unfolding paid_event
  paid_event-IsSound o =
      Ensures-if (is_open_order o.status) (credit_order q o db)
        (guard
            (eq_option o.provider_transaction_id (some q.provider_transaction_id)
              && is_order o.status OrderStatus.paid)
            (payment_domain 409)
          >> ok (true, db))
        (λ _. credit_order-IsSound o) (λ _. Ensures-guard _ _ _ λ _. Ensures-ok _ inv)

  note_event-IsSound : (o : PaymentOrder) → Keeps (note_event q o db)
  unfolding note_event
  note_event-IsSound o =
      Ensures-guard _ _ _
        λ _. Ensures-guard _ _ _ λ _. Ensures-ok _ (same_money db _ refl refl refl refl inv)

  repeat_refund-IsSound : (o : PaymentOrder) (id : ℕ) → Keeps (repeat_refund q o id db)
  unfolding repeat_refund
  repeat_refund-IsSound o id =
      Ensures-require _ _ _
        λ r _. Ensures-guard _ _ _ λ _. Ensures-ok _ (same_money db _ refl refl refl refl inv)

  new_refund_event-IsSound : (o : PaymentOrder) (id : ℕ) → Keeps (new_refund_event q o id db)
  unfolding new_refund_event
  new_refund_event-IsSound o id = Ensures-bind _ _ λ key _.
      Ensures-call _ _
        (apply_refund-Ensures _
          (record db { events = event_row q EventStatus.processed ∷ db.events })
          (same_money db _ refl refl refl refl inv))
        λ x kept. Ensures-ok _ kept

  refund_event-IsSound : (o : PaymentOrder) (id : Option ℕ) → Keeps (refund_event q o id db)
  unfolding refund_event
  refund_event-IsSound o none = Ensures-err _
  refund_event-IsSound o (some id) =
      Ensures-if _ _ _ (λ _. repeat_refund-IsSound o id) (λ _. new_refund_event-IsSound o id)

  dispatch-IsSound : (o : PaymentOrder) (s : PaymentStatus) → Keeps (dispatch q o s db)
  unfolding dispatch
  dispatch-IsSound o PaymentStatus.refunded = refund_event-IsSound o q.provider_refund_id
  dispatch-IsSound o PaymentStatus.pending = note_event-IsSound o
  dispatch-IsSound o PaymentStatus.failed = note_event-IsSound o
  dispatch-IsSound o PaymentStatus.closed = note_event-IsSound o
  dispatch-IsSound o PaymentStatus.paid = paid_event-IsSound o
  dispatch-IsSound o (PaymentStatus.unknown s) = paid_event-IsSound o

  handle_event-IsSound : Keeps (handle_event q db)
  unfolding handle_event
  handle_event-IsSound = Ensures-guard _ _ _ λ _. Ensures-require _ _ _ λ o _.
      Ensures-guard _ _ _ λ _. Ensures-guard _ _ _ λ _.
        Ensures-guard _ _ _
          λ _. Ensures-guard _ _ _ λ _. Ensures-bind _ _ λ _ _. dispatch-IsSound o q.status

  seen_event-IsSound : (v : Option PaymentWebhookEvent) → Keeps (seen_event q v db)
  unfolding seen_event
  seen_event-IsSound none = handle_event-IsSound
  seen_event-IsSound (some v) = Ensures-guard _ _ _ λ _. Ensures-ok _ inv

-- A payment event of any kind that is accepted, a payment, a refund or a repetition, keeps the
-- database sound.
pub apply_webhook-IsSound :
    (q : WebhookCall) (db : Db) (duplicate : Bool) (db' : Db)
    → IsSound db
    → apply_webhook q db ≡ ok (duplicate, db')
    → IsSound db'
unfolding apply_webhook
apply_webhook-IsSound q db duplicate db' inv e =
    (Ensures-guard {P = λ (x : Bool × Db). IsSound x.1} _ _ _
        λ _. seen_event-IsSound q db inv _).returned
      (duplicate, db') e
