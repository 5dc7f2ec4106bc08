-- ===== src/Payments/Webhook/Quiet.antt =====
-- The payment events of app/services/payment_domain.py, `apply_webhook`, that move no money.
use kunlun_model_gateway.Base.{◌≡◌, refl, Bool, Option, none, some, true, false, ◌&&◌, eq_option}
use kunlun_model_gateway.Billing.Books.{SameBooks}
use kunlun_model_gateway.Payments.Webhook.{
  PaymentStatus, WebhookCall, apply_webhook, handle_event, is_refunded_status, seen_event,
  credit_order, dispatch, note_event, paid_event,
}
use kunlun_model_gateway.Models.{Db, PaymentOrder, PaymentWebhookEvent, OrderStatus}
use kunlun_model_gateway.Base.Result.{
  Ensures, Ensures-guard, Ensures-if, Ensures-ok, Ensures-require, Ensures-bind, guard,
  payment_domain, ◌>>◌, ok,
}
use kunlun_model_gateway.Payments.Rows.{is_open_order, is_order}

abbrev pub is_credit : PaymentStatus → Bool
is_credit PaymentStatus.paid = true
is_credit (PaymentStatus.unknown s) = true
is_credit PaymentStatus.pending = false
is_credit PaymentStatus.failed = false
is_credit PaymentStatus.closed = false
is_credit PaymentStatus.refunded = false

-- A repetition leaves the database as it is, and an event that is no payment leaves the books.
pub record IsQuiet (s : PaymentStatus) (db : Db) (x : Bool × Db) : Type 0 where
  pub repeated : x.0 ≡ true → x.1 ≡ db
  pub unpaid : is_credit s ≡ false → SameBooks db x.1

module _ (q : WebhookCall) (db : Db) where
  repetition : (s : PaymentStatus) → IsQuiet s db (true, db)
  repetition s = record {
    repeated = λ _. refl;
    unpaid = λ _. record { wallets = refl; ledger = refl; budgets = refl; requests = refl };
  }

  module _ (o : PaymentOrder) where
    note_event-IsQuiet : (s : PaymentStatus) → Ensures (IsQuiet s db) (note_event q o db)
    unfolding note_event
    note_event-IsQuiet s = Ensures-guard _ _ _ λ _. Ensures-guard _ _ _ λ _. Ensures-ok _ (record {
      repeated = λ e. absurd (cc);
      unpaid = λ _. record { wallets = refl; ledger = refl; budgets = refl; requests = refl };
    })

    credit_order-IsQuiet :
        (s : PaymentStatus) → is_credit s ≡ true → Ensures (IsQuiet s db) (credit_order q o db)
    unfolding credit_order
    credit_order-IsQuiet s credit = Ensures-guard _ _ _ λ _. Ensures-require _ _ _ λ w _.
        Ensures-bind _ _ λ ledger _.
          Ensures-ok _
            (record { repeated = λ e. absurd (cc); unpaid = λ e. absurd (cc (credit, e)) })

    paid_event-IsQuiet :
        (s : PaymentStatus) → is_credit s ≡ true → Ensures (IsQuiet s db) (paid_event q o db)
    unfolding paid_event
    paid_event-IsQuiet s credit =
        Ensures-if (is_open_order o.status) (credit_order q o db)
          (guard
              (eq_option o.provider_transaction_id (some q.provider_transaction_id)
                && is_order o.status OrderStatus.paid)
              (payment_domain 409)
            >> ok (true, db))
          (λ _. credit_order-IsQuiet s credit)
          (λ _. Ensures-guard _ _ _ λ _. Ensures-ok _ (repetition s))

    dispatch-IsQuiet :
        (s : PaymentStatus)
        → is_refunded_status s ≡ false
        → Ensures (IsQuiet s db) (dispatch q o s db)
    unfolding dispatch
    dispatch-IsQuiet PaymentStatus.refunded e = absurd (cc)
    dispatch-IsQuiet PaymentStatus.pending e = note_event-IsQuiet _
    dispatch-IsQuiet PaymentStatus.failed e = note_event-IsQuiet _
    dispatch-IsQuiet PaymentStatus.closed e = note_event-IsQuiet _
    dispatch-IsQuiet PaymentStatus.paid e = paid_event-IsQuiet _ refl
    dispatch-IsQuiet (PaymentStatus.unknown s) e = paid_event-IsQuiet _ refl

  handle_event-IsQuiet :
      is_refunded_status q.status ≡ false → Ensures (IsQuiet q.status db) (handle_event q db)
  unfolding handle_event
  handle_event-IsQuiet e = Ensures-guard _ _ _ λ _. Ensures-require _ _ _ λ o _.
      Ensures-guard _ _ _ λ _. Ensures-guard _ _ _ λ _.
        Ensures-guard _ _ _
          λ _. Ensures-guard _ _ _ λ _. Ensures-bind _ _ λ _ _. dispatch-IsQuiet o q.status e

  seen_event-IsQuiet :
      (v : Option PaymentWebhookEvent)
      → is_refunded_status q.status ≡ false
      → Ensures (IsQuiet q.status db) (seen_event q v db)
  unfolding seen_event
  seen_event-IsQuiet none e = handle_event-IsQuiet e
  seen_event-IsQuiet (some v) e = Ensures-guard _ _ _ λ _. Ensures-ok _ (repetition q.status)

-- What an event that is no refund leaves alone.
pub apply_webhook-IsQuiet :
    (q : WebhookCall) (db : Db)
    → is_refunded_status q.status ≡ false
    → Ensures (IsQuiet q.status db) (apply_webhook q db)
unfolding apply_webhook
apply_webhook-IsQuiet q db e = Ensures-guard _ _ _ λ _. seen_event-IsQuiet q db _ e
