-- ===== src/Payments/Webhook/Credit.antt =====
-- A paid order is credited with its quote, and once (app/services/payment_domain.py,
-- `apply_webhook`).
use kunlun_model_gateway.Base.{
  ◌+◌, ◌≡◌, refl, Bool, Option, none, some, arith, true, false, eq_option, ◌&&◌,
}
use kunlun_model_gateway.Base.Result.{
  Result, ok, guard, payment_domain, ◌>>◌, Ensures, Ensures-ok, Ensures-bind, Ensures-guard,
  Ensures-require, Ensures-if,
}
use kunlun_model_gateway.Base.Table.{find, find-put_self}
use kunlun_model_gateway.Models.{Db, OrderStatus, PaymentOrder, PaymentWebhookEvent, Wallet}
use kunlun_model_gateway.Ledger.Wallets.{wallet_key}
use kunlun_model_gateway.Payments.Rows.{is_open_order, is_order, order_key}
use kunlun_model_gateway.Payments.Webhook.{
  WebhookCall, PaymentStatus, credit_order, paid_event, note_event, dispatch, handle_event,
  seen_event, apply_webhook, is_refunded_status, paid_order,
}

-- What the first acceptance of a payment has read and written.
pub record Credited (q : WebhookCall) (db db' : Db) : Type 0 where
  pub order : PaymentOrder
  pub wallet : Wallet
  pub order_found : find order_key q.order_id db.orders ≡ some order
  pub was_open : is_open_order order.status ≡ true
  pub same_amount : eq_option order.payment_amount_minor (some q.payment_amount_minor) ≡ true
  pub wallet_found : find wallet_key order.user_id db.wallets ≡ some wallet
  pub wallet_written :
      find wallet_key order.user_id db'.wallets
      ≡ some (record wallet {
        balance_microusd = wallet.balance_microusd + order.credit_amount_microusd;
      })
  pub order_written : find order_key q.order_id db'.orders ≡ some (paid_order q order)

-- Unless the call was a repetition.
abbrev Credits : WebhookCall → Db → Result (Bool × Db) → Type 0
Credits q db m = Ensures (λ (x : Bool × Db). x.0 ≡ false → Credited q db x.1) m

and_left : (a b : Bool) → a && b ≡ true → a ≡ true
and_left a b e = ground arith

module _ (q : WebhookCall) (db : Db) where
  module _ (o : PaymentOrder) (here : find order_key q.order_id db.orders ≡ some o)
      (amount : eq_option o.payment_amount_minor (some q.payment_amount_minor) ≡ true) where
    credit_order-Credits : is_open_order o.status ≡ true → Credits q db (credit_order q o db)
    unfolding credit_order
    credit_order-Credits opened = Ensures-guard _ _ _ λ _. Ensures-require _ _ _ λ w there.
        Ensures-bind _ _ λ ledger _. Ensures-ok _ (λ _. record {
          order = o;
          wallet = w;
          order_found = here;
          was_open = opened;
          same_amount = amount;
          wallet_found = there;
          wallet_written = find-put_self wallet_key _ w o.user_id db.wallets there refl;
          order_written = find-put_self order_key _ o q.order_id db.orders here refl;
        })

    paid_event-Credits : Credits q db (paid_event q o db)
    unfolding paid_event
    paid_event-Credits =
        Ensures-if (is_open_order o.status) (credit_order q o db)
          (guard
              (eq_option o.provider_transaction_id (some q.provider_transaction_id)
                && is_order o.status OrderStatus.paid)
              (payment_domain 409)
            >> ok (true, db))
          (λ opened. credit_order-Credits opened)
          (λ _. Ensures-guard _ _ _ λ _. Ensures-ok _ (λ e. absurd (cc)))

    dispatch-Credits :
        (s : PaymentStatus) → s ≡ PaymentStatus.paid → Credits q db (dispatch q o s db)
    unfolding dispatch
    dispatch-Credits PaymentStatus.paid e = paid_event-Credits
    dispatch-Credits PaymentStatus.refunded e = absurd (cc)
    dispatch-Credits PaymentStatus.pending e = absurd (cc)
    dispatch-Credits PaymentStatus.failed e = absurd (cc)
    dispatch-Credits PaymentStatus.closed e = absurd (cc)
    dispatch-Credits (PaymentStatus.unknown s) e = absurd (cc)

  handle_event-Credits : q.status ≡ PaymentStatus.paid → Credits q db (handle_event q db)
  unfolding handle_event
  handle_event-Credits paid = Ensures-guard _ _ _ λ _. Ensures-require _ _ _ λ o here.
      Ensures-guard _ _ _ λ _. Ensures-guard _ _ _ λ same. Ensures-guard _ _ _ λ _.
        Ensures-guard _ _ _
          λ _. Ensures-bind _ _ λ _ _. dispatch-Credits o here (and_left _ _ same) q.status paid

  seen_event-Credits :
      (v : Option PaymentWebhookEvent)
      → q.status ≡ PaymentStatus.paid
      → Credits q db (seen_event q v db)
  unfolding seen_event
  seen_event-Credits none paid = handle_event-Credits paid
  seen_event-Credits (some v) paid = Ensures-guard _ _ _ λ _. Ensures-ok _ (λ e. absurd (cc))

-- The first acceptance of a payment finds the order open and its amount as quoted, adds exactly the
-- order's credit to the balance of its owner, whose reserved amount stays, and marks the order paid
-- by the transaction.
pub apply_webhook-credit :
    (q : WebhookCall) (db db' : Db)
    → q.status ≡ PaymentStatus.paid
    → apply_webhook q db ≡ ok (false, db')
    → Credited q db db'
unfolding apply_webhook
apply_webhook-credit q db db' paid e =
    (Ensures-guard {P = λ (x : Bool × Db). x.0 ≡ false → Credited q db x.1} _ _ _
        λ _. seen_event-Credits q db _ paid).returned
      (false, db') e refl

-- A call that changes nothing.
abbrev Idle : Db → Result (Bool × Db) → Type 0
Idle db m = Ensures (λ (x : Bool × Db). (x.0 ≡ true) × (x.1 ≡ db)) m

module _ (q : WebhookCall) (db : Db) (o : PaymentOrder)
    (closed : is_open_order o.status ≡ false) where
  paid_event-Idle : Idle db (paid_event q o db)
  unfolding paid_event
  paid_event-Idle =
      Ensures-if (is_open_order o.status) (credit_order q o db)
        (guard
            (eq_option o.provider_transaction_id (some q.provider_transaction_id)
              && is_order o.status OrderStatus.paid)
            (payment_domain 409)
          >> ok (true, db))
        (λ opened. absurd (cc)) (λ _. Ensures-guard _ _ _ λ _. Ensures-ok _ (refl, refl))

  note_event-Idle : Idle db (note_event q o db)
  unfolding note_event
  note_event-Idle = Ensures-guard _ _ _ λ opened. absurd (cc)

  dispatch-Idle : (s : PaymentStatus) → is_refunded_status s ≡ false → Idle db (dispatch q o s db)
  unfolding dispatch
  dispatch-Idle PaymentStatus.refunded e = absurd (cc)
  dispatch-Idle PaymentStatus.pending e = note_event-Idle
  dispatch-Idle PaymentStatus.failed e = note_event-Idle
  dispatch-Idle PaymentStatus.closed e = note_event-Idle
  dispatch-Idle PaymentStatus.paid e = paid_event-Idle
  dispatch-Idle (PaymentStatus.unknown s) e = paid_event-Idle

module _ (q : WebhookCall) (db : Db) (o : PaymentOrder)
    (here : find order_key q.order_id db.orders ≡ some o) (closed : is_open_order o.status ≡ false)
    (no_refund : is_refunded_status q.status ≡ false) where
  handle_event-Idle : Idle db (handle_event q db)
  unfolding handle_event
  handle_event-Idle = Ensures-guard _ _ _ λ _. Ensures-require _ _ _ λ found same.
      Ensures-guard _ _ _ λ _. Ensures-guard _ _ _ λ _. Ensures-guard _ _ _ λ _.
        Ensures-guard _ _ _ λ _.
          Ensures-bind _ _
            λ _ _. dispatch-Idle q db found (same_order found same) q.status no_refund
    where
      same_order :
          (found : PaymentOrder)
          → find order_key q.order_id db.orders ≡ some found
          → is_open_order found.status ≡ false
      same_order found same = cc

  seen_event-Idle : (v : Option PaymentWebhookEvent) → Idle db (seen_event q v db)
  unfolding seen_event
  seen_event-Idle none = handle_event-Idle
  seen_event-Idle (some v) = Ensures-guard _ _ _ λ _. Ensures-ok _ (refl, refl)

  -- Once an order is closed, paid or refunded, an accepted event that is no refund is a
  -- repetition: it changes nothing.
  closed_order-Idle : Idle db (apply_webhook q db)
  unfolding apply_webhook
  closed_order-Idle = Ensures-guard _ _ _ λ _. seen_event-Idle _

-- A payment is credited once: after its first acceptance, every accepted event for the order, of
-- whatever id, type and body, is a repetition that changes nothing, unless it is a refund.
pub credit-once :
    (q again : WebhookCall) (db db' : Db) (duplicate : Bool) (db'' : Db)
    → q.status ≡ PaymentStatus.paid
    → apply_webhook q db ≡ ok (false, db')
    → again.order_id ≡ q.order_id
    → is_refunded_status again.status ≡ false
    → apply_webhook again db' ≡ ok (duplicate, db'')
    → (duplicate ≡ true) × (db'' ≡ db')
credit-once q again db db' duplicate db'' paid e same no_refund e' =
    let credited = apply_webhook-credit q db db' paid e in
    (closed_order-Idle again db' (paid_order q credited.order) (rw same credited.order_written) refl
        no_refund).returned
      (duplicate, db'') e'
