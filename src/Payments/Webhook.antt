-- ===== src/Payments/Webhook.antt =====
-- `PaymentDomainService.apply_webhook` of app/services/payment_domain.py.
mod Event
unfoldable pub use Event.*
pub mod Sound
pub mod Once
pub mod Quiet
pub mod Credit
use kunlun_model_gateway.Base.{
  ℕ, ◌+◌, Bool, true, false, not, ◌&&◌, ◌||◌, Option, none, some, List, [], ◌∷◌, ◌==◌, eq_option,
  is_some, if◌then◌else◌,
}
use kunlun_model_gateway.Base.Int.{pos, neg}
use kunlun_model_gateway.Base.Result.{
  Result, ok, err, guard, require, ◌>>=◌, ◌>>◌, payment_domain, integrity,
}
use kunlun_model_gateway.Base.Table.{find, put}
use kunlun_model_gateway.Models.{
  Account, Db, EventStatus, Kind, LedgerKey, OrderStatus, OutboxEvent, PaymentOrder, PaymentRefund,
  PaymentWebhookEvent, RefundKey, RiskReason, Topic, Wallet, same_text,
}
use kunlun_model_gateway.Ledger.{Entry, post_transaction}
use kunlun_model_gateway.Ledger.Wallets.{wallet_key}
use kunlun_model_gateway.Payments.Rows.{
  order_key, is_order, is_open_order, truthy, find_provider_refund, active_refunds,
  transaction_taken, find_event, nonce_used,
}
use kunlun_model_gateway.Payments.Orders.{same_currency}
use kunlun_model_gateway.Payments.Refunds.{apply_refund}

-- A refund event for an order that is refunded already.
unfoldable pub repeat_refund : WebhookCall → PaymentOrder → ℕ → Db → Result (Bool × Db)
repeat_refund q o refund_id db = do
  r ← require (find_provider_refund refund_id db.refunds) (payment_domain 409)
  guard (r.order_id == o.id) (payment_domain 409)
  ok (true, record db { events = event_row q EventStatus.processed_duplicate ∷ db.events })

-- `len(active_refunds) == 1`.
abbrev only_one : List PaymentRefund → Option PaymentRefund
only_one [] = none
only_one (r ∷ []) = some r
only_one (r ∷ (s ∷ rs)) = none

-- The key of the refund that the event completes.
unfoldable pub refund_key_of : WebhookCall → PaymentOrder → ℕ → Db → Result RefundKey
refund_key_of q o refund_id db =
    if is_order o.status OrderStatus.refunding
    then (do
      r ← require (only_one (active_refunds o.id db.refunds)) (payment_domain 409)
      guard (not (is_some r.provider_refund_id) || eq_option r.provider_refund_id (some refund_id))
          (payment_domain 409)
      ok r.idempotency_key)
    else (guard (is_order o.status OrderStatus.paid) (payment_domain 409)
        >> ok (RefundKey.webhook q.provider q.event_id))

unfoldable pub new_refund_event : WebhookCall → PaymentOrder → ℕ → Db → Result (Bool × Db)
new_refund_event q o refund_id db = do
  key ← refund_key_of q o refund_id db
  (r, db') ←
      apply_refund
        (record {
          order_id = o.id;
          idempotency_key = key;
          provider_refund_id = refund_id;
          id = q.refund_row;
          now = q.now;
        })
        (record db { events = event_row q EventStatus.processed ∷ db.events })
  ok (false, db')

unfoldable pub refund_event : WebhookCall → PaymentOrder → Option ℕ → Db → Result (Bool × Db)
refund_event q o none db = err (payment_domain 422)
refund_event q o (some refund_id) db =
    if is_order o.status OrderStatus.refunded
    then repeat_refund q o refund_id db
    else new_refund_event q o refund_id db

-- `order.provider_transaction_id or provider_transaction_id`.
abbrev or_transaction : Option ℕ → ℕ → ℕ
or_transaction none new = new
or_transaction (some old) new = if old == 0 then new else old

-- The order after an event that moves no money.
abbrev pub noted_order : WebhookCall → PaymentOrder → PaymentOrder
noted_order q o = record o {
  provider_transaction_id =
      some (or_transaction o.provider_transaction_id q.provider_transaction_id);
  reconciliation_claim_started_at = none;
}

abbrev ended_order : WebhookCall → PaymentOrder → OrderStatus → PaymentOrder
ended_order q o status = record (noted_order q o) {
  status = status;
  checkout_claim_started_at = none;
}

unfoldable pub update_order : WebhookCall → PaymentOrder → PaymentOrder
update_order q o = elim q.status [
  | PaymentStatus.failed ↦ ended_order q o OrderStatus.failed
  | PaymentStatus.closed ↦ ended_order q o OrderStatus.closed
  | _ ↦
      if is_order o.status OrderStatus.checkout_requesting
      then record (noted_order q o) {
        status = OrderStatus.pending_reconciliation;
        risk_reason = some RiskReason.checkout_callback_before_response;
        checkout_claim_started_at = none;
      }
      else noted_order q o
]

unfoldable pub note_event : WebhookCall → PaymentOrder → Db → Result (Bool × Db)
note_event q o db = do
  guard (is_open_order o.status) (payment_domain 409)
  guard
      (not (
        transaction_taken o.id (or_transaction o.provider_transaction_id q.provider_transaction_id)
          db.orders))
      (payment_domain 409)
  ok (
    false,
    record db {
      events = event_row q EventStatus.processed ∷ db.events;
      orders = put order_key (update_order q o) db.orders;
    },
  )

abbrev pub credit_entries : ℕ → List Entry
credit_entries credit =
    (Account.customer_available, pos credit) ∷ (Account.platform_clearing, neg credit) ∷ []

abbrev pub paid_order : WebhookCall → PaymentOrder → PaymentOrder
paid_order q o = record o {
  status = OrderStatus.paid;
  provider_transaction_id = some q.provider_transaction_id;
  paid_at = some q.now;
  checkout_claim_started_at = none;
  reconciliation_claim_started_at = none;
  risk_reason = none;
}

-- The order is paid: its credit goes to the wallet. The unique constraint on the transaction id
-- fails in the UPDATE itself, outside the `try` around the commit.
unfoldable pub credit_order : WebhookCall → PaymentOrder → Db → Result (Bool × Db)
credit_order q o db = do
  guard (not (transaction_taken o.id q.provider_transaction_id db.orders)) integrity
  w ← require (find wallet_key o.user_id db.wallets) (payment_domain 500)
  ledger ←
      post_transaction o.user_id Kind.payment_credit o.id
        (LedgerKey.payment_event q.provider q.event_id) (credit_entries o.credit_amount_microusd)
        db.ledger
  ok (
    false,
    record db {
      events = event_row q EventStatus.processed ∷ db.events;
      orders = put order_key (paid_order q o) db.orders;
      wallets =
          put wallet_key
            (record w { balance_microusd = w.balance_microusd + o.credit_amount_microusd })
            db.wallets;
      ledger = ledger;
      outbox = (record { topic = Topic.wallet_credited; reference = o.id }) ∷ db.outbox;
    },
  )

-- Paid before by the same transaction: the event is a repetition, and is not stored.
unfoldable pub paid_event : WebhookCall → PaymentOrder → Db → Result (Bool × Db)
paid_event q o db =
    if is_open_order o.status
    then credit_order q o db
    else (guard
          (eq_option o.provider_transaction_id (some q.provider_transaction_id)
            && is_order o.status OrderStatus.paid)
          (payment_domain 409)
        >> ok (true, db))

unfoldable pub dispatch : WebhookCall → PaymentOrder → PaymentStatus → Db → Result (Bool × Db)
dispatch q o PaymentStatus.refunded db = refund_event q o q.provider_refund_id db
dispatch q o PaymentStatus.pending db = note_event q o db
dispatch q o PaymentStatus.failed db = note_event q o db
dispatch q o PaymentStatus.closed db = note_event q o db
dispatch q o PaymentStatus.paid db = paid_event q o db
dispatch q o (PaymentStatus.unknown s) db = paid_event q o db

unfoldable pub handle_event : WebhookCall → Db → Result (Bool × Db)
handle_event q db = do
  guard (not (nonce_used q.provider (nonce_of q) db.events)) (payment_domain 409)
  o ← require (find order_key q.order_id db.orders) (payment_domain 404)
  guard (o.provider == q.provider) (payment_domain 404)
  guard
      (eq_option o.payment_amount_minor (some q.payment_amount_minor)
        && same_currency o.payment_currency q.payment_currency)
      (payment_domain 409)
  guard
      (not (is_some o.provider_transaction_id)
        || eq_option o.provider_transaction_id (some q.provider_transaction_id))
      (payment_domain 409)
  guard (is_valid_event q.event_type q.status) (payment_domain 409)
  refund_id_fits q
  dispatch q o q.status db

-- An event that is stored already: the same body is a repetition, another is refused.
unfoldable pub seen_event : WebhookCall → Option PaymentWebhookEvent → Db → Result (Bool × Db)
seen_event q none db = handle_event q db
seen_event q (some v) db = do
  guard ((v.raw_digest == q.raw_digest) && (v.nonce == nonce_of q)) (payment_domain 409)
  ok (true, db)

-- Whether the event was a repetition.
unfoldable pub apply_webhook : WebhookCall → Db → Result (Bool × Db)
apply_webhook q db = do
  guard
      (not (q.event_id == 0)
        && (not (nonce_of q == 0)
            && (not (q.raw_digest == 0) && not (q.provider_transaction_id == 0))))
      (payment_domain 422)
  seen_event q (find_event q.provider q.event_id db.events) db
