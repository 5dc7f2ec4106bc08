-- ===== src/Payments/Refunds/Prepare.antt =====
-- `prepare_refund` of app/services/payment_domain.py.
use kunlun_model_gateway.Base.{
  ℕ, ◌+◌, Bool, true, false, not, ◌||◌, Option, none, some, List, ◌∷◌, ltb, ◌==◌, is_some,
}
use kunlun_model_gateway.Base.Result.{Result, ok, err, guard, require, ◌>>=◌, ◌>>◌, payment_domain}
use kunlun_model_gateway.Base.Table.{find, put}
use kunlun_model_gateway.Models.{
  Db, OrderStatus, PaymentOrder, PaymentRefund, RefundKey, RefundStatus,
}
use kunlun_model_gateway.Payments.Rows.{
  order_key, refund_row_key, is_order, find_refund, has_refund,
}

-- The arguments of `prepare_refund`, the uuid of a new row and the clock. The client's key is not
-- yet a `RefundKey`: an empty one is refused.
pub record RefundCommand : Type 0 where
  pub order_id : ℕ
  pub idempotency_key : ℕ
  pub lease : ℕ
  pub id : ℕ
  pub now : ℕ

-- The claim of a refund command that exists: it may be taken again when its lease has run out.
unfoldable pub reclaim :
    RefundCommand → PaymentRefund → RefundStatus → Db → Result ((PaymentRefund × Bool) × Db)
reclaim q r next db = do
  let r' : PaymentRefund = record r { status = next; claim_started_at = q.now; risk_reason = none }
  ok ((r', true), record db { refunds = put refund_row_key r' db.refunds })

unfoldable pub prepare_existing :
    RefundCommand → PaymentRefund → RefundStatus → Db → Result ((PaymentRefund × Bool) × Db)
prepare_existing q r RefundStatus.refunded db = ok ((r, false), db)
prepare_existing q r RefundStatus.risk db = ok ((r, false), db)
prepare_existing q r RefundStatus.requesting db = do
  guard (not (ltb q.now (r.claim_started_at + q.lease))) (payment_domain 409)
  reclaim q r RefundStatus.retrying db
prepare_existing q r RefundStatus.retrying db = do
  guard (not (ltb q.now (r.claim_started_at + q.lease))) (payment_domain 409)
  reclaim q r RefundStatus.requesting db
prepare_existing q r RefundStatus.pending_reconciliation db = reclaim q r RefundStatus.requesting db
prepare_existing q r RefundStatus.resolved db = err (payment_domain 409)

-- A new row for the refund of an order, with the order's quote.
abbrev pub new_refund : ℕ → PaymentOrder → RefundKey → Option ℕ → ℕ → List ℕ → ℕ → PaymentRefund
new_refund id o key provider_refund_id amount currency now = record {
  id = id;
  order_id = o.id;
  user_id = o.user_id;
  provider_refund_id = provider_refund_id;
  idempotency_key = key;
  payment_amount_minor = amount;
  payment_currency = currency;
  credit_amount_microusd = o.credit_amount_microusd;
  status = RefundStatus.requesting;
  risk_reason = none;
  claim_started_at = now;
  completed_at = none;
}

-- The primary key and `uq_refund_order`, which the commit checks.
unfoldable pub prepare_new : RefundCommand → Db → Result ((PaymentRefund × Bool) × Db)
prepare_new q db = do
  o ← require (find order_key q.order_id db.orders) (payment_domain 409)
  guard (is_order o.status OrderStatus.paid) (payment_domain 409)
  amount ← require o.payment_amount_minor (payment_domain 409)
  currency ← require o.payment_currency (payment_domain 409)
  let r = new_refund q.id o (RefundKey.client q.idempotency_key) none amount currency q.now
  guard (not (is_some (find refund_row_key q.id db.refunds) || has_refund o.id db.refunds))
      (payment_domain 409)
  ok (
    (r, true),
    record db {
      refunds = r ∷ db.refunds;
      orders = put order_key (record o { status = OrderStatus.refunding }) db.orders;
    },
  )

unfoldable pub prepare_found :
    RefundCommand → Option PaymentRefund → Db → Result ((PaymentRefund × Bool) × Db)
prepare_found q none db = prepare_new q db
prepare_found q (some r) db = prepare_existing q r r.status db

-- The refund, and whether the caller may contact the provider.
unfoldable pub prepare_refund : RefundCommand → Db → Result ((PaymentRefund × Bool) × Db)
prepare_refund q db = do
  guard (not (q.idempotency_key == 0)) (payment_domain 422)
  prepare_found q (find_refund q.order_id (RefundKey.client q.idempotency_key) db.refunds) db
