-- ===== src/Operators/Refunds.antt =====
-- `refund_live_payment` and `dispose_refund_risk` of app/__init__.py: an operator refunds a payment,
-- and disposes of the risk that a refund has left.
pub mod Runs
use kunlun_model_gateway.Base.{
  ℕ, Bool, true, false, ◌&&◌, Option, some, none, List, [], ◌∷◌, is_some, if◌then◌else◌,
}
use kunlun_model_gateway.Base.Result.{
  Error, Result, ok, err, guard, require, ◌>>=◌, ◌>>◌, http, runtime_error, catch_integrity,
}
use kunlun_model_gateway.Operators.LivePayments.{BridgeAnswer}
use kunlun_model_gateway.Models.{
  BridgeStatus, Db, OperatorAction, PaymentOrder, PaymentRefund, RefundStatus, RiskReason,
  RefundKey, TargetType,
}
use kunlun_model_gateway.Payments.Refunds.{RefundCall, RefundCommand, prepare_refund, apply_refund}
use kunlun_model_gateway.Payments.Risk.{RiskAction, RiskCall, RiskResult, resolve_refund_risk}
use kunlun_model_gateway.Operators.Actions.{Operation, action_row, add_action, as_http}
use kunlun_model_gateway.Json.{codes}
use kunlun_model_gateway.Base.Table.{find, put}
use kunlun_model_gateway.Payments.{order_key, refund_row_key}

-- The parts of RefundResult of app/services/live_payments.py that the route reads.
pub record BridgeRefund : Type 0 where
  pub status : BridgeStatus
  pub provider_refund_id : ℕ

pub record LiveRefundCall : Type 0 where
  pub command : RefundCommand
  pub operation : Operation
  pub refund_row : ℕ
  pub refund : PaymentRefund → BridgeAnswer BridgeRefund

-- The first transaction: the refund command is reserved before the provider is called.
unfoldable pub claim_refund : LiveRefundCall → Db → Result ((PaymentRefund × Bool) × Db)
claim_refund q db = do
  o ← require (find order_key q.command.order_id db.orders) (http 409)
  guard
      (is_some o.payment_amount_minor
        && (is_some o.payment_currency && is_some o.provider_transaction_id))
      (http 409)
  as_http (prepare_refund q.command db)

-- `PaymentRefund.status.in_(("requesting", "retrying"))`.
abbrev pub is_requested : RefundStatus → Bool
is_requested RefundStatus.requesting = true
is_requested RefundStatus.retrying = true
is_requested _ = false

abbrev flagged_orders : Option PaymentOrder → RiskReason → List PaymentOrder → List PaymentOrder
flagged_orders none reason orders = orders
flagged_orders (some o) reason orders =
    put order_key (record o { risk_reason = some reason }) orders

unfoldable pub waiting_refunds :
    Option PaymentRefund → RiskReason → List PaymentRefund → List PaymentRefund
waiting_refunds none reason refunds = refunds
waiting_refunds (some r) reason refunds =
    if is_requested r.status
    then put refund_row_key
        (record r { status = RefundStatus.pending_reconciliation; risk_reason = some reason })
        refunds
    else refunds

-- The transaction after a call that did not confirm the refund.
unfoldable pub note_refund : ℕ → ℕ → RiskReason → RiskReason → Db → Db
note_refund order_id refund_id order_reason reason db = record db {
  orders = flagged_orders (find order_key order_id db.orders) order_reason db.orders;
  refunds = waiting_refunds (find refund_row_key refund_id db.refunds) reason db.refunds;
}

abbrev pub refund_action : LiveRefundCall → ℕ → OperatorAction
refund_action q refund_id =
    action_row q.operation none TargetType.payment_refund refund_id (codes "payment_refund")
      (codes "refunding") (codes "refunded")

abbrev pub refund_call : LiveRefundCall → BridgeRefund → RefundCall
refund_call q a = record {
  order_id = q.command.order_id;
  idempotency_key = RefundKey.client q.command.idempotency_key;
  provider_refund_id = a.provider_refund_id;
  id = q.refund_row;
  now = q.operation.now;
}

-- The last transaction: the audit row and the refund.
unfoldable pub confirm_refund : LiveRefundCall → ℕ → BridgeRefund → Db → Result (PaymentRefund × Db)
confirm_refund q refund_id a db = do
  staged ← add_action (refund_action q refund_id) db
  as_http (apply_refund (refund_call q a) staged)

pub data RefundOutcome : Type 0 where
  repeated confirmed : PaymentRefund → RefundOutcome
  unconfirmed : RefundOutcome
  raised : Error → RefundOutcome

unfoldable pub after_confirm : Db → Result (PaymentRefund × Db) → RefundOutcome × Db
after_confirm db (ok (r, db')) = (RefundOutcome.confirmed r, db')
after_confirm db (err e) = (RefundOutcome.raised e, db)

unfoldable pub unconfirm : LiveRefundCall → ℕ → BridgeStatus → Db → RefundOutcome × Db
unconfirm q refund_id status db = (
  RefundOutcome.unconfirmed,
  note_refund q.command.order_id refund_id (RiskReason.refund_status status)
      (RiskReason.provider_status status) db,
)

-- `provider_refund.status != "refunded"`.
unfoldable pub after_refund :
    LiveRefundCall → ℕ → BridgeRefund → BridgeStatus → Db → RefundOutcome × Db
after_refund q refund_id a BridgeStatus.refunded db =
    after_confirm db (confirm_refund q refund_id a db)
after_refund q refund_id a other db = unconfirm q refund_id other db

unfoldable pub after_bridge :
    LiveRefundCall → ℕ → BridgeAnswer BridgeRefund → Db → RefundOutcome × Db
after_bridge q refund_id (BridgeAnswer.answered a) db = after_refund q refund_id a a.status db
after_bridge q refund_id (BridgeAnswer.refused code) db = (
  RefundOutcome.unconfirmed,
  note_refund q.command.order_id refund_id (RiskReason.refund_error code)
      (RiskReason.error_code code) db,
)
after_bridge q refund_id BridgeAnswer.failed db = (RefundOutcome.raised runtime_error, db)

-- `others` is what other requests commit while the provider is called.
unfoldable pub after_refund_claim :
    LiveRefundCall → (Db → Db) → Db → Result ((PaymentRefund × Bool) × Db) → RefundOutcome × Db
after_refund_claim q others db (err e) = (RefundOutcome.raised e, db)
after_refund_claim q others db (ok ((r, false), db')) = (RefundOutcome.repeated r, db')
after_refund_claim q others db (ok ((r, true), db')) = after_bridge q r.id (q.refund r) (others db')

unfoldable pub refund_live_payment : LiveRefundCall → (Db → Db) → Db → RefundOutcome × Db
refund_live_payment q others db = after_refund_claim q others db (claim_refund q db)

-- `dispose_refund_risk`.
pub record DispositionCall : Type 0 where
  pub risk : RiskCall
  pub operation : Operation

abbrev disposition_text : RiskAction → List ℕ
disposition_text RiskAction.recover_available = codes "refund_risk_recover"
disposition_text RiskAction.write_off = codes "refund_risk_write_off"

abbrev pub disposition_action : DispositionCall → Bool → OperatorAction
disposition_action q duplicate =
    action_row q.operation none TargetType.payment_refund q.risk.refund_id
      (disposition_text q.risk.action) (if duplicate then codes "resolved" else codes "risk")
      (codes "resolved")

unfoldable pub dispose_and_audit : DispositionCall → Db → Result (RiskResult × Db)
dispose_and_audit q db = do
  disposed ← resolve_refund_risk q.risk db
  staged ← add_action (disposition_action q disposed.0.duplicate) disposed.1
  ok (disposed.0, staged)

unfoldable pub dispose_refund_risk : DispositionCall → Db → Result (RiskResult × Db)
dispose_refund_risk q db = catch_integrity (http 409) (as_http (dispose_and_audit q db))
