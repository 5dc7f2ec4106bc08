-- ===== src/Services.antt =====
-- The services of app/services together, as the transactions that they commit: the steps that the
-- routes, the sweeper and the payment callbacks take on one database, in any order.
pub mod Reach
pub mod History
use kunlun_model_gateway.Base.{ℕ, ◌≡◌, Bool, false, List, Option}
use kunlun_model_gateway.Base.Result.{ok}
use kunlun_model_gateway.Models.{
  Budget, Db, PaymentOrder, PaymentRefund, ProviderAttempt, holds, SafetyAudit, UserStatus,
  RiskReason,
}
use kunlun_model_gateway.Budgets.{NewBudget, create_budget}
use kunlun_model_gateway.Billing.Invariant.{AllHold}
use kunlun_model_gateway.Billing.Reserve.{ReserveCall, Reservation, reserve_model_request}
use kunlun_model_gateway.Billing.Settle.{SettleCall, settle_model_request}
use kunlun_model_gateway.Billing.Release.{
  ReleaseCall, PendingCall, release_model_request, mark_pending_reconciliation, record_attempt,
  recover_stale_model_reservations,
}
use kunlun_model_gateway.Payments.Orders.{NewOrder, create_order}
use kunlun_model_gateway.Payments.Checkout.{CheckoutOutcome, prepare_checkout}
use kunlun_model_gateway.Payments.Freeze.{apply_user_freeze}
use kunlun_model_gateway.Payments.Refunds.{RefundCommand, RefundCall, prepare_refund, apply_refund}
use kunlun_model_gateway.Payments.Webhook.{WebhookCall, apply_webhook, EventType, PaymentStatus}
use kunlun_model_gateway.Payments.Risk.{RiskCall, RiskResult, resolve_refund_risk}
use kunlun_model_gateway.Gateway.{add_audit, link_audit}
use kunlun_model_gateway.Operators.Accounts.{AccountCall, update_account_status}
use kunlun_model_gateway.Operators.Reconcile.{ReconcileCall, ReconcileAnswer, reconcile_request}
use kunlun_model_gateway.Operators.Refunds.{
  DispositionCall, dispose_refund_risk, LiveRefundCall, claim_refund, note_refund, BridgeRefund,
  confirm_refund,
}
use kunlun_model_gateway.Operators.LivePayments.{
  PaymentReconcileCall, claim_order, note_order, BridgePayment, apply_answer,
}

-- One committed transaction. The calls that close a request allow only open statuses, and release
-- into a final one, as the routes do; what raises is rolled back and is no step.
pub data Step : Db → Db → Type 0 where
  reserve :
      {db db' : Db} (q : ReserveCall) (r : Reservation)
      → reserve_model_request q db ≡ ok (r, db')
      → Step db db'
  settle :
      {db db' : Db} (q : SettleCall) (r : ℕ × Bool)
      → AllHold q.allowed_statuses
      → settle_model_request q db ≡ ok (r, db')
      → Step db db'
  release :
      {db db' : Db} (q : ReleaseCall)
      → AllHold q.allowed_statuses
      → holds q.final_status ≡ false
      → release_model_request q db ≡ ok db'
      → Step db db'
  hand_over : {db : Db} (q : PendingCall) → Step db (mark_pending_reconciliation q db)
  attempt : {db db' : Db} (a : ProviderAttempt) → record_attempt a db ≡ ok db' → Step db db'
  sweep :
      {db db' : Db} (lease now n : ℕ)
      → recover_stale_model_reservations lease now db ≡ ok (n, db')
      → Step db db'
  budget :
      {db db' : Db} (q : NewBudget) (b : Budget) → create_budget q db ≡ ok (b, db') → Step db db'
  order :
      {db db' : Db} (q : NewOrder) (o : PaymentOrder)
      → create_order q db ≡ ok (o, db')
      → Step db db'
  checkout :
      {db db' : Db} (id now lease : ℕ) (c : CheckoutOutcome)
      → prepare_checkout id now lease db ≡ ok (c, db')
      → Step db db'
  refund_claim :
      {db db' : Db} (q : RefundCommand) (r : PaymentRefund × Bool)
      → prepare_refund q db ≡ ok (r, db')
      → Step db db'
  refund :
      {db db' : Db} (q : RefundCall) (r : PaymentRefund)
      → apply_refund q db ≡ ok (r, db')
      → Step db db'
  webhook :
      {db db' : Db} (q : WebhookCall) (duplicate : Bool)
      → apply_webhook q db ≡ ok (duplicate, db')
      → Step db db'
  risk :
      {db db' : Db} (q : RiskCall) (r : RiskResult)
      → resolve_refund_risk q db ≡ ok (r, db')
      → Step db db'
  audit : {db db' : Db} (a : SafetyAudit) → add_audit a db ≡ ok db' → Step db db'
  link : {db : Db} (audit : Option ℕ) (request : ℕ) → Step db (link_audit audit request db)
  freeze : {db : Db} (user now : ℕ) → Step db (apply_user_freeze user now db).1
  account :
      {db db' : Db} (q : AccountCall) (r : UserStatus × ℕ)
      → update_account_status q db ≡ ok (r, db')
      → Step db db'
  reconcile :
      {db db' : Db} (q : ReconcileCall) (r : ReconcileAnswer)
      → reconcile_request q db ≡ ok (r, db')
      → Step db db'
  disposition :
      {db db' : Db} (q : DispositionCall) (r : RiskResult)
      → dispose_refund_risk q db ≡ ok (r, db')
      → Step db db'
  order_claim :
      {db db' : Db} (q : PaymentReconcileCall) (r : PaymentOrder × PaymentOrder)
      → claim_order q db ≡ ok (r, db')
      → Step db db'
  order_note : {db : Db} (id : ℕ) (reason : RiskReason) → Step db (note_order id reason db)
  order_answer :
      {db db' : Db} (q : PaymentReconcileCall) (o : PaymentOrder) (a : BridgePayment)
      (event : EventType × PaymentStatus) (duplicate : Bool)
      → apply_answer q o a event db ≡ ok (duplicate, db')
      → Step db db'
  refund_call_claim :
      {db db' : Db} (q : LiveRefundCall) (r : PaymentRefund × Bool)
      → claim_refund q db ≡ ok (r, db')
      → Step db db'
  refund_note :
      {db : Db} (order refund : ℕ) (order_reason reason : RiskReason)
      → Step db (note_refund order refund order_reason reason db)
  refund_confirm :
      {db db' : Db} (q : LiveRefundCall) (id : ℕ) (a : BridgeRefund) (r : PaymentRefund)
      → confirm_refund q id a db ≡ ok (r, db')
      → Step db db'

-- The committed history of a database.
pub data Reaches : Db → Db → Type 0 where
  start : {db : Db} → Reaches db db
  next : {db db' db'' : Db} → Reaches db db' → Step db' db'' → Reaches db db''
