-- ===== src/Operators/LivePayments.antt =====
-- `reconcile_live_payment` of app/__init__.py: an operator asks the payment provider for the state of
-- an order, and applies the answer as a payment event.
pub mod Sound
use kunlun_model_gateway.Base.{
  ℕ, ◌+◌, Bool, true, false, not, ◌&&◌, ◌||◌, Option, some, none, List, [], ◌∷◌, is_some, ltb,
  if◌then◌else◌,
}
use kunlun_model_gateway.Base.Result.{
  Result, ok, err, guard, require, ◌>>=◌, ◌>>◌, http, Error, runtime_error,
}
use kunlun_model_gateway.Models.{
  BridgeStatus, Db, OperatorAction, OrderStatus, PaymentOrder, RiskReason, TargetType,
}
use kunlun_model_gateway.Payments.Webhook.{EventType, PaymentStatus, WebhookCall, apply_webhook}
use kunlun_model_gateway.Operators.Actions.{Operation, action_row, add_action, as_http}
use kunlun_model_gateway.Json.{codes}
use kunlun_model_gateway.Base.Table.{find, put}
use kunlun_model_gateway.Payments.Checkout.{is_fresh}
use kunlun_model_gateway.Payments.{order_key}

-- PaymentStatus of app/services/live_payments.py.
pub record BridgePayment : Type 0 where
  pub order_id : ℕ
  pub payment_amount_minor : ℕ
  pub currency : List ℕ
  pub status : BridgeStatus
  pub provider_transaction_id : ℕ

-- How a call of the bridge ends: it answers, it raises a PaymentBridgeError with a code, or it raises
-- another exception or is cancelled.
pub data BridgeAnswer {ℓ} (A : Type ℓ) : Type ℓ where
  answered : A → BridgeAnswer A
  refused : ℕ → BridgeAnswer A
  failed : BridgeAnswer A

-- What the route works with: an audit row for the claim, one for the event and one for a repetition,
-- the SHA-256 digest of an answer and the texts that are cut from it, and the bridge.
pub record PaymentReconcileCall : Type 0 where
  pub order_id : ℕ
  pub provider : ℕ
  pub claiming : Operation
  pub applying : Operation
  pub repeating : Operation
  pub event_id : BridgePayment → ℕ
  pub nonce : BridgePayment → ℕ
  pub raw_digest : BridgePayment → ℕ
  pub query : PaymentOrder → BridgeAnswer BridgePayment

abbrev order_text : OrderStatus → List ℕ
order_text OrderStatus.pending = codes "pending"
order_text OrderStatus.checkout_requesting = codes "checkout_requesting"
order_text OrderStatus.pending_reconciliation = codes "pending_reconciliation"
order_text OrderStatus.paid = codes "paid"
order_text OrderStatus.refunding = codes "refunding"
order_text OrderStatus.refunded = codes "refunded"
order_text OrderStatus.failed = codes "failed"
order_text OrderStatus.closed = codes "closed"

abbrev bridge_text : BridgeStatus → List ℕ
bridge_text BridgeStatus.pending = codes "pending"
bridge_text BridgeStatus.paid = codes "paid"
bridge_text BridgeStatus.failed = codes "failed"
bridge_text BridgeStatus.refunded = codes "refunded"
bridge_text BridgeStatus.refunding = codes "refunding"
bridge_text BridgeStatus.closed = codes "closed"

-- A checkout claim that has run out moves to reconciliation; an order that was completed is not
-- opened again.
unfoldable pub reopened : PaymentOrder → OrderStatus → ℕ → Result PaymentOrder
reopened o OrderStatus.checkout_requesting now = do
  guard (not (is_fresh o.checkout_claim_started_at now 300)) (http 409)
  ok (record o {
    status = OrderStatus.pending_reconciliation;
    risk_reason = some RiskReason.checkout_claim_expired;
    checkout_claim_started_at = none;
  })
reopened o OrderStatus.pending now = ok o
reopened o OrderStatus.pending_reconciliation now = ok o
reopened o _ now = err (http 409)

abbrev or_reason : Option RiskReason → RiskReason → Option RiskReason
or_reason none reason = some reason
or_reason (some old) reason = some old

abbrev claimed_order : PaymentOrder → ℕ → PaymentOrder
claimed_order o now = record o {
  status = OrderStatus.pending_reconciliation;
  reconciliation_claim_started_at = some now;
  risk_reason = or_reason o.risk_reason RiskReason.operator_reconciliation;
}

abbrev pub claim_action : PaymentReconcileCall → PaymentOrder → OperatorAction
claim_action q o =
    action_row q.claiming none TargetType.payment_order q.order_id (codes "payment_reconcile_claim")
      (order_text o.status) (codes "pending_reconciliation")

-- The first transaction: the lease and its audit row. It returns the order before and after.
unfoldable pub claim_order : PaymentReconcileCall → Db → Result ((PaymentOrder × PaymentOrder) × Db)
claim_order q db = do
  o ← require (find order_key q.order_id db.orders) (http 404)
  guard (is_some o.payment_amount_minor && is_some o.payment_currency) (http 404)
  o' ← reopened o o.status q.claiming.now
  guard (not (is_fresh o.reconciliation_claim_started_at q.claiming.now 300)) (http 409)
  staged ← add_action (claim_action q o) db
  let claimed = claimed_order o' q.claiming.now
  ok ((o, claimed), record staged { orders = put order_key claimed staged.orders })

-- `PaymentOrder.status.in_(("pending", "pending_reconciliation"))`.
abbrev is_noted : OrderStatus → Bool
is_noted OrderStatus.pending = true
is_noted OrderStatus.pending_reconciliation = true
is_noted _ = false

unfoldable pub note_found : RiskReason → Option PaymentOrder → Db → Db
note_found reason none db = db
note_found reason (some o) db =
    if is_noted o.status
    then record db {
      orders =
          put order_key
            (record o { status = OrderStatus.pending_reconciliation; risk_reason = some reason })
            db.orders;
    }
    else db

-- The transaction after a query that told nothing: the order stays in reconciliation.
unfoldable pub note_order : ℕ → RiskReason → Db → Db
note_order id reason db = note_found reason (find order_key id db.orders) db

-- `event_types`.
abbrev pub event_of : BridgeStatus → Option (EventType × PaymentStatus)
event_of BridgeStatus.pending = some (EventType.payment_pending, PaymentStatus.pending)
event_of BridgeStatus.failed = some (EventType.payment_failed, PaymentStatus.failed)
event_of BridgeStatus.closed = some (EventType.payment_closed, PaymentStatus.closed)
event_of BridgeStatus.paid = some (EventType.payment_succeeded, PaymentStatus.paid)
event_of BridgeStatus.refunded = none
event_of BridgeStatus.refunding = none

abbrev pub webhook_of :
    PaymentReconcileCall → BridgePayment → EventType × PaymentStatus → WebhookCall
webhook_of q a (event_type, status) = record {
  provider = q.provider;
  event_id = q.event_id a;
  raw_digest = q.raw_digest a;
  order_id = a.order_id;
  event_type = event_type;
  status = status;
  payment_amount_minor = a.payment_amount_minor;
  payment_currency = a.currency;
  provider_transaction_id = a.provider_transaction_id;
  nonce = some (q.nonce a);
  provider_refund_id = none;
  refund_row = 0;
  now = q.applying.now;
}

abbrev pub apply_action :
    PaymentReconcileCall → Operation → PaymentOrder → BridgePayment → OperatorAction
apply_action q by before a =
    action_row by none TargetType.payment_order q.order_id (codes "payment_reconcile")
      (order_text before.status) (bridge_text a.status)

unfoldable pub unclaim_found : Option PaymentOrder → Db → Db
unclaim_found none db = db
unclaim_found (some o) db = record db {
  orders = put order_key (record o { reconciliation_claim_started_at = none }) db.orders;
}

unfoldable pub unclaim_order : ℕ → Db → Db
unclaim_order id db = unclaim_found (find order_key id db.orders) db

-- A repetition was rolled back, with the audit row that was staged; it is written again.
unfoldable pub audit_again : Bool → OperatorAction → Db → Db → Result Db
audit_again true row before after = add_action row before
audit_again false row before after = ok after

-- The last transaction: the event, its audit row, and the end of the lease.
unfoldable pub apply_answer :
    PaymentReconcileCall
    → PaymentOrder
    → BridgePayment
    → EventType × PaymentStatus
    → Db
    → Result (Bool × Db)
apply_answer q before a event db = do
  staged ← add_action (apply_action q q.applying before a) db
  applied ← as_http (apply_webhook (webhook_of q a event) staged)
  audited ← audit_again applied.0 (apply_action q q.repeating before a) db applied.1
  ok (applied.0, unclaim_order q.order_id audited)

-- How the route ends: it answers, it raises after it has noted the order, or it raises in a
-- transaction that is rolled back.
pub data ReconcileOutcome : Type 0 where
  applied : BridgePayment → Bool → ReconcileOutcome
  noted : ReconcileOutcome
  raised : Error → ReconcileOutcome

unfoldable pub after_apply : BridgePayment → Db → Result (Bool × Db) → ReconcileOutcome × Db
after_apply a db (ok (duplicate, db')) = (ReconcileOutcome.applied a duplicate, db')
after_apply a db (err e) = (ReconcileOutcome.raised e, db)

unfoldable pub decide :
    PaymentReconcileCall
    → PaymentOrder
    → BridgePayment
    → Option (EventType × PaymentStatus)
    → Db
    → ReconcileOutcome × Db
decide q before a none db =
    (ReconcileOutcome.noted, note_order q.order_id (RiskReason.query_status a.status) db)
decide q before a (some event) db = after_apply a db (apply_answer q before a event db)

unfoldable pub after_query :
    PaymentReconcileCall → PaymentOrder → BridgeAnswer BridgePayment → Db → ReconcileOutcome × Db
after_query q before (answered a) db = decide q before a (event_of a.status) db
after_query q before (refused code) db =
    (ReconcileOutcome.noted, note_order q.order_id (RiskReason.query_error code) db)
after_query q before failed db = (ReconcileOutcome.raised runtime_error, db)

-- `others` is what other requests commit while the provider is asked.
unfoldable pub after_claim :
    PaymentReconcileCall
    → (Db → Db)
    → Db
    → Result ((PaymentOrder × PaymentOrder) × Db)
    → ReconcileOutcome × Db
after_claim q others db (err e) = (ReconcileOutcome.raised e, db)
after_claim q others db (ok ((before, claimed), db')) =
    after_query q before (q.query claimed) (others db')

unfoldable pub reconcile_live_payment :
    PaymentReconcileCall → (Db → Db) → Db → ReconcileOutcome × Db
reconcile_live_payment q others db = after_claim q others db (claim_order q db)
