-- ===== src/Payments/Rows.antt =====
-- Keys, tests and constraints of the payment tables (app/models.py).
use kunlun_model_gateway.Base.{
  ℕ, Bool, true, false, not, ◌&&◌, ◌||◌, Option, none, some, List, [], ◌∷◌, ◌==◌, eq_option,
}
use kunlun_model_gateway.Models.{
  OrderStatus, PaymentOrder, PaymentRefund, PaymentWebhookEvent, RefundKey, RefundStatus, User,
}

abbrev pub user_key : User → ℕ
user_key u = u.id

abbrev pub order_key : PaymentOrder → ℕ
order_key o = o.id

abbrev pub refund_row_key : PaymentRefund → ℕ
refund_row_key r = r.id

abbrev order_code : OrderStatus → ℕ
order_code OrderStatus.pending = 0
order_code OrderStatus.checkout_requesting = 1
order_code OrderStatus.pending_reconciliation = 2
order_code OrderStatus.paid = 3
order_code OrderStatus.refunding = 4
order_code OrderStatus.refunded = 5
order_code OrderStatus.failed = 6
order_code OrderStatus.closed = 7

-- `order.status == s`.
abbrev pub is_order : OrderStatus → OrderStatus → Bool
is_order s t = order_code s == order_code t

abbrev refund_code : RefundStatus → ℕ
refund_code RefundStatus.requesting = 0
refund_code RefundStatus.retrying = 1
refund_code RefundStatus.pending_reconciliation = 2
refund_code RefundStatus.refunded = 3
refund_code RefundStatus.risk = 4
refund_code RefundStatus.resolved = 5

abbrev pub is_refund : RefundStatus → RefundStatus → Bool
is_refund s t = refund_code s == refund_code t

-- OPEN_CHECKOUT_STATUSES, and the statuses that a payment event may still change.
abbrev pub is_open_order : OrderStatus → Bool
is_open_order OrderStatus.pending = true
is_open_order OrderStatus.checkout_requesting = true
is_open_order OrderStatus.pending_reconciliation = true
is_open_order _ = false

-- `refund.status in {"refunded", "risk"}`.
abbrev pub is_terminal_refund : RefundStatus → Bool
is_terminal_refund RefundStatus.refunded = true
is_terminal_refund RefundStatus.risk = true
is_terminal_refund _ = false

-- `refund.status in {"requesting", "retrying", "pending_reconciliation"}`.
abbrev pub is_active_refund : RefundStatus → Bool
is_active_refund RefundStatus.requesting = true
is_active_refund RefundStatus.retrying = true
is_active_refund RefundStatus.pending_reconciliation = true
is_active_refund _ = false

-- Python's truth of a nullable text: 0 is the empty one.
abbrev pub truthy : Option ℕ → Bool
truthy none = false
truthy (some t) = not (t == 0)

-- A client's key that is spelled like the key of a webhook is taken to differ from it.
abbrev pub same_refund_key : RefundKey → RefundKey → Bool
same_refund_key (RefundKey.client a) (RefundKey.client b) = a == b
same_refund_key (RefundKey.webhook p a) (RefundKey.webhook q b) = (p == q) && (a == b)
same_refund_key (RefundKey.client a) (RefundKey.webhook q b) = false
same_refund_key (RefundKey.webhook p a) (RefundKey.client b) = false

-- `select(PaymentRefund).where(order_id == id, idempotency_key == key)`.
unfoldable pub find_refund : ℕ → RefundKey → List PaymentRefund → Option PaymentRefund
find_refund id key [] = none
find_refund id key (r ∷ rs) = elim ((r.order_id == id) && same_refund_key r.idempotency_key key) [
  | true ↦ some r
  | false ↦ find_refund id key rs
]

-- `select(PaymentRefund).where(provider_refund_id == id)`.
unfoldable pub find_provider_refund : ℕ → List PaymentRefund → Option PaymentRefund
find_provider_refund id [] = none
find_provider_refund id (r ∷ rs) = elim (eq_option r.provider_refund_id (some id)) [
  | true ↦ some r
  | false ↦ find_provider_refund id rs
]

-- The refunds of an order that are still under way.
unfoldable pub active_refunds : ℕ → List PaymentRefund → List PaymentRefund
active_refunds id [] = []
active_refunds id (r ∷ rs) =
    let rest = active_refunds id rs in
    elim ((r.order_id == id) && is_active_refund r.status) [ true ↦ r ∷ rest | false ↦ rest ]

-- The unique constraint on `provider_refund_id`, for a row other than `self`.
unfoldable pub refund_id_taken : ℕ → ℕ → List PaymentRefund → Bool
refund_id_taken self id [] = false
refund_id_taken self id (r ∷ rs) =
    (not (r.id == self) && eq_option r.provider_refund_id (some id)) || refund_id_taken self id rs

-- `uq_refund_order`: an order is refunded once.
unfoldable pub has_refund : ℕ → List PaymentRefund → Bool
has_refund id [] = false
has_refund id (r ∷ rs) = (r.order_id == id) || has_refund id rs

-- The unique constraint on `provider_transaction_id`, for a row other than `self`.
unfoldable pub transaction_taken : ℕ → ℕ → List PaymentOrder → Bool
transaction_taken self id [] = false
transaction_taken self id (o ∷ os) =
    (not (o.id == self) && eq_option o.provider_transaction_id (some id))
    || transaction_taken self id os

-- `select(PaymentWebhookEvent).where(provider == p, event_id == e)`.
unfoldable pub find_event : ℕ → ℕ → List PaymentWebhookEvent → Option PaymentWebhookEvent
find_event p e [] = none
find_event p e (v ∷ vs) = elim ((v.provider == p) && (v.event_id == e)) [
  | true ↦ some v
  | false ↦ find_event p e vs
]

-- `select(PaymentWebhookEvent).where(provider == p, nonce == n)`.
unfoldable pub nonce_used : ℕ → ℕ → List PaymentWebhookEvent → Bool
nonce_used p n [] = false
nonce_used p n (v ∷ vs) = ((v.provider == p) && (v.nonce == n)) || nonce_used p n vs
