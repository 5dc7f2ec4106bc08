-- ===== src/Payments/Webhook/Event.antt =====
-- The payment events of app/services/payment_domain.py, `apply_webhook`, and the tests on one event.
use kunlun_model_gateway.Base.{
  ℕ, Bool, true, false, not, Option, none, some, List, ◌==◌, is_some, if◌then◌else◌,
}
use kunlun_model_gateway.Base.Result.{Result, guard, payment_domain}
use kunlun_model_gateway.Models.{EventStatus, PaymentWebhookEvent}
use kunlun_model_gateway.Payments.Rows.{truthy}

pub data EventType : Type 0 where
  payment_pending payment_failed payment_closed payment_succeeded topup_succeeded payment_refunded :
      EventType
  unknown : ℕ → EventType

pub data PaymentStatus : Type 0 where
  pending failed closed paid refunded : PaymentStatus
  unknown : ℕ → PaymentStatus

-- The arguments, the uuid of a refund row and the clock.
pub record WebhookCall : Type 0 where
  pub provider : ℕ
  pub event_id : ℕ
  pub raw_digest : ℕ
  pub order_id : ℕ
  pub event_type : EventType
  pub status : PaymentStatus
  pub payment_amount_minor : ℕ
  pub payment_currency : List ℕ
  pub provider_transaction_id : ℕ
  pub nonce : Option ℕ
  pub provider_refund_id : Option ℕ
  pub refund_row : ℕ
  pub now : ℕ

-- `nonce or event_id`.
abbrev pub nonce_of : WebhookCall → ℕ
nonce_of q = elim q.nonce [ none ↦ q.event_id | some n ↦ if n == 0 then q.event_id else n ]

-- `valid_event.get(event_type) == status`.
unfoldable pub is_valid_event : EventType → PaymentStatus → Bool
is_valid_event EventType.payment_pending PaymentStatus.pending = true
is_valid_event EventType.payment_failed PaymentStatus.failed = true
is_valid_event EventType.payment_closed PaymentStatus.closed = true
is_valid_event EventType.payment_succeeded PaymentStatus.paid = true
is_valid_event EventType.topup_succeeded PaymentStatus.paid = true
is_valid_event EventType.payment_refunded PaymentStatus.refunded = true
is_valid_event _ _ = false

abbrev pub is_refunded_status : PaymentStatus → Bool
is_refunded_status PaymentStatus.refunded = true
is_refunded_status _ = false

-- A refund event carries the provider's refund id, and no other event does.
unfoldable pub refund_id_fits : WebhookCall → Result (Unit {0})
refund_id_fits q =
    if is_refunded_status q.status
    then guard (truthy q.provider_refund_id) (payment_domain 422)
    else guard (not (is_some q.provider_refund_id)) (payment_domain 409)

abbrev pub event_row : WebhookCall → EventStatus → PaymentWebhookEvent
event_row q status = record {
  provider = q.provider;
  event_id = q.event_id;
  nonce = nonce_of q;
  order_id = q.order_id;
  raw_digest = q.raw_digest;
  status = status;
}
