-- ===== src/Payments/Checkout.antt =====
-- `PaymentDomainService.prepare_checkout` of app/services/payment_domain.py.
pub mod Claim
use kunlun_model_gateway.Base.{
  ℕ, ◌+◌, Bool, false, not, ◌&&◌, Option, none, some, ltb, is_some, if◌then◌else◌,
}
use kunlun_model_gateway.Base.Result.{Result, ok, guard, require, ◌>>=◌, ◌>>◌, payment_domain}
use kunlun_model_gateway.Base.Table.{find, put}
use kunlun_model_gateway.Models.{Db, OrderStatus, PaymentOrder, RiskReason, is_active_user}
use kunlun_model_gateway.Payments.Rows.{user_key, order_key, is_order, truthy}

-- What a call that has not rolled back does: it grants the claim to its caller, it hands back an
-- order that has a checkout already, or it has committed the hand-over of a stale claim to
-- reconciliation and raises with the status 503.
pub data CheckoutOutcome : Type 0 where
  claimed existing : PaymentOrder → CheckoutOutcome
  expired : CheckoutOutcome

-- `started_at > claim_now - lease`; a claim with no start is stale.
abbrev pub is_fresh : Option ℕ → ℕ → ℕ → Bool
is_fresh none now lease = false
is_fresh (some started) now lease = ltb now (started + lease)

unfoldable pub expire_claim : PaymentOrder → ℕ → ℕ → Db → Result (CheckoutOutcome × Db)
expire_claim o now lease db = do
  guard (not (is_fresh o.checkout_claim_started_at now lease)) (payment_domain 409)
  ok (
    CheckoutOutcome.expired,
    record db {
      orders =
          put order_key
            (record o {
              status = OrderStatus.pending_reconciliation;
              risk_reason = some RiskReason.checkout_claim_expired;
            })
            db.orders;
    },
  )

unfoldable pub claim : PaymentOrder → ℕ → Db → Result (CheckoutOutcome × Db)
claim o now db = do
  guard
      (is_order o.status OrderStatus.pending
        && (not (is_some o.provider_transaction_id) && not (is_some o.checkout_url)))
      (payment_domain 409)
  let o' : PaymentOrder = record o {
    status = OrderStatus.checkout_requesting;
    checkout_claim_started_at = some now;
    risk_reason = none;
  }
  ok (CheckoutOutcome.claimed o', record db { orders = put order_key o' db.orders })

unfoldable pub prepare_checkout : ℕ → ℕ → ℕ → Db → Result (CheckoutOutcome × Db)
prepare_checkout order_id now lease db = do
  o ← require (find order_key order_id db.orders) (payment_domain 404)
  owner ← require (find user_key o.user_id db.users) (payment_domain 403)
  guard (is_active_user owner.status) (payment_domain 403)
  if truthy o.checkout_url && truthy o.provider_transaction_id
      then ok (CheckoutOutcome.existing o, db)
      else if is_order o.status OrderStatus.checkout_requesting
      then expire_claim o now lease db
      else claim o now db
