-- ===== src/Payments/Refunds.antt =====
-- `PaymentDomainService.prepare_refund` and `apply_refund` of app/services/payment_domain.py.
mod Prepare
unfoldable pub use Prepare.*
pub mod Sound
pub mod Booked
pub mod Taken
pub mod Find
pub mod Claim
use Prim.Native.Nat.{min}
use kunlun_model_gateway.Base.{
  ℕ, ◌+◌, ◌-◌, Bool, true, false, not, ◌&&◌, ◌||◌, Option, none, some, List, [], ◌∷◌, ltb, leb,
  ◌==◌, eq_option, is_some, if◌then◌else◌,
}
use kunlun_model_gateway.Base.Int.{ℤ, pos, neg}
use kunlun_model_gateway.Base.Result.{
  Result, ok, err, guard, require, ◌>>=◌, ◌>>◌, payment_domain, integrity,
}
use kunlun_model_gateway.Base.Table.{find, put}
use kunlun_model_gateway.Models.{
  Account, Db, Kind, LedgerKey, OrderStatus, OutboxEvent, PaymentOrder, PaymentRefund, RefundKey,
  RefundStatus, RiskReason, Topic, Wallet,
}
use kunlun_model_gateway.Ledger.{Entry, post_transaction}
use kunlun_model_gateway.Ledger.Wallets.{wallet_key}
use kunlun_model_gateway.Payments.Rows.{
  order_key, refund_row_key, is_order, is_refund, is_terminal_refund, is_active_refund, find_refund,
  refund_id_taken, has_refund,
}
use kunlun_model_gateway.Payments.Freeze.{apply_user_freeze}

-- The arguments of `apply_refund`, the uuid of a new row and the clock.
pub record RefundCall : Type 0 where
  pub order_id : ℕ
  pub idempotency_key : RefundKey
  pub provider_refund_id : ℕ
  pub id : ℕ
  pub now : ℕ

-- The row that is completed, and the table that holds it: a new one, whose unique constraints fail
-- in a flush of their own that is caught, or the one that was prepared.
unfoldable pub open_refund :
    RefundCall
    → PaymentOrder
    → ℕ
    → List ℕ
    → Option PaymentRefund
    → List PaymentRefund
    → Result (PaymentRefund × List PaymentRefund)
open_refund q o amount currency none refunds = do
  let r = new_refund q.id o q.idempotency_key (some q.provider_refund_id) amount currency q.now
  guard
      (not (
        is_some (find refund_row_key q.id refunds)
        || (has_refund o.id refunds || refund_id_taken q.id q.provider_refund_id refunds)))
      (payment_domain 409)
  ok (r, r ∷ refunds)
open_refund q o amount currency (some r) refunds = do
  guard (is_active_refund r.status) (payment_domain 409)
  guard
      (not (is_some r.provider_refund_id)
        || eq_option r.provider_refund_id (some q.provider_refund_id))
      (payment_domain 409)
  let r' : PaymentRefund = record r { provider_refund_id = some q.provider_refund_id }
  ok (r', refunds)

abbrev pub refund_entries : ℕ → List Entry
refund_entries credit =
    (Account.customer_available, neg credit) ∷ (Account.platform_clearing, pos credit) ∷ []

abbrev pub shortfall_entries : ℕ → ℕ → List Entry
shortfall_entries recovered credit =
    (Account.customer_available, neg recovered)
    ∷ (Account.platform_risk, neg (credit - recovered))
    ∷ (Account.platform_clearing, pos credit)
    ∷ []

abbrev refund_event : PaymentOrder → OutboxEvent
refund_event o = record { topic = Topic.refund_completed; reference = o.id }

abbrev pub done_order : RefundCall → PaymentOrder → PaymentOrder
done_order q o = record o {
  status = OrderStatus.refunded;
  refunded_at = some q.now;
  reconciliation_claim_started_at = none;
}

-- The balance covers the credit: it is taken back whole.
unfoldable pub refund_whole :
    RefundCall
    → PaymentOrder
    → PaymentRefund
    → List PaymentRefund
    → Wallet
    → Db
    → Result (PaymentRefund × Db)
refund_whole q o r refunds w db = do
  let credit = o.credit_amount_microusd
  ledger ←
      post_transaction o.user_id Kind.payment_refund o.id (LedgerKey.refund r.id)
        (refund_entries credit) db.ledger
  let r' : PaymentRefund = record r { status = RefundStatus.refunded; completed_at = some q.now }
  ok (
    r',
    record db {
      wallets =
          put wallet_key (record w { balance_microusd = w.balance_microusd - credit }) db.wallets;
      ledger = ledger;
      refunds = put refund_row_key r' refunds;
      orders = put order_key (done_order q o) db.orders;
      outbox = refund_event o ∷ db.outbox;
    },
  )

-- It does not: what is there is taken, the rest is booked as risk, and the account is frozen.
unfoldable pub refund_short :
    RefundCall
    → PaymentOrder
    → PaymentRefund
    → List PaymentRefund
    → Wallet
    → Db
    → Result (PaymentRefund × Db)
refund_short q o r refunds w db = do
  let credit = o.credit_amount_microusd
  let recovered = min w.balance_microusd credit
  let frozen : Db = (apply_user_freeze o.user_id q.now db).1
  ledger ←
      post_transaction o.user_id Kind.payment_refund_risk o.id (LedgerKey.refund_risk r.id)
        (shortfall_entries recovered credit) frozen.ledger
  let r' : PaymentRefund = record r {
    status = RefundStatus.risk;
    risk_reason = some RiskReason.refund_balance_insufficient;
    completed_at = some q.now;
  }
  ok (
    r',
    record frozen {
      wallets =
          put wallet_key (record w { balance_microusd = w.balance_microusd - recovered })
            frozen.wallets;
      ledger = ledger;
      refunds = put refund_row_key r' refunds;
      orders =
          put order_key
            (record (done_order q o) { risk_reason = some RiskReason.refund_balance_insufficient })
            frozen.orders;
      outbox = refund_event o ∷ frozen.outbox;
    },
  )

-- The unique constraint on the provider's id of a prepared row fails in the flush of the journal
-- header, which is not caught.
unfoldable pub complete_refund :
    RefundCall → PaymentOrder → Option PaymentRefund → Db → Result (PaymentRefund × Db)
complete_refund q o existing db = do
  guard (is_order o.status OrderStatus.paid || is_order o.status OrderStatus.refunding)
      (payment_domain 409)
  amount ← require o.payment_amount_minor (payment_domain 409)
  currency ← require o.payment_currency (payment_domain 409)
  (r, refunds) ← open_refund q o amount currency existing db.refunds
  w ← require (find wallet_key o.user_id db.wallets) (payment_domain 500)
  guard (not (refund_id_taken r.id q.provider_refund_id refunds)) integrity
  if leb o.credit_amount_microusd w.balance_microusd
      then refund_whole q o r refunds w db
      else refund_short q o r refunds w db

-- A refund that is done is handed back; the caller's pending writes stay pending.
unfoldable pub apply_found :
    RefundCall → PaymentOrder → Option PaymentRefund → Db → Result (PaymentRefund × Db)
apply_found q o none db = complete_refund q o none db
apply_found q o (some r) db =
    if is_terminal_refund r.status
    then (guard (eq_option r.provider_refund_id (some q.provider_refund_id)) (payment_domain 409)
        >> ok (r, db))
    else complete_refund q o (some r) db

unfoldable pub apply_refund : RefundCall → Db → Result (PaymentRefund × Db)
apply_refund q db = do
  o ← require (find order_key q.order_id db.orders) (payment_domain 409)
  apply_found q o (find_refund q.order_id q.idempotency_key db.refunds) db
