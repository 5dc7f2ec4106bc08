-- ===== src/Payments/Refunds/Taken.antt =====
-- What a refund takes back (app/services/payment_domain.py, `apply_refund`).
use Prim.Native.Nat.{min}
use kunlun_model_gateway.Base.{
  ℕ, ◌-◌, ◌≡◌, Option, none, some, true, false, leb, if◌then◌else◌, Bool, ◌∷◌,
}
use kunlun_model_gateway.Base.Table.{find}
use kunlun_model_gateway.Models.{
  Db, OrderStatus, PaymentOrder, PaymentRefund, RefundStatus, User, Wallet, LedgerTransaction, Kind,
}
use kunlun_model_gateway.Ledger.Wallets.{wallet_key}
use kunlun_model_gateway.Payments.Rows.{is_terminal_refund, order_key, user_key}
use kunlun_model_gateway.Payments.Freeze.Revokes.{IsFrozen}
use kunlun_model_gateway.Payments.Refunds.Booked.{TakesBack}

-- Whether the balance covered the credit decides whether the owner's account is frozen.
abbrev pub AfterShortfall : ℕ → Option User → Db → Bool → Type 0
AfterShortfall u owner db true = Unit
AfterShortfall u none db false = Unit
AfterShortfall u (some owner) db false = IsFrozen u db

-- The rows that a completed refund has read and written.
pub record Taken (order_id : ℕ) (db : Db) (r : PaymentRefund) (db' : Db) : Type 0 where
  pub order : PaymentOrder
  pub wallet : Wallet
  pub order' : PaymentOrder
  pub order_found : find order_key order_id db.orders ≡ some order
  pub wallet_found : find wallet_key order.user_id db.wallets ≡ some wallet
  pub wallet_written :
      find wallet_key order.user_id db'.wallets
      ≡ some (record wallet {
        balance_microusd =
            wallet.balance_microusd - min wallet.balance_microusd order.credit_amount_microusd;
      })
  pub booked : LedgerTransaction
  pub ledger_written : db'.ledger ≡ booked ∷ db.ledger
  pub booked_for : (booked.user_id ≡ order.user_id) × (booked.reference ≡ order.id)
  pub booked_as : booked.kind ≡ (
      if leb order.credit_amount_microusd wallet.balance_microusd
      then Kind.payment_refund
      else Kind.payment_refund_risk)
  pub entries :
      TakesBack
        (min wallet.balance_microusd order.credit_amount_microusd)
        order.credit_amount_microusd
        booked.entries
  pub order_written : find order_key order_id db'.orders ≡ some order'
  pub refunded : order'.status ≡ OrderStatus.refunded
  pub status : r.status ≡ (
      if leb order.credit_amount_microusd wallet.balance_microusd
      then RefundStatus.refunded
      else RefundStatus.risk)
  pub frozen :
      AfterShortfall order.user_id
        (find user_key order.user_id db.users)
        db'
        (leb order.credit_amount_microusd wallet.balance_microusd)

pub data Outcome (order_id : ℕ) (db : Db) (x : PaymentRefund × Db) : Type 0 where
  taken : Taken order_id db x.0 x.1 → Outcome order_id db x
  unchanged : x.1 ≡ db → is_terminal_refund x.0.status ≡ true → Outcome order_id db x
