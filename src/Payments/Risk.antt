-- ===== src/Payments/Risk.antt =====
-- `PaymentDomainService.resolve_refund_risk` of app/services/payment_domain.py.
pub mod Sound
pub mod Disposed
use Prim.Native.Nat.{min}
use kunlun_model_gateway.Base.{
  ℕ, ◌+◌, ◌-◌, Bool, true, false, not, ◌&&◌, ◌||◌, Option, none, some, List, [], ◌∷◌, ltb, leb,
  ◌==◌, is_some, if◌then◌else◌,
}
use kunlun_model_gateway.Base.Int.{ℤ, pos, neg, neg_part, ◌+ℤ◌, ◌-ℤ◌}
use kunlun_model_gateway.Base.Result.{Result, ok, err, guard, require, ◌>>=◌, ◌>>◌, payment_domain}
use kunlun_model_gateway.Base.Table.{find, put}
use kunlun_model_gateway.Models.{
  Account, Db, Kind, LedgerKey, LedgerTransaction, OrderStatus, OutboxEvent, PaymentOrder,
  PaymentRefund, RefundStatus, RiskReason, Topic, Wallet,
}
use kunlun_model_gateway.Ledger.{Entry, same_key, post_transaction}
use kunlun_model_gateway.Ledger.Sums.{amount_in}
use kunlun_model_gateway.Ledger.Wallets.{wallet_key}
use kunlun_model_gateway.Payments.Rows.{order_key, refund_row_key, is_order, is_refund}

pub data RiskAction : Type 0 where
  recover_available write_off : RiskAction

pub record RiskCall : Type 0 where
  pub refund_id : ℕ
  pub action : RiskAction
  pub idempotency_key : ℕ

-- The refund, whether the call was a repetition, the outstanding amount, and its two parts.
pub record RiskResult : Type 0 where
  pub refund : PaymentRefund
  pub duplicate : Bool
  pub outstanding : ℤ
  pub recovered : ℤ
  pub written_off : ℤ

abbrev pub expected_kind : RiskAction → Kind
expected_kind RiskAction.recover_available = Kind.refund_risk_recover
expected_kind RiskAction.write_off = Kind.refund_risk_write_off

abbrev pub is_expected : RiskAction → Kind → Bool
is_expected RiskAction.recover_available Kind.refund_risk_recover = true
is_expected RiskAction.write_off Kind.refund_risk_write_off = true
is_expected _ _ = false

abbrev pub is_risk_kind : Kind → Bool
is_risk_kind Kind.payment_refund_risk = true
is_risk_kind Kind.refund_risk_recover = true
is_risk_kind Kind.refund_risk_write_off = true
is_risk_kind _ = false

unfoldable pub find_posted : LedgerKey → List LedgerTransaction → Option LedgerTransaction
find_posted k [] = none
find_posted k (t ∷ ts) = elim (same_key t.idempotency_key k) [
  | true ↦ some t
  | false ↦ find_posted k ts
]

-- The sum of `platform_risk` over the risk transactions of an order.
unfoldable pub risk_net : ℕ → List LedgerTransaction → ℤ
risk_net order [] = pos 0
risk_net order (t ∷ ts) =
    (if (t.reference == order) && is_risk_kind t.kind
      then amount_in Account.platform_risk t.entries
      else pos 0)
    +ℤ risk_net order ts

abbrev pub risk_key : RiskCall → PaymentRefund → LedgerKey
risk_key q r = LedgerKey.refund_risk_disposition r.id q.idempotency_key

-- A disposition that is in the journal is reported from its entries.
unfoldable pub repeat_disposition :
    RiskCall → PaymentRefund → LedgerTransaction → Db → Result (RiskResult × Db)
repeat_disposition q r t db = do
  guard (is_expected q.action t.kind) (payment_domain 409)
  let recovered = pos 0 -ℤ amount_in Account.customer_available t.entries
  let written_off = pos 0 -ℤ amount_in Account.platform_loss t.entries
  ok (
    record {
      refund = r;
      duplicate = true;
      outstanding = recovered +ℤ written_off;
      recovered = recovered;
      written_off = written_off;
    },
    db,
  )

-- `if amount: entries.append(entry)`.
unfoldable pub entry_if : ℕ → Entry → List Entry → List Entry
entry_if amount entry rest = if amount == 0 then rest else entry ∷ rest

unfoldable pub disposition_entries : ℕ → ℕ → List Entry
disposition_entries outstanding recovered =
    (Account.platform_risk, pos outstanding)
    ∷ entry_if recovered (Account.customer_available, neg recovered)
        (entry_if (outstanding - recovered) (Account.platform_loss, neg (outstanding - recovered))
          [])

abbrev pub recovered_of : RiskAction → ℕ → ℕ → ℕ
recovered_of RiskAction.recover_available balance outstanding = outstanding
recovered_of RiskAction.write_off balance outstanding = min balance outstanding

abbrev pub can_recover : RiskAction → ℕ → ℕ → Bool
can_recover RiskAction.recover_available balance outstanding = leb outstanding balance
can_recover RiskAction.write_off balance outstanding = true

abbrev clear_reason : Option RiskReason → Option RiskReason
clear_reason (some RiskReason.refund_balance_insufficient) = none
clear_reason reason = reason

unfoldable pub new_disposition : RiskCall → PaymentRefund → Db → Result (RiskResult × Db)
new_disposition q r db = do
  guard (is_refund r.status RefundStatus.risk) (payment_domain 409)
  o ← require (find order_key r.order_id db.orders) (payment_domain 409)
  guard (is_order o.status OrderStatus.refunded) (payment_domain 409)
  let outstanding = neg_part (risk_net r.order_id db.ledger)
  guard (ltb 0 outstanding) (payment_domain 409)
  w ← require (find wallet_key r.user_id db.wallets) (payment_domain 500)
  guard (w.reserved_microusd == 0) (payment_domain 409)
  guard (can_recover q.action w.balance_microusd outstanding) (payment_domain 409)
  let recovered = recovered_of q.action w.balance_microusd outstanding
  ledger ←
      post_transaction r.user_id (expected_kind q.action) r.order_id (risk_key q r)
        (disposition_entries outstanding recovered) db.ledger
  let r' : PaymentRefund = record r {
    status = RefundStatus.resolved;
    risk_reason = some (
        if outstanding - recovered == 0
        then RiskReason.resolved_recovered
        else RiskReason.resolved_written_off);
  }
  ok (
    record {
      refund = r';
      duplicate = false;
      outstanding = pos outstanding;
      recovered = pos recovered;
      written_off = pos (outstanding - recovered);
    },
    record db {
      wallets =
          put wallet_key (record w { balance_microusd = w.balance_microusd - recovered })
            db.wallets;
      ledger = ledger;
      refunds = put refund_row_key r' db.refunds;
      orders = put order_key (record o { risk_reason = clear_reason o.risk_reason }) db.orders;
      outbox = (record { topic = Topic.refund_risk_resolved; reference = r.id }) ∷ db.outbox;
    },
  )

unfoldable pub dispose :
    RiskCall → PaymentRefund → Option LedgerTransaction → Db → Result (RiskResult × Db)
dispose q r none db = new_disposition q r db
dispose q r (some t) db = repeat_disposition q r t db

-- The database is the one that the caller commits, with its audit row.
unfoldable pub resolve_refund_risk : RiskCall → Db → Result (RiskResult × Db)
resolve_refund_risk q db = do
  r ← require (find refund_row_key q.refund_id db.refunds) (payment_domain 404)
  dispose q r (find_posted (risk_key q r) db.ledger) db
