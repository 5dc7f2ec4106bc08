-- ===== src/Payments/Refunds/Sound.antt =====
-- Refunds keep the database sound (app/services/payment_domain.py, `apply_refund`).
use Prim.Native.Nat.{min}
use kunlun_model_gateway.Base.{
  ℕ, ◌-◌, ◌≤◌, ◌≡◌, refl, Option, none, some, List, arith, le_of_leb, eq_option,
}
use kunlun_model_gateway.Base.Int.{pos, neg, ◌+ℤ◌}
use kunlun_model_gateway.Payments.Rows.{is_terminal_refund}
use kunlun_model_gateway.Base.Result.{
  guard, payment_domain, ◌>>◌, ok, Ensures, Ensures-ok, Ensures-bind, Ensures-call, Ensures-guard,
  Ensures-require, Ensures-if,
}
use kunlun_model_gateway.Base.Table.{find}
use kunlun_model_gateway.Models.{Account, Db, Kind, LedgerKey, PaymentOrder, PaymentRefund, Wallet}
use kunlun_model_gateway.Ledger.Sums.{amount_in}
use kunlun_model_gateway.Ledger.Post.{post_transaction-Posted}
use kunlun_model_gateway.Ledger.Wallets.{wallet_key}
use kunlun_model_gateway.Billing.Invariant.{IsSound}
use kunlun_model_gateway.Payments.Money.{move-IsSound, balance-Moves, debit_sum}
use kunlun_model_gateway.Payments.Freeze.{apply_user_freeze, freeze_found}
use kunlun_model_gateway.Payments.Refunds.{
  RefundCall, refund_entries, shortfall_entries, refund_whole, refund_short, complete_refund,
  apply_found, apply_refund,
}

pub freeze-IsSound : (u now : ℕ) (db : Db) → IsSound db → IsSound (apply_user_freeze u now db).1
unfolding apply_user_freeze freeze_found
freeze-IsSound u now db inv = found _
  where
    found : (o : _) → IsSound (freeze_found u now o db).1
    found none = inv
    found (some user) = record {
      journal = inv.journal;
      reconciled = inv.reconciled;
      held = inv.held;
      budgeted = inv.budgeted;
    }

pub freeze-wallets : (u now : ℕ) (db : Db) → (apply_user_freeze u now db).1.wallets ≡ db.wallets
unfolding apply_user_freeze freeze_found
freeze-wallets u now db = found _
  where
    found : (o : _) → (freeze_found u now o db).1.wallets ≡ db.wallets
    found none = refl
    found (some user) = refl

refund_sums :
    (c : ℕ)
    → (amount_in Account.customer_available (refund_entries c) ≡ neg c)
      × (amount_in Account.customer_reserved (refund_entries c) ≡ pos 0)
unfolding amount_in ◌+ℤ◌
refund_sums c = (ground arith, ground arith)

shortfall_sums :
    (r c : ℕ)
    → (amount_in Account.customer_available (shortfall_entries r c) ≡ neg r)
      × (amount_in Account.customer_reserved (shortfall_entries r c) ≡ pos 0)
unfolding amount_in ◌+ℤ◌
shortfall_sums r c = (ground arith, ground arith)

module _ (q : RefundCall) (o : PaymentOrder) (r : PaymentRefund) (refunds : List PaymentRefund)
    (w : Wallet) (db : Db) (inv : IsSound db)
    (here : find wallet_key o.user_id db.wallets ≡ some w) where
  refund_whole-IsSound :
      o.credit_amount_microusd ≤ w.balance_microusd
      → Ensures (λ (x : PaymentRefund × Db). IsSound x.1) (refund_whole q o r refunds w db)
  unfolding refund_whole
  refund_whole-IsSound enough =
      let c = o.credit_amount_microusd in
      Ensures-call _ _
        (post_transaction-Posted o.user_id Kind.payment_refund o.id (LedgerKey.refund r.id)
          (refund_entries c) db.ledger)
        λ ledger posted.
          let moved =
            move-IsSound db w (record w { balance_microusd = w.balance_microusd - c }) inv posted
              (balance-Moves _ w _ (neg c) (refund_sums c).0 (refund_sums c).1
                (debit_sum c _ enough))
              refl here in
          Ensures-ok _ (record {
            journal = moved.journal;
            reconciled = moved.reconciled;
            held = moved.held;
            budgeted = moved.budgeted;
          })

  refund_short-IsSound :
      Ensures (λ (x : PaymentRefund × Db). IsSound x.1) (refund_short q o r refunds w db)
  unfolding refund_short
  refund_short-IsSound =
      let c = o.credit_amount_microusd in
      let n = min w.balance_microusd c in
      let frozen = (apply_user_freeze o.user_id q.now db).1 in
      Ensures-call _ _
        (post_transaction-Posted o.user_id Kind.payment_refund_risk o.id
          (LedgerKey.refund_risk r.id) (shortfall_entries n c) frozen.ledger)
        λ ledger posted.
          let moved =
            move-IsSound frozen w (record w { balance_microusd = w.balance_microusd - n })
              (freeze-IsSound o.user_id q.now db inv) posted
              (balance-Moves _ w _ (neg n) (shortfall_sums n c).0 (shortfall_sums n c).1
                (debit_sum n _ (omega arith)))
              refl (rw (freeze-wallets o.user_id q.now db) here) in
          Ensures-ok _ (record {
            journal = moved.journal;
            reconciled = moved.reconciled;
            held = moved.held;
            budgeted = moved.budgeted;
          })

complete_refund-IsSound :
    (q : RefundCall) (o : PaymentOrder) (existing : Option PaymentRefund) (db : Db)
    → IsSound db
    → Ensures (λ (x : PaymentRefund × Db). IsSound x.1) (complete_refund q o existing db)
unfolding complete_refund
complete_refund-IsSound q o existing db inv = Ensures-guard _ _ _ λ _.
    Ensures-require _ _ _ λ amount _. Ensures-require _ _ _ λ currency _.
      Ensures-bind _ _ λ opened _. Ensures-require _ _ _ λ w here. Ensures-guard _ _ _ λ _.
        Ensures-if _ _ _
          (λ enough.
            refund_whole-IsSound q o opened.0 opened.1 w db inv here (le_of_leb _ _ enough))
          (λ _. refund_short-IsSound q o opened.0 opened.1 w db inv here)

apply_found-IsSound :
    (q : RefundCall) (o : PaymentOrder) (existing : Option PaymentRefund) (db : Db)
    → IsSound db
    → Ensures (λ (x : PaymentRefund × Db). IsSound x.1) (apply_found q o existing db)
unfolding apply_found
apply_found-IsSound q o none db inv = complete_refund-IsSound q o none db inv
apply_found-IsSound q o (some r) db inv =
    Ensures-if (is_terminal_refund r.status)
      (guard (eq_option r.provider_refund_id (some q.provider_refund_id)) (payment_domain 409)
        >> ok (r, db))
      _ (λ _. Ensures-guard _ _ _ λ _. Ensures-ok _ inv)
      (λ _. complete_refund-IsSound q o (some r) db inv)

pub apply_refund-Ensures :
    (q : RefundCall) (db : Db)
    → IsSound db
    → Ensures (λ (x : PaymentRefund × Db). IsSound x.1) (apply_refund q db)
unfolding apply_refund
apply_refund-Ensures q db inv = Ensures-require _ _ _ λ o _. apply_found-IsSound q o _ db inv

-- A refund that returns, whole or short with its freeze, keeps the database sound: the credit that
-- it takes from the balance is what its journal entries take from it.
pub apply_refund-IsSound :
    (q : RefundCall) (db : Db) (r : PaymentRefund) (db' : Db)
    → IsSound db
    → apply_refund q db ≡ ok (r, db')
    → IsSound db'
apply_refund-IsSound q db r db' inv e = (apply_refund-Ensures q db inv).returned (r, db') e
