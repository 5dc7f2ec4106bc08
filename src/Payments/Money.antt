-- ===== src/Payments/Money.antt =====
-- A payment moves a wallet's balance and never its reserved amount
-- (app/services/payment_domain.py).
use kunlun_model_gateway.Base.{ℕ, ◌+◌, ◌-◌, ◌≤◌, ◌≡◌, refl, some, List, arith}
use kunlun_model_gateway.Base.Int.{ℤ, pos, neg, ◌+ℤ◌}
use kunlun_model_gateway.Base.Table.{find, put, find_self}
use kunlun_model_gateway.Models.{Account, Db, LedgerKey, LedgerTransaction, Wallet}
use kunlun_model_gateway.Ledger.{Entry}
use kunlun_model_gateway.Ledger.Sums.{amount_in}
use kunlun_model_gateway.Ledger.Post.{Posted}
use kunlun_model_gateway.Ledger.Wallets.{wallet_key, Moves, write-IsReconciled}
use kunlun_model_gateway.Billing.Holds.{IsHeld-wallet}
use kunlun_model_gateway.Billing.Invariant.{IsSound}

-- Writing a wallet with the balance that the posted entries give keeps the database sound.
pub move-IsSound :
    {user : ℕ} {key : LedgerKey} {entries : List Entry} {ledger : List LedgerTransaction} (db : Db)
    (w w' : Wallet)
    → IsSound db
    → Posted user key entries db.ledger ledger
    → Moves entries w w'
    → w'.reserved_microusd ≡ w.reserved_microusd
    → find wallet_key user db.wallets ≡ some w
    → IsSound (record db { wallets = put wallet_key w' db.wallets; ledger = ledger })
move-IsSound {user} db w w' inv posted moves kept here = record {
  journal = posted.keeps inv.journal;
  reconciled = write-IsReconciled db.wallets posted moves here inv.reconciled;
  held =
      IsHeld-wallet inv.held w w' (find_self wallet_key user db.wallets w here) moves.same_user
        kept;
  budgeted = inv.budgeted;
}

-- The entries leave the reserved amount alone and change the balance by `up` and `down`.
pub balance-Moves :
    (entries : List Entry) (w : Wallet) (balance : ℕ) (x : ℤ)
    → amount_in Account.customer_available entries ≡ x
    → amount_in Account.customer_reserved entries ≡ pos 0
    → pos balance ≡ x +ℤ pos w.balance_microusd
    → Moves entries w (record w { balance_microusd = balance })
unfolding ◌+ℤ◌
balance-Moves entries w balance x available held sum = record {
  same_user = refl;
  available = rw available sum;
  held = rw held (ground arith);
}

pub credit_sum : (c b : ℕ) → pos (b + c) ≡ pos c +ℤ pos b
unfolding ◌+ℤ◌
credit_sum c b = ground arith

pub debit_sum : (c b : ℕ) → c ≤ b → pos (b - c) ≡ neg c +ℤ pos b
unfolding ◌+ℤ◌
debit_sum c b enough = ground arith

-- Writing other tables keeps what is said of wallets, journal, requests and budgets.
pub same_money :
    (db db' : Db)
    → db'.wallets ≡ db.wallets
    → db'.ledger ≡ db.ledger
    → db'.requests ≡ db.requests
    → db'.budgets ≡ db.budgets
    → IsSound db
    → IsSound db'
same_money db db' w l r b inv = record {
  journal = rw l inv.journal;
  reconciled = rw (w, l) inv.reconciled;
  held = rw (w, r) inv.held;
  budgeted = rw (b, r) inv.budgeted;
}
