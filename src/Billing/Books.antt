-- ===== src/Billing/Books.antt =====
-- Calls of app/services that move no money.
use kunlun_model_gateway.Base.{◌≡◌, refl}
use kunlun_model_gateway.Models.{Db}
use kunlun_model_gateway.Billing.Invariant.{IsSound}
use kunlun_model_gateway.Payments.Money.{same_money}

-- Wallets, journal, budgets and requests are the same.
pub record SameBooks (db db' : Db) : Type 0 where
  pub wallets : db'.wallets ≡ db.wallets
  pub ledger : db'.ledger ≡ db.ledger
  pub budgets : db'.budgets ≡ db.budgets
  pub requests : db'.requests ≡ db.requests

pub SameBooks-IsSound : {db db' : Db} → SameBooks db db' → IsSound db → IsSound db'
SameBooks-IsSound {db} {db'} s inv = same_money db db' s.wallets s.ledger s.requests s.budgets inv

pub SameBooks-refl : (db : Db) → SameBooks db db
SameBooks-refl db = record { wallets = refl; ledger = refl; budgets = refl; requests = refl }
