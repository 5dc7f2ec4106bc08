-- ===== src/Payments/Refunds/Booked.antt =====
-- What a refund books, and what freezing an account leaves as it is (app/services/payment_domain.py,
-- `apply_refund`; app/services/identity.py, `apply_user_freeze`).
use kunlun_model_gateway.Base.{ℕ, ◌-◌, ◌≡◌, ◌∙◌, refl, arith, none, some, List}
use kunlun_model_gateway.Base.Int.{ℤ, pos, neg, int_laws}
use kunlun_model_gateway.Models.{Account, Db}
use kunlun_model_gateway.Ledger.{Entry, nonzero}
use kunlun_model_gateway.Ledger.Sums.{amount_in, amount_in-nonzero}
use kunlun_model_gateway.Payments.Freeze.{apply_user_freeze, freeze_found}
use kunlun_model_gateway.Payments.Refunds.{refund_entries, shortfall_entries}

pub freeze-orders : (u now : ℕ) (db : Db) → (apply_user_freeze u now db).1.orders ≡ db.orders
unfolding apply_user_freeze freeze_found
freeze-orders u now db = found _
  where
    found : (o : _) → (freeze_found u now o db).1.orders ≡ db.orders
    found none = refl
    found (some user) = refl

pub freeze-ledger : (u now : ℕ) (db : Db) → (apply_user_freeze u now db).1.ledger ≡ db.ledger
unfolding apply_user_freeze freeze_found
freeze-ledger u now db = found _
  where
    found : (o : _) → (freeze_found u now o db).1.ledger ≡ db.ledger
    found none = refl
    found (some user) = refl

-- The entries take the credit out of circulation: what was recovered from the balance, and the rest
-- as the platform's risk.
pub record TakesBack (recovered credit : ℕ) (entries : List Entry) : Type 0 where
  pub available : amount_in Account.customer_available entries ≡ neg recovered
  pub risk : amount_in Account.platform_risk entries ≡ neg (credit - recovered)
  pub clearing : amount_in Account.platform_clearing entries ≡ pos credit
  pub loss : amount_in Account.platform_loss entries ≡ pos 0

no_risk : (x : ℤ) (n : ℕ) → x ≡ pos 0 → x ≡ neg (n - n)
no_risk x n e = let none_left : n - n ≡ 0 = omega arith in rw (none_left, e) refl

pub refund_entries-TakesBack :
    (credit : ℕ) → TakesBack credit credit (nonzero (refund_entries credit))
unfolding amount_in
refund_entries-TakesBack credit = record {
  available = amount_in-nonzero Account.customer_available (refund_entries credit) ∙ omega int_laws;
  risk =
      amount_in-nonzero Account.platform_risk (refund_entries credit)
      ∙ no_risk (amount_in Account.platform_risk (refund_entries credit)) credit (omega int_laws);
  clearing = amount_in-nonzero Account.platform_clearing (refund_entries credit) ∙ omega int_laws;
  loss = amount_in-nonzero Account.platform_loss (refund_entries credit) ∙ omega int_laws;
}

pub shortfall_entries-TakesBack :
    (recovered credit : ℕ)
    → TakesBack recovered credit (nonzero (shortfall_entries recovered credit))
unfolding amount_in
shortfall_entries-TakesBack recovered credit = record {
  available =
      amount_in-nonzero Account.customer_available (shortfall_entries recovered credit)
      ∙ omega int_laws;
  risk =
      amount_in-nonzero Account.platform_risk (shortfall_entries recovered credit) ∙ omega int_laws;
  clearing =
      amount_in-nonzero Account.platform_clearing (shortfall_entries recovered credit)
      ∙ omega int_laws;
  loss =
      amount_in-nonzero Account.platform_loss (shortfall_entries recovered credit) ∙ omega int_laws;
}
