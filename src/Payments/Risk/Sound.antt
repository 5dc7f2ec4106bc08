-- ===== src/Payments/Risk/Sound.antt =====
-- Resolving a refund's risk keeps the database sound (app/services/payment_domain.py,
-- `resolve_refund_risk`).
use kunlun_model_gateway.Base.{
  ℕ, ◌-◌, ◌≤◌, ◌≡◌, refl, true, Option, none, some, List, ◌∷◌, le_of_leb, arith, if_elim, ==_iff,
  ◌==◌, sym,
}
use kunlun_model_gateway.Base.Int.{pos, neg, int_laws, neg_part}
use kunlun_model_gateway.Base.Result.{
  ok, Ensures, Ensures-ok, Ensures-call, Ensures-guard, Ensures-require,
}
use kunlun_model_gateway.Models.{Account, Db, LedgerTransaction, PaymentRefund}
use kunlun_model_gateway.Ledger.{Entry, is_account}
use kunlun_model_gateway.Ledger.Sums.{amount_in, zero_add, if_zero}
use kunlun_model_gateway.Ledger.Post.{post_transaction-Posted}
use kunlun_model_gateway.Billing.Invariant.{IsSound}
use kunlun_model_gateway.Payments.Money.{move-IsSound, balance-Moves, debit_sum}
use kunlun_model_gateway.Payments.Risk.{
  RiskAction, RiskCall, RiskResult, can_recover, recovered_of, disposition_entries, entry_if,
  expected_kind, risk_key, risk_net, new_disposition, repeat_disposition, dispose,
  resolve_refund_risk,
}

-- Leaving out an entry of amount zero changes no sum.
pub amount_in-entry :
    (a b : Account) (n : ℕ) (es : List Entry)
    → amount_in a (entry_if n (b, neg n) es) ≡ amount_in a ((b, neg n) ∷ es)
unfolding amount_in entry_if
amount_in-entry a b n es =
    if_elim (λ l. amount_in a l ≡ amount_in a ((b, neg n) ∷ es)) (n == 0) es ((b, neg n) ∷ es)
      (λ z. sym (
        zero_add _ (amount_in a es)
          (if_zero (is_account b a) (neg n) (ground (arith, (==_iff n 0).0 z)))))
      (λ _. refl)

disposition_available :
    (out rec : ℕ) → amount_in Account.customer_available (disposition_entries out rec) ≡ neg rec
unfolding disposition_entries amount_in
disposition_available out rec = simp (amount_in-entry) (omega int_laws)

disposition_held :
    (out rec : ℕ) → amount_in Account.customer_reserved (disposition_entries out rec) ≡ pos 0
unfolding disposition_entries amount_in
disposition_held out rec = simp (amount_in-entry) (omega int_laws)

-- What is recovered is in the wallet, and is outstanding.
pub recovered_bound :
    (a : RiskAction) (balance out : ℕ)
    → can_recover a balance out ≡ true
    → (recovered_of a balance out ≤ balance) × (recovered_of a balance out ≤ out)
recovered_bound RiskAction.recover_available balance out e = (le_of_leb _ _ e, omega arith)
recovered_bound RiskAction.write_off balance out e = (omega arith, omega arith)

module _ (q : RiskCall) (r : PaymentRefund) (db : Db) (inv : IsSound db) where
  new_disposition-IsSound : Ensures (λ (x : RiskResult × Db). IsSound x.1) (new_disposition q r db)
  unfolding new_disposition
  new_disposition-IsSound = Ensures-guard _ _ _ λ _. Ensures-require _ _ _ λ o _.
      Ensures-guard _ _ _ λ _. Ensures-guard _ _ _ λ _. Ensures-require _ _ _ λ w here.
        Ensures-guard _ _ _ λ _. Ensures-guard _ _ _ λ can.
          let out = neg_part (risk_net r.order_id db.ledger) in
          let n = recovered_of q.action w.balance_microusd out in
          let enough = (recovered_bound q.action w.balance_microusd out can).0 in
          Ensures-call _ _
            (post_transaction-Posted r.user_id (expected_kind q.action) r.order_id (risk_key q r)
              (disposition_entries out n) db.ledger)
            λ ledger posted.
              let moved =
                move-IsSound db w (record w { balance_microusd = w.balance_microusd - n }) inv
                  posted
                  (balance-Moves _ w _ (neg n) (disposition_available out n)
                    (disposition_held out n) (debit_sum n _ enough))
                  refl here in
              Ensures-ok _ (record {
                journal = moved.journal;
                reconciled = moved.reconciled;
                held = moved.held;
                budgeted = moved.budgeted;
              })

  dispose-IsSound :
      (t : Option LedgerTransaction)
      → Ensures (λ (x : RiskResult × Db). IsSound x.1) (dispose q r t db)
  unfolding dispose repeat_disposition
  dispose-IsSound none = new_disposition-IsSound
  dispose-IsSound (some t) = Ensures-guard _ _ _ λ _. Ensures-ok _ inv

-- Disposing of a refund's risk, by recovery or by writing it off, keeps the database sound.
pub resolve_refund_risk-IsSound :
    (q : RiskCall) (db : Db) (result : RiskResult) (db' : Db)
    → IsSound db
    → resolve_refund_risk q db ≡ ok (result, db')
    → IsSound db'
unfolding resolve_refund_risk
resolve_refund_risk-IsSound q db result db' inv e =
    (Ensures-require {P = λ (x : RiskResult × Db). IsSound x.1} _ _ _
        λ r _. dispose-IsSound q r db inv _).returned
      (result, db') e
