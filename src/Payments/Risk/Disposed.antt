-- ===== src/Payments/Risk/Disposed.antt =====
-- What a disposition of risk settles (app/services/payment_domain.py, `resolve_refund_risk`).
use kunlun_model_gateway.Base.{
  ℕ, ◌-◌, ◌≤◌, ◌<◌, ◌≡◌, refl, true, false, Option, none, some, arith, ◌==◌,
}
use kunlun_model_gateway.Base.Int.{ℤ, pos, neg, neg_part, ◌+ℤ◌, int_laws}
use kunlun_model_gateway.Base.Result.{
  ok, Ensures, Ensures-ok, Ensures-call, Ensures-guard, Ensures-require,
}
use kunlun_model_gateway.Base.Table.{find, find-put_self}
use kunlun_model_gateway.Models.{
  Account, Db, LedgerTransaction, PaymentRefund, RefundStatus, Wallet,
}
use kunlun_model_gateway.Ledger.Sums.{amount_in, amount_in-nonzero}
use kunlun_model_gateway.Ledger.Accept.{post_transaction-added}
use kunlun_model_gateway.Ledger.Wallets.{wallet_key}
use kunlun_model_gateway.Payments.Rows.{refund_row_key}
use kunlun_model_gateway.Payments.Risk.Sound.{amount_in-entry, recovered_bound}
use kunlun_model_gateway.Payments.Risk.{
  RiskAction, RiskCall, RiskResult, recovered_of, disposition_entries, expected_kind, is_risk_kind,
  risk_key, risk_net, new_disposition, repeat_disposition, dispose, resolve_refund_risk,
}

-- A disposition that was made by this call.
pub record Disposed (q : RiskCall) (db : Db) (x : RiskResult) (db' : Db) : Type 0 where
  pub refund : PaymentRefund
  pub wallet : Wallet
  pub amount : ℕ
  pub recovered : ℕ
  pub refund_found : find refund_row_key q.refund_id db.refunds ≡ some refund
  pub wallet_found : find wallet_key refund.user_id db.wallets ≡ some wallet
  pub positive : 0 < amount
  pub outstanding_is : x.outstanding ≡ pos amount
  pub recovered_is : x.recovered ≡ pos recovered
  pub written_off_is : x.written_off ≡ pos (amount - recovered)
  pub within : recovered ≤ amount
  pub covered : recovered ≤ wallet.balance_microusd
  pub before : risk_net refund.order_id db.ledger ≡ neg amount
  pub after : risk_net refund.order_id db'.ledger ≡ pos 0
  pub wallet_written :
      find wallet_key refund.user_id db'.wallets
      ≡ some (record wallet { balance_microusd = wallet.balance_microusd - recovered })
  pub resolved : x.refund.status ≡ RefundStatus.resolved
  pub refund_written : find refund_row_key q.refund_id db'.refunds ≡ some x.refund

abbrev Disposes : RiskCall → Db → RiskResult × Db → Type 0
Disposes q db x = x.0.duplicate ≡ false → Disposed q db x.0 x.1

disposition_risk :
    (out rec : ℕ) → amount_in Account.platform_risk (disposition_entries out rec) ≡ pos out
unfolding disposition_entries amount_in
disposition_risk out rec = simp (amount_in-entry) (omega int_laws)

expected_risk : (a : RiskAction) → is_risk_kind (expected_kind a) ≡ true
expected_risk RiskAction.recover_available = refl
expected_risk RiskAction.write_off = refl

negative : (x : ℤ) → 0 < neg_part x → x ≡ neg (neg_part x)
negative x p = ground arith

same_nat : (n : ℕ) → (n == n) ≡ true
same_nat n = ground arith

cancel : (n : ℕ) (x : ℤ) → x ≡ neg n → pos n +ℤ x ≡ pos 0
unfolding ◌+ℤ◌
cancel n x e = rw e (ground arith)

module _ (q : RiskCall) (db : Db) (r : PaymentRefund)
    (here : find refund_row_key q.refund_id db.refunds ≡ some r) where
  new_disposition-Disposes : Ensures (Disposes q db) (new_disposition q r db)
  unfolding new_disposition risk_net
  new_disposition-Disposes = Ensures-guard _ _ _ λ _. Ensures-require _ _ _ λ o _.
      Ensures-guard _ _ _ λ _. Ensures-guard _ _ _ λ some_risk. Ensures-require _ _ _ λ w there.
        Ensures-guard _ _ _ λ _. Ensures-guard _ _ _ λ can.
          let out = neg_part (risk_net r.order_id db.ledger) in
          let n = recovered_of q.action w.balance_microusd out in
          let bound = recovered_bound q.action w.balance_microusd out can in
          let positive : 0 < out = ground arith in
          let before = negative (risk_net r.order_id db.ledger) positive in
          Ensures-call _ _
            (post_transaction-added r.user_id (expected_kind q.action) r.order_id (risk_key q r)
              (disposition_entries out n) db.ledger)
            λ ledger added. Ensures-ok _ (λ _. record {
              refund = r;
              wallet = w;
              amount = out;
              recovered = n;
              refund_found = here;
              wallet_found = there;
              positive = positive;
              outstanding_is = refl;
              recovered_is = refl;
              written_off_is = refl;
              within = bound.1;
              covered = bound.0;
              before = before;
              after =
                  rw
                    (
                      added,
                      same_nat r.order_id,
                      expected_risk q.action,
                      amount_in-nonzero,
                      disposition_risk,
                    )
                    (cancel out _ before);
              wallet_written = find-put_self wallet_key _ w r.user_id db.wallets there refl;
              resolved = refl;
              refund_written = find-put_self refund_row_key _ r q.refund_id db.refunds here refl;
            })

  dispose-Disposes : (t : Option LedgerTransaction) → Ensures (Disposes q db) (dispose q r t db)
  unfolding dispose repeat_disposition
  dispose-Disposes none = new_disposition-Disposes
  dispose-Disposes (some t) = Ensures-guard _ _ _ λ _. Ensures-ok _ (λ e. absurd (cc))

-- A disposition that is no repetition settles the whole risk of the order: what was outstanding in
-- `platform_risk` is split into a recovered part, which the balance covers and loses, and a part
-- written off; the sum of `platform_risk` over the order's risk transactions is then zero, and the
-- refund is resolved.
pub resolve_refund_risk-Disposed :
    (q : RiskCall) (db : Db) (x : RiskResult) (db' : Db)
    → x.duplicate ≡ false
    → resolve_refund_risk q db ≡ ok (x, db')
    → Disposed q db x db'
unfolding resolve_refund_risk
resolve_refund_risk-Disposed q db x db' new e =
    (Ensures-require {P = Disposes q db} _ _ _ λ r here. dispose-Disposes q db r here _).returned
      (x, db') e new
