-- ===== src/Operators/Refunds/Runs.antt =====
-- What `refund_live_payment` of app/__init__.py does to money.
use kunlun_model_gateway.Base.{ℕ, ◌≡◌, refl, false, Bool, some, none, Option, List}
use kunlun_model_gateway.Base.Result.{
  Result, ok, Error, Ensures, Ensures-guard, Ensures-require, Ensures-ok, Ensures-err,
}
use kunlun_model_gateway.Payments.Refunds.{
  RefundCommand, prepare_existing, prepare_found, prepare_refund, prepare_new, reclaim,
  apply_refund,
}
use kunlun_model_gateway.Operators.Refunds.{
  claim_refund, LiveRefundCall, is_requested, RefundOutcome, note_refund, BridgeRefund, refund_call,
  refund_action,
}
use kunlun_model_gateway.Models.{Db, PaymentRefund, RiskReason, RefundStatus, BridgeStatus}
use kunlun_model_gateway.Base.Table.{find}
use kunlun_model_gateway.Billing.Books.{SameBooks, SameBooks-refl}
use kunlun_model_gateway.Payments.{refund_row_key}
use kunlun_model_gateway.Operators.Audited.{Ensures-as_http, with_action}
use kunlun_model_gateway.Operators.LivePayments.{BridgeAnswer}

module _ (q : RefundCommand) (db : Db) where
  abbrev SameAfter : Result ((PaymentRefund × Bool) × Db) → Type 0
  SameAfter m = Ensures (λ (x : (PaymentRefund × Bool) × Db). SameBooks db x.1) m

  prepare_existing-SameBooks :
      (r : PaymentRefund) (s : RefundStatus) → SameAfter (prepare_existing q r s db)
  unfolding prepare_existing reclaim
  prepare_existing-SameBooks r RefundStatus.refunded = Ensures-ok _ (SameBooks-refl db)
  prepare_existing-SameBooks r RefundStatus.risk = Ensures-ok _ (SameBooks-refl db)
  prepare_existing-SameBooks r RefundStatus.requesting =
      Ensures-guard _ _ _ λ _.
        Ensures-ok _ (record { wallets = refl; ledger = refl; budgets = refl; requests = refl })
  prepare_existing-SameBooks r RefundStatus.retrying =
      Ensures-guard _ _ _ λ _.
        Ensures-ok _ (record { wallets = refl; ledger = refl; budgets = refl; requests = refl })
  prepare_existing-SameBooks r RefundStatus.pending_reconciliation =
      Ensures-ok _ (record { wallets = refl; ledger = refl; budgets = refl; requests = refl })
  prepare_existing-SameBooks r RefundStatus.resolved = Ensures-err _

  prepare_found-SameBooks : (r : Option PaymentRefund) → SameAfter (prepare_found q r db)
  unfolding prepare_found prepare_new
  prepare_found-SameBooks none = Ensures-require _ _ _ λ o _. Ensures-guard _ _ _ λ _.
      Ensures-require _ _ _ λ amount _. Ensures-require _ _ _ λ currency _. Ensures-guard _ _ _ λ _.
        Ensures-ok _ (record { wallets = refl; ledger = refl; budgets = refl; requests = refl })
  prepare_found-SameBooks (some r) = prepare_existing-SameBooks r r.status

  prepare_refund-SameBooks : SameAfter (prepare_refund q db)
  unfolding prepare_refund
  prepare_refund-SameBooks = Ensures-guard _ _ _ λ _. prepare_found-SameBooks _

pub claim_refund-SameBooks :
    (q : LiveRefundCall) (db : Db)
    → Ensures (λ (x : (PaymentRefund × Bool) × Db). SameBooks db x.1) (claim_refund q db)
unfolding claim_refund
claim_refund-SameBooks q db =
    Ensures-require _ _ _
      λ o _. Ensures-guard _ _ _ λ _. Ensures-as_http _ (prepare_refund-SameBooks q.command db)

pub note_refund-SameBooks :
    (order refund : ℕ) (order_reason reason : RiskReason) (db : Db)
    → SameBooks db (note_refund order refund order_reason reason db)
unfolding note_refund
note_refund-SameBooks order refund order_reason reason db = record {
  wallets = refl;
  ledger = refl;
  budgets = refl;
  requests = refl;
}

-- The refund may be tried again at once: it is not in the hands of a caller.
abbrev pub IsReleased : ℕ → List PaymentRefund → Type 0
IsReleased id refunds =
    (r : PaymentRefund) → find refund_row_key id refunds ≡ some r → is_requested r.status ≡ false

-- How the route runs, by its outcome: nothing was claimed; the command was finished before; the
-- provider answered without confirming, or the bridge refused with its own error: no money has moved
-- and the command is released; the provider confirmed,
-- and the credit is taken back by `apply_refund`, with its audit row, and nothing else; or the call
-- failed in another way or that transaction was refused: no money has moved and the command keeps its
-- claim.
pub data RefundRuns (q : LiveRefundCall) (others : Db → Db) (db : Db)
    : RefundOutcome × Db → Type 0 where
  rejected : (e : Error) → RefundRuns q others db (RefundOutcome.raised e, db)
  finished :
      (r : PaymentRefund) (db' : Db)
      → SameBooks db db'
      → RefundRuns q others db (RefundOutcome.repeated r, db')
  unconfirmed :
      (r : PaymentRefund) (claimed db' : Db)
      → SameBooks db claimed
      → SameBooks (others claimed) db'
      → IsReleased r.id db'.refunds
      → RefundRuns q others db (RefundOutcome.unconfirmed, db')
  confirmed :
      (r : PaymentRefund) (claimed : Db) (a : BridgeRefund) (done : PaymentRefund) (db' : Db)
      → SameBooks db claimed
      → q.refund r ≡ BridgeAnswer.answered a
      → a.status ≡ BridgeStatus.refunded
      → apply_refund (refund_call q a) (with_action (refund_action q r.id) (others claimed))
        ≡ ok (done, db')
      → RefundRuns q others db (RefundOutcome.confirmed done, db')
  failed :
      (claimed : Db) (e : Error)
      → SameBooks db claimed
      → RefundRuns q others db (RefundOutcome.raised e, others claimed)
