-- ===== src/Services/Reach.antt =====
-- No order of the transactions of app/services breaks the books.
use kunlun_model_gateway.Base.{refl, ℕ, Option, none, some}
use kunlun_model_gateway.Base.Result.{Ensures, Ensures-ok, Ensures-guard}
use kunlun_model_gateway.Models.{Db, ProviderAttempt, SafetyAudit}
use kunlun_model_gateway.Billing.Invariant.{IsSound}
use kunlun_model_gateway.Billing.NewBudget.{create_budget-IsSound}
use kunlun_model_gateway.Billing.Reserve.Sound.{reserve_model_request-IsSound}
use kunlun_model_gateway.Billing.Settle.Sound.{settle_model_request-IsSound}
use kunlun_model_gateway.Billing.Release.{record_attempt}
use kunlun_model_gateway.Billing.Release.Sound.{
  release_model_request-IsSound, mark_pending_reconciliation-IsSound,
}
use kunlun_model_gateway.Billing.Release.Sweep.{recover_stale-IsSound}
use kunlun_model_gateway.Payments.Money.{same_money}
use kunlun_model_gateway.Payments.Neutral.{
  create_order-Ensures, prepare_checkout-Ensures, prepare_refund-Ensures,
}
use kunlun_model_gateway.Payments.Refunds.Sound.{apply_refund-IsSound, freeze-IsSound}
use kunlun_model_gateway.Payments.Webhook.Sound.{apply_webhook-IsSound}
use kunlun_model_gateway.Payments.Risk.Sound.{resolve_refund_risk-IsSound}
use kunlun_model_gateway.Gateway.{add_audit, link_audit}
use kunlun_model_gateway.Services.{Step, Reaches}
use kunlun_model_gateway.Operators.Accounts.Lifted.{update_account_status-AccountChanged}
use kunlun_model_gateway.Operators.Reconcile.Closed.{reconcile_request-Reconciles}
use kunlun_model_gateway.Operators.Sound.{
  dispose_refund_risk-IsSound, apply_answer-IsSound, confirm_refund-IsSound,
}
use kunlun_model_gateway.Billing.Books.{SameBooks-IsSound}
use kunlun_model_gateway.Operators.LivePayments.Sound.{claim_order-SameBooks, note_order-SameBooks}
use kunlun_model_gateway.Operators.Refunds.Runs.{claim_refund-SameBooks, note_refund-SameBooks}

record_attempt-IsSound :
    (a : ProviderAttempt) (db : Db) → IsSound db → Ensures IsSound (record_attempt a db)
unfolding record_attempt
record_attempt-IsSound a db inv =
    Ensures-guard _ _ _ λ _. Ensures-ok _ (same_money db _ refl refl refl refl inv)

add_audit-IsSound : (a : SafetyAudit) (db : Db) → IsSound db → Ensures IsSound (add_audit a db)
unfolding add_audit
add_audit-IsSound a db inv =
    Ensures-guard _ _ _ λ _. Ensures-ok _ (same_money db _ refl refl refl refl inv)

link_audit-IsSound :
    (audit : Option ℕ) (request : ℕ) (db : Db) → IsSound db → IsSound (link_audit audit request db)
unfolding link_audit
link_audit-IsSound none request db inv = inv
link_audit-IsSound (some id) request db inv = same_money db _ refl refl refl refl inv

step-IsSound : {db db' : Db} → IsSound db → Step db db' → IsSound db'
step-IsSound {db} {db'} inv (Step.reserve q r e) = reserve_model_request-IsSound q db r db' inv e
step-IsSound {db} {db'} inv (Step.settle q r allowed e) =
    settle_model_request-IsSound q db r db' allowed inv e
step-IsSound {db} {db'} inv (Step.release q allowed final e) =
    release_model_request-IsSound q db db' allowed final inv e
step-IsSound {db} inv (Step.hand_over q) = mark_pending_reconciliation-IsSound q db inv
step-IsSound {db} {db'} inv (Step.attempt a e) = (record_attempt-IsSound a db inv).returned db' e
step-IsSound {db} {db'} inv (Step.sweep lease now n e) =
    (recover_stale-IsSound lease now db n db' inv e).0
step-IsSound {db} {db'} inv (Step.budget q b e) = create_budget-IsSound q db b db' inv e
step-IsSound {db} {db'} inv (Step.order q o e) = (create_order-Ensures db inv q).returned (o, db') e
step-IsSound {db} {db'} inv (Step.checkout id now lease c e) =
    (prepare_checkout-Ensures db inv id now lease).returned (c, db') e
step-IsSound {db} {db'} inv (Step.refund_claim q r e) =
    (prepare_refund-Ensures db inv q).returned (r, db') e
step-IsSound {db} {db'} inv (Step.refund q r e) = apply_refund-IsSound q db r db' inv e
step-IsSound {db} {db'} inv (Step.webhook q d e) = apply_webhook-IsSound q db d db' inv e
step-IsSound {db} {db'} inv (Step.risk q r e) = resolve_refund_risk-IsSound q db r db' inv e
step-IsSound {db} {db'} inv (Step.audit a e) = (add_audit-IsSound a db inv).returned db' e
step-IsSound {db} inv (Step.link audit request) = link_audit-IsSound audit request db inv
step-IsSound {db} inv (Step.freeze user now) = freeze-IsSound user now db inv
step-IsSound {db} {db'} inv (Step.account q r e) =
    (update_account_status-AccountChanged q db r db' e).sound inv
step-IsSound {db} {db'} inv (Step.reconcile q r e) =
    (reconcile_request-Reconciles q db r db' inv e).sound
step-IsSound {db} {db'} inv (Step.disposition q r e) =
    (dispose_refund_risk-IsSound db inv q).returned (r, db') e
step-IsSound {db} {db'} inv (Step.order_claim q r e) =
    SameBooks-IsSound ((claim_order-SameBooks q db).returned (r, db') e) inv
step-IsSound {db} inv (Step.order_note id reason) =
    SameBooks-IsSound (note_order-SameBooks id reason db) inv
step-IsSound {db} {db'} inv (Step.order_answer q o a event d e) =
    (apply_answer-IsSound db inv q o a event).returned (d, db') e
step-IsSound {db} {db'} inv (Step.refund_call_claim q r e) =
    SameBooks-IsSound ((claim_refund-SameBooks q db).returned (r, db') e) inv
step-IsSound {db} inv (Step.refund_note order refund order_reason reason) =
    SameBooks-IsSound (note_refund-SameBooks order refund order_reason reason db) inv
step-IsSound {db} {db'} inv (Step.refund_confirm q id a r e) =
    (confirm_refund-IsSound db inv q id a).returned (r, db') e

Reaches-Sound : {db db' : Db} → IsSound db → Reaches db db' → IsSound db'
Reaches-Sound inv Reaches.start = inv
Reaches-Sound inv (Reaches.next before step) = step-IsSound (Reaches-Sound inv before) step

-- Every database that the services reach from a sound one, by committed transactions of any kind
-- and in any order, is sound: its journal is double-entry with unique keys, every wallet shows the
-- journal's sums, the reserved amounts of wallets and budgets are what the open requests hold, and
-- every budget is within its limit.
pub Reaches-IsSound : (db db' : Db) → IsSound db → Reaches db db' → IsSound db'
Reaches-IsSound db db' inv history = Reaches-Sound inv history
