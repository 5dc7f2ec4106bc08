-- ===== src/Operators/Sound.antt =====
-- The operator routes of app/__init__.py keep the books sound.
use kunlun_model_gateway.Base.{ℕ, refl, true, false, Bool}
use kunlun_model_gateway.Base.Result.{
  ok, Ensures, Ensures-ok, Ensures-bind, Ensures-catch, Ensures-call, ◌>>=◌,
}
use kunlun_model_gateway.Models.{Db, PaymentOrder, PaymentRefund, OperatorAction}
use kunlun_model_gateway.Billing.Invariant.{IsSound}
use kunlun_model_gateway.Operators.LivePayments.{
  apply_answer, PaymentReconcileCall, BridgePayment, audit_again, apply_action, webhook_of,
}
use kunlun_model_gateway.Operators.Refunds.{
  confirm_refund, dispose_refund_risk, LiveRefundCall, dispose_and_audit, BridgeRefund,
  DispositionCall, refund_action, disposition_action, refund_call,
}
use kunlun_model_gateway.Payments.Risk.{RiskResult}
use kunlun_model_gateway.Operators.Audited.{
  Ensures-as_http, Ensures-add_action, with_action-IsSound, with_action, as_http-ok,
}
use kunlun_model_gateway.Payments.Webhook.{EventType, PaymentStatus}
use kunlun_model_gateway.Payments.Refunds.Sound.{apply_refund-IsSound}
use kunlun_model_gateway.Payments.Risk.Sound.{resolve_refund_risk-IsSound}
use kunlun_model_gateway.Payments.Webhook.Sound.{apply_webhook-IsSound}
use kunlun_model_gateway.Billing.Books.{SameBooks-IsSound}
use kunlun_model_gateway.Operators.LivePayments.Sound.{unclaim_order-SameBooks}

module _ (db : Db) (inv : IsSound db) where
  pub dispose_refund_risk-IsSound :
      (q : DispositionCall)
      → Ensures (λ (x : RiskResult × Db). IsSound x.1) (dispose_refund_risk q db)
  unfolding dispose_refund_risk dispose_and_audit
  dispose_refund_risk-IsSound q = Ensures-catch _ _ (
      Ensures-as_http _ (
        Ensures-bind _ _ λ (x, db') e. Ensures-add_action (disposition_action q x.duplicate) db' _ (
          Ensures-ok _
            (with_action-IsSound _ db' (resolve_refund_risk-IsSound q.risk db x db' inv e)))))

  pub confirm_refund-IsSound :
      (q : LiveRefundCall) (id : ℕ) (a : BridgeRefund)
      → Ensures (λ (x : PaymentRefund × Db). IsSound x.1) (confirm_refund q id a db)
  unfolding confirm_refund
  confirm_refund-IsSound q id a =
      let row = refund_action q id in
      Ensures-add_action row db _ (
        Ensures-as_http _ (record {
          returned = λ (r, db') e.
              apply_refund-IsSound (refund_call q a) (with_action row db) r db'
                (with_action-IsSound row db inv) e;
        }))

  audit_again-IsSound :
      (duplicate : Bool) (row : OperatorAction) (after : Db)
      → IsSound after
      → Ensures IsSound (audit_again duplicate row db after)
  unfolding audit_again ◌>>=◌
  audit_again-IsSound true row after sound = record {
    returned = λ audited e.
        (Ensures-add_action {P = IsSound} row db ok
            (Ensures-ok _ (with_action-IsSound row db inv))).returned
          audited (rw e refl);
  }
  audit_again-IsSound false row after sound = Ensures-ok _ sound

  pub apply_answer-IsSound :
      (q : PaymentReconcileCall) (o : PaymentOrder) (a : BridgePayment)
      (event : EventType × PaymentStatus)
      → Ensures (λ (x : Bool × Db). IsSound x.1) (apply_answer q o a event db)
  unfolding apply_answer
  apply_answer-IsSound q o a event =
      let row = apply_action q q.applying o a in
      Ensures-add_action row db _ (
        Ensures-bind _ _ λ (duplicate, applied) e.
          Ensures-call _ _
            (audit_again-IsSound duplicate (apply_action q q.repeating o a) applied (
              apply_webhook-IsSound (webhook_of q a event) (with_action row db) duplicate applied
                (with_action-IsSound row db inv) (as_http-ok _ _ e)))
            λ audited sound.
              Ensures-ok _ (SameBooks-IsSound (unclaim_order-SameBooks q.order_id audited) sound))
