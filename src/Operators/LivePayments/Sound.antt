-- ===== src/Operators/LivePayments/Sound.antt =====
-- What `reconcile_live_payment` of app/__init__.py does to money.
use kunlun_model_gateway.Payments.Webhook.{EventType, PaymentStatus}
use kunlun_model_gateway.Base.{ℕ, ◌≡◌, refl, false, Bool, inl, inr, Option-cases, if_elim}
use kunlun_model_gateway.Base.Result.{
  Result, Ensures-ok, Ensures, Ensures-require, Ensures-guard, Ensures-bind, Error,
}
use kunlun_model_gateway.Models.{Db, BridgeStatus, PaymentOrder, RiskReason}
use kunlun_model_gateway.Operators.LivePayments.{
  PaymentReconcileCall, claim_order, note_order, unclaim_order, BridgePayment, note_found,
  unclaim_found, webhook_of, is_noted, apply_action, claim_action, ReconcileOutcome,
}
use kunlun_model_gateway.Billing.Books.{SameBooks, SameBooks-refl}
use kunlun_model_gateway.Payments.Webhook.Credit.{Credited}
use kunlun_model_gateway.Base.Table.{find}
use kunlun_model_gateway.Payments.{order_key}
use kunlun_model_gateway.Operators.Audited.{Ensures-add_action, with_action}

pub claim_order-SameBooks :
    (q : PaymentReconcileCall) (db : Db)
    → Ensures (λ (r : (PaymentOrder × PaymentOrder) × Db). SameBooks db r.1) (claim_order q db)
unfolding claim_order
claim_order-SameBooks q db = Ensures-require _ _ _ λ o here. Ensures-guard _ _ _ λ _.
    Ensures-bind _ _ λ o' opened. Ensures-guard _ _ _ λ _.
      Ensures-add_action (claim_action q o) db _
        (Ensures-ok _ (record { wallets = refl; ledger = refl; budgets = refl; requests = refl }))

pub note_order-SameBooks :
    (id : ℕ) (reason : RiskReason) (db : Db) → SameBooks db (note_order id reason db)
unfolding note_order note_found
note_order-SameBooks id reason db = elim (Option-cases (find order_key id db.orders)) [
  | inl gone ↦ rw gone (SameBooks-refl db)
  | inr (o, here) ↦ rw here (
      if_elim (SameBooks db) (is_noted o.status) _ _
        (λ _. record { wallets = refl; ledger = refl; budgets = refl; requests = refl })
        (λ _. SameBooks-refl db))
]

pub unclaim_order-SameBooks : (id : ℕ) (db : Db) → SameBooks db (unclaim_order id db)
unfolding unclaim_order unclaim_found
unclaim_order-SameBooks id db = elim (Option-cases (find order_key id db.orders)) [
  | inl gone ↦ rw gone (SameBooks-refl db)
  | inr (o, here) ↦
      rw here (record { wallets = refl; ledger = refl; budgets = refl; requests = refl })
]

-- What the last transaction does to the books: nothing, unless the provider says `paid` and the
-- event is no repetition; then it credits the order.
pub data Settles (q : PaymentReconcileCall) (a : BridgePayment) (db : Db) : Bool → Db → Type 0 where
  unmoved : {duplicate : Bool} {db' : Db} → SameBooks db db' → Settles q a db duplicate db'
  credited :
      {db' : Db} (staged applied : Db)
      → a.status ≡ BridgeStatus.paid
      → SameBooks db staged
      → Credited (webhook_of q a (EventType.payment_succeeded, PaymentStatus.paid)) staged applied
      → SameBooks applied db'
      → Settles q a db false db'

module _ (q : PaymentReconcileCall) (before : PaymentOrder) (a : BridgePayment) (db : Db) where
  abbrev staged : Db
  staged = with_action (apply_action q q.applying before a) db

  abbrev Ends : Result (Bool × Db) → Type 0
  Ends m = Ensures (λ (r : Bool × Db). Settles q a db r.0 r.1) m

-- What the route does to the books, from the database after the others' commits: nothing, or it
-- credits the order that the provider says is paid.
pub data Reconciled (q : PaymentReconcileCall) (db : Db) : ReconcileOutcome → Db → Type 0 where
  unmoved : {outcome : ReconcileOutcome} {db' : Db} → SameBooks db db' → Reconciled q db outcome db'
  credited :
      {db' : Db} (a : BridgePayment) (staged applied : Db)
      → a.status ≡ BridgeStatus.paid
      → SameBooks db staged
      → Credited (webhook_of q a (EventType.payment_succeeded, PaymentStatus.paid)) staged applied
      → SameBooks applied db'
      → Reconciled q db (ReconcileOutcome.applied a false) db'

abbrev HasReconciled : PaymentReconcileCall → Db → ReconcileOutcome × Db → Type 0
HasReconciled q db (outcome, db') = Reconciled q db outcome db'

-- How the route runs: its claim is refused, or it takes the claim, which moves no money, and
-- goes on from what the others have committed.
pub data Runs (q : PaymentReconcileCall) (others : Db → Db) (db : Db)
    : ReconcileOutcome × Db → Type 0 where
  refused : (e : Error) → Runs q others db (ReconcileOutcome.raised e, db)
  claimed :
      (claimed : Db) (outcome : ReconcileOutcome) (db' : Db)
      → SameBooks db claimed
      → Reconciled q (others claimed) outcome db'
      → Runs q others db (outcome, db')
