-- ===== src/Operators/Reconcile/Closed.antt =====
-- What `reconcile_request` of app/__init__.py does to the request, the journal and the audit.
use kunlun_model_gateway.Base.{ℕ, ◌≡◌, refl, true, false, some, [], ◌∷◌, Bool}
use kunlun_model_gateway.Models.{Db, ModelRequest, RequestStatus, holds, is_request, is_among}
use kunlun_model_gateway.Operators.Reconcile.{
  ReconcileCall, ReconciliationAction, close_request, release_by_operator, settle_by_operator,
  ReconcileAnswer, reconcile_request, reconcile_action, reconcile_answer,
}
use kunlun_model_gateway.Billing.Release.{
  release_open, ReleaseCall, released_request, release_model_request, release_found,
}
use kunlun_model_gateway.Billing.Settle.{settle_model_request, SettleCall}
use kunlun_model_gateway.Base.Result.{
  Ensures, Ensures-require, Ensures-guard, Ensures-bind, Ensures-ok, ok, Ensures-call,
}
use kunlun_model_gateway.Billing.Invariant.{IsSound}
use kunlun_model_gateway.Base.Table.{find}
use kunlun_model_gateway.Billing.Holds.{request_key}
use kunlun_model_gateway.Billing.Settle.Outcome.{
  IsCharged, settle_model_request-charge, settled_closed,
}
use kunlun_model_gateway.Billing.Release.Sound.{release_model_request-IsSound}
use kunlun_model_gateway.Billing.Once.{release-written}
use kunlun_model_gateway.Billing.Settle.Sound.{settle_model_request-IsSound}
use kunlun_model_gateway.Operators.Audited.{
  Ensures-add_action, Ensures-as_http, with_action, with_action-IsSound,
}

release_open-actions :
    (q : ReleaseCall) (r : ModelRequest) (db : Db)
    → Ensures (λ (db' : Db). db'.actions ≡ db.actions) (release_open q r db)
unfolding release_open
release_open-actions q r db = Ensures-require _ _ _ λ wallet _.
    Ensures-guard _ _ _
      λ _. Ensures-bind _ _ λ budgets _. Ensures-bind _ _ λ ledger _. Ensures-ok _ refl

settle_model_request-actions :
    (q : SettleCall) (db : Db)
    → Ensures (λ (s : (ℕ × Bool) × Db). s.1.actions ≡ db.actions) (settle_model_request q db)
unfolding settle_model_request
settle_model_request-actions q db = Ensures-require _ _ _ λ r _. Ensures-guard _ _ _ λ _.
    Ensures-bind _ _ λ upstream _. Ensures-require _ _ _ λ wallet _.
      Ensures-guard _ _ _
        λ _. Ensures-bind _ _ λ budgets _. Ensures-bind _ _ λ ledger _. Ensures-ok _ refl

-- How the request is closed: given back whole, or charged for the reported usage.
pub data IsClosedBy (q : ReconcileCall) (db : Db) (r after : ModelRequest)
    : ReconciliationAction → Db → Type 0 where
  given_back :
      {db' : Db}
      → after ≡ released_request (release_by_operator q) r
      → IsClosedBy q db r after ReconciliationAction.release db'
  charged :
      {db' : Db} (result : ℕ × Bool)
      → IsCharged (settle_by_operator q r) db result db'
      → IsClosedBy q db r after ReconciliationAction.settle db'

pub record Closes (q : ReconcileCall) (r : ModelRequest) (db db' : Db) : Type 0 where
  pub after : ModelRequest
  pub sound : IsSound db'
  pub after_found : find request_key q.request_id db'.requests ≡ some after
  pub closed : holds after.status ≡ false
  pub closed_by : IsClosedBy q db r after q.payload.action db'
  pub actions_kept : db'.actions ≡ db.actions

module _ (q : ReconcileCall) (r : ModelRequest) (db : Db) (inv : IsSound db)
    (there : find request_key q.request_id db.requests ≡ some r)
    (among : is_among r.status (RequestStatus.pending_reconciliation ∷ []) ≡ true) where
  close_request-Closes :
      (a : ReconciliationAction)
      → q.payload.action ≡ a
      → Ensures (Closes q r db) (close_request q r a db)
  unfolding close_request release_model_request release_found
  close_request-Closes ReconciliationAction.release same = record {
    returned = λ db' e. record {
      after = released_request (release_by_operator q) r;
      sound = release_model_request-IsSound (release_by_operator q) db db' (refl, tt) refl inv e;
      after_found = release-written (release_by_operator q) r db db' there among e;
      closed = refl;
      closed_by = rw same (IsClosedBy.given_back refl);
      actions_kept =
          (release_open-actions (release_by_operator q) r db).returned db' (rw (there, among) at e);
    };
  }
  close_request-Closes ReconciliationAction.settle same = Ensures-bind _ _ λ (result, db') e.
      let c = settle_model_request-charge (settle_by_operator q r) db result db' e in
      Ensures-ok _ (record {
        after = c.after;
        sound =
            settle_model_request-IsSound (settle_by_operator q r) db result db' (refl, tt) inv e;
        after_found = c.after_found;
        closed = rw c.status_is (settled_closed _);
        closed_by = rw same (IsClosedBy.charged result c);
        actions_kept =
            (settle_model_request-actions (settle_by_operator q r) db).returned (result, db') e;
      })

is_pending :
    (s : RequestStatus)
    → is_request s RequestStatus.pending_reconciliation ≡ true
    → s ≡ RequestStatus.pending_reconciliation
is_pending RequestStatus.reserved e = absurd (cc)
is_pending RequestStatus.settled e = absurd (cc)
is_pending RequestStatus.under_reserved e = absurd (cc)
is_pending RequestStatus.failed e = absurd (cc)
is_pending RequestStatus.pending_reconciliation e = refl
is_pending RequestStatus.reconciled_released e = absurd (cc)

-- The request was handed over, and is closed now; the audit has one row more, and the answer is the
-- request's.
pub record Reconciles (q : ReconcileCall) (db : Db) (answer : ReconcileAnswer) (db' : Db)
    : Type 0 where
  pub request : ModelRequest
  pub after : ModelRequest
  pub request_found : find request_key q.request_id db.requests ≡ some request
  pub after_found : find request_key q.request_id db'.requests ≡ some after
  pub handed_over : request.status ≡ RequestStatus.pending_reconciliation
  pub closed : holds after.status ≡ false
  pub closed_by :
      IsClosedBy q (with_action (reconcile_action q request) db) request after q.payload.action db'
  pub audited : db'.actions ≡ reconcile_action q request ∷ db.actions
  pub answered : answer ≡ reconcile_answer (some after)
  pub sound : IsSound db'

-- When the route answers an operator, the request that was waiting for reconciliation is closed:
-- given back whole, or charged for the usage that the operator reports; exactly one audit row was
-- written, in the same transaction, the answer tells the request's new state, and a sound database
-- is sound again.
pub reconcile_request-Reconciles :
    (q : ReconcileCall) (db : Db) (answer : ReconcileAnswer) (db' : Db)
    → IsSound db
    → reconcile_request q db ≡ ok (answer, db')
    → Reconciles q db answer db'
unfolding reconcile_request
reconcile_request-Reconciles q db answer db' inv e =
    (Ensures-require {P = λ (s : ReconcileAnswer × Db). Reconciles q db s.0 s.1} _ _ _ λ r there.
        Ensures-guard _ _ _ λ waiting.
          let row = reconcile_action q r in
          Ensures-add_action row db _ (
            Ensures-call _ _
              (Ensures-as_http _ (
                close_request-Closes q r (with_action row db) (with_action-IsSound row db inv) there
                  (rw waiting refl) q.payload.action refl))
              λ closed c. Ensures-ok _ (record {
                request = r;
                after = c.after;
                request_found = there;
                after_found = c.after_found;
                handed_over = is_pending r.status waiting;
                closed = c.closed;
                closed_by = c.closed_by;
                audited = c.actions_kept;
                answered = rw c.after_found refl;
                sound = c.sound;
              }))).returned
      (answer, db') e
