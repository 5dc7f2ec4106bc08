-- ===== src/Operators/Reconcile/Total.antt =====
-- An operator can close what was handed over (app/__init__.py, `reconcile_request`).
use kunlun_model_gateway.Base.{ℕ, ◌≡◌, refl, true, false, some, Option, ◌<◌, none}
use kunlun_model_gateway.Models.{Db, ModelRequest, RequestStatus, Wallet, LedgerKey, OperatorAction}
use kunlun_model_gateway.Operators.Reconcile.{
  ReconcileCall, ReconciliationAction, close_request, release_by_operator, settle_by_operator,
  reconcile_request, reconcile_action, cost_override,
}
use kunlun_model_gateway.Base.Result.{
  Returns, Returns-call, Returns-ok, Returns-require, Returns-guard,
}
use kunlun_model_gateway.Billing.Invariant.{IsSound}
use kunlun_model_gateway.Base.Table.{find}
use kunlun_model_gateway.Billing.Holds.{request_key}
use kunlun_model_gateway.Operators.Audited.{
  with_action, with_action-IsSound, Returns-add_action, Returns-as_http,
}
use kunlun_model_gateway.Operators.Actions.{has_action}
use kunlun_model_gateway.Billing.Settle.Total.{is_nonneg, RefersTo, settle_model_request-total}
use kunlun_model_gateway.Billing.Release.Total.{release_model_request-total}
use kunlun_model_gateway.Ledger.Wallets.{wallet_key}
use kunlun_model_gateway.Ledger.{is_posted}

cost_override_nonneg : (cost : Option ℕ) → is_nonneg (cost_override cost) ≡ true
cost_override_nonneg none = refl
cost_override_nonneg (some n) = refl

-- A request that was handed over: it holds a positive reservation, its wallet and budget are there,
-- and neither its settlement nor its release has been booked.
pub record IsWaiting (id : ℕ) (request : ModelRequest) (db : Db) : Type 0 where
  pub owner : Wallet
  pub request_found : find request_key id db.requests ≡ some request
  pub handed_over : request.status ≡ RequestStatus.pending_reconciliation
  pub positive : 0 < request.reserved_microusd
  pub owner_found : find wallet_key request.user_id db.wallets ≡ some owner
  pub budget_found : RefersTo request.budget_id db.budgets
  pub unsettled : is_posted (LedgerKey.model_settle request.id) db.ledger ≡ false
  pub unreleased : is_posted (LedgerKey.model_release request.id) db.ledger ≡ false

with_action-IsWaiting :
    (a : OperatorAction) {id : ℕ} {r : ModelRequest} {db : Db}
    → IsWaiting id r db
    → IsWaiting id r (with_action a db)
with_action-IsWaiting a waiting = record {
  owner = waiting.owner;
  request_found = waiting.request_found;
  handed_over = waiting.handed_over;
  positive = waiting.positive;
  owner_found = waiting.owner_found;
  budget_found = waiting.budget_found;
  unsettled = waiting.unsettled;
  unreleased = waiting.unreleased;
}

module _ (q : ReconcileCall) (r : ModelRequest) (db : Db) (inv : IsSound db)
    (waiting : IsWaiting q.request_id r db) where
  close_request-total : (a : ReconciliationAction) → Returns (close_request q r a db)
  unfolding close_request
  close_request-total ReconciliationAction.release =
      release_model_request-total (release_by_operator q) db r waiting.request_found waiting.owner
        inv (refl, tt) (rw waiting.handed_over refl) waiting.owner_found waiting.budget_found
        waiting.positive waiting.unreleased
  close_request-total ReconciliationAction.settle =
      Returns-call _ _
        (settle_model_request-total (settle_by_operator q r) db r waiting.owner inv (refl, tt)
          waiting.request_found (rw waiting.handed_over refl) waiting.owner_found
          waiting.budget_found waiting.positive waiting.unsettled
          (cost_override_nonneg q.payload.upstream_cost_microusd))
        λ result. Returns-ok _

-- In a sound database an operator can close a request that waits for reconciliation, by a release or
-- by a settlement, whatever usage and upstream cost the payload gives, when the request holds a
-- positive reservation, its wallet and its budget exist, neither its settlement nor its release is
-- booked, and the uuids of the audit row are new. (Numbers are unbounded: left out are the
-- OverflowError of a cost beyond the floats, and what the database refuses beyond BIGINT.)
pub reconcile_request-total :
    (q : ReconcileCall) (r : ModelRequest) (db : Db)
    → IsSound db
    → IsWaiting q.request_id r db
    → has_action (reconcile_action q r) db.actions ≡ false
    → Returns (reconcile_request q db)
unfolding reconcile_request
reconcile_request-total q r db inv waiting fresh =
    let row = reconcile_action q r in
    Returns-require _ _ _ r waiting.request_found (
      Returns-guard _ _ _ (rw waiting.handed_over refl) (
        Returns-add_action row db _ fresh (
          Returns-call _ _
            (Returns-as_http _ (
              close_request-total q r (with_action row db) (with_action-IsSound row db inv)
                (with_action-IsWaiting row waiting) q.payload.action))
            λ closed. Returns-ok _)))
