-- ===== src/Operators/Reconcile/Waiting.antt =====
-- What `mark_pending_reconciliation` of app/services/gateway_billing.py leaves for an operator.
use kunlun_model_gateway.Base.{◌≡◌, refl, false}
use kunlun_model_gateway.Base.Table.{find-put_self}
use kunlun_model_gateway.Models.{Db, LedgerKey}
use kunlun_model_gateway.Ledger.{is_posted}
use kunlun_model_gateway.Billing.Holds.{request_key}
use kunlun_model_gateway.Billing.Reserve.Opened.{IsOpened}
use kunlun_model_gateway.Billing.Release.{
  PendingCall, pending_request, mark_found, mark_pending_reconciliation,
}
use kunlun_model_gateway.Operators.Reconcile.Total.{IsWaiting}

-- A request that the reservation has opened, and whose settlement is not booked, waits for an
-- operator once it is handed over.
pub mark_pending-IsWaiting :
    (q : PendingCall) (db : Db) (opened : IsOpened q.request_id db)
    → is_posted (LedgerKey.model_settle opened.request.id) db.ledger ≡ false
    → IsWaiting q.request_id (pending_request q opened.request) (mark_pending_reconciliation q db)
unfolding mark_pending_reconciliation mark_found
mark_pending-IsWaiting q db opened unsettled =
    rw (opened.request_found, opened.reserved)
      (record {
        owner = opened.owner;
        request_found =
            find-put_self request_key (pending_request q opened.request) opened.request q.request_id
              db.requests opened.request_found refl;
        handed_over = refl;
        positive = opened.positive;
        owner_found = opened.owner_found;
        budget_found = opened.budget_found;
        unsettled = unsettled;
        unreleased = opened.unreleased;
      })
