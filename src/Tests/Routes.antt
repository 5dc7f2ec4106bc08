-- ===== src/Tests/Routes.antt =====
-- The operator routes of app/__init__.py, run on the small database.
use kunlun_model_gateway.Tests.Billing.{reserved, request, reserved-IsSound}
use kunlun_model_gateway.Base.{◌≡◌, refl, some, none, [], ◌∷◌, arith}
use kunlun_model_gateway.Base.Result.{ok, guard, require, ◌>>=◌, Returns}
use kunlun_model_gateway.Operators.Accounts.{
  AccountCall, update_account_status, AccountAction, change_status,
}
use kunlun_model_gateway.Operators.Accounts.Lifted.{
  AccountChanged, update_account_status-AccountChanged,
}
use kunlun_model_gateway.Models.{Db, RequestStatus, UserStatus, OrderStatus, BridgeStatus}
use kunlun_model_gateway.Operators.Refunds.{LiveRefundCall}
use kunlun_model_gateway.Operators.Actions.{Operation, has_action, add_action, as_http}
use kunlun_model_gateway.Operators.Tokens.{OperatorClaims}
use kunlun_model_gateway.Operators.LivePayments.{PaymentReconcileCall, BridgeAnswer}
use kunlun_model_gateway.Billing.Release.{
  PendingCall, mark_pending_reconciliation, mark_found, pending_request, release_model_request,
  release_found, release_open, release_budget,
}
use kunlun_model_gateway.Operators.Reconcile.{
  ReconcileAnswer, ReconcileCall, reconcile_request, ReconciliationAction, close_request,
}
use kunlun_model_gateway.Operators.Reconcile.Closed.{Reconciles, reconcile_request-Reconciles}
use kunlun_model_gateway.Operators.LivePayments.Sound.{Runs}
use kunlun_model_gateway.Base.Table.{find, put}
use kunlun_model_gateway.Json.{codes}
use kunlun_model_gateway.Tests.Data.{db, wallet}
use kunlun_model_gateway.Tests.Orders.{db_of, order}
use kunlun_model_gateway.Ledger.{is_posted, post_transaction, nonzero, entries_sum}
use kunlun_model_gateway.Payments.Freeze.{apply_user_freeze, freeze_found, count_active_keys}
use kunlun_model_gateway.Base.Int.{pos, ◌+ℤ◌}
use kunlun_model_gateway.Billing.Invariant.{IsSound}
use kunlun_model_gateway.Billing.Release.Sound.{mark_pending_reconciliation-IsSound}
use kunlun_model_gateway.Operators.Reconcile.Total.{IsWaiting, reconcile_request-total}

abbrev operator : OperatorClaims
operator = record {
  subject = codes "ann";
  scopes = codes "accounts:write" ∷ codes "reconciliation:write" ∷ [];
  issued_at = pos 5_900;
  expires_at = pos 6_200;
  token_id = codes "t1";
}

abbrev operation : Operation
operation = record {
  operator = operator;
  reason = codes "checked with the provider";
  id = 90;
  operation_id = 91;
  source_ip_digest = 92;
  now = 6_000;
}

abbrev lost_stream : PendingCall
lost_stream = record {
  request_id = 40;
  failure_category = codes "provider_stream_incomplete";
  provider = some 8;
  fallback_count = some 0;
  now = 2_030;
}

abbrev waiting : Db
waiting = record reserved { requests = pending_request lost_stream request ∷ [] }

waiting-IsSound : IsSound waiting
unfolding mark_pending_reconciliation mark_found find put
waiting-IsSound = mark_pending_reconciliation-IsSound lost_stream reserved reserved-IsSound

abbrev giving_back : ReconcileCall
giving_back = record {
  request_id = 40;
  payload = record {
    action = ReconciliationAction.release;
    input_tokens = none;
    output_tokens = none;
    upstream_cost_microusd = none;
  };
  operation = operation;
  operator_reconciled = 9;
  container_text = λ v. [];
}

abbrev answer : ReconcileAnswer
answer = record { status = some RequestStatus.reconciled_released; charged = 0; upstream_cost = 0 }

abbrev given_back : Db
given_back = db_of (reconcile_request giving_back waiting)

give_back_runs : reconcile_request giving_back waiting ≡ ok (answer, given_back)
unfolding reconcile_request add_action has_action as_http close_request release_model_request
    release_found release_open release_budget post_transaction nonzero entries_sum is_posted find
    put guard require ◌>>=◌ ◌+ℤ◌
give_back_runs = refl

reconcile_request-Reconciles_example : Reconciles giving_back waiting answer given_back
reconcile_request-Reconciles_example =
    reconcile_request-Reconciles giving_back waiting answer given_back waiting-IsSound
      give_back_runs

waiting-IsWaiting : IsWaiting 40 (pending_request lost_stream request) waiting
unfolding find is_posted
waiting-IsWaiting = record {
  owner = record wallet { balance_microusd = 995_882; reserved_microusd = 4_118 };
  request_found = refl;
  handed_over = refl;
  positive = omega arith;
  owner_found = refl;
  budget_found = refl;
  unsettled = refl;
  unreleased = refl;
}

reconcile_request-total_example : Returns (reconcile_request giving_back waiting)
unfolding has_action
reconcile_request-total_example =
    reconcile_request-total giving_back (pending_request lost_stream request) waiting
      waiting-IsSound waiting-IsWaiting refl

abbrev freezing : AccountCall
freezing = record { user_id = 1; action = AccountAction.freeze; operation = operation }

abbrev frozen : Db
frozen = db_of (update_account_status freezing db)

freeze_runs : update_account_status freezing db ≡ ok ((UserStatus.frozen, 1), frozen)
unfolding update_account_status change_status add_action has_action apply_user_freeze freeze_found
    count_active_keys find put guard require ◌>>=◌
freeze_runs = refl

update_account_status-AccountChanged_example :
    AccountChanged freezing db (UserStatus.frozen, 1) frozen
update_account_status-AccountChanged_example =
    update_account_status-AccountChanged freezing db (UserStatus.frozen, 1) frozen freeze_runs

abbrev asking : PaymentReconcileCall
asking = record {
  order_id = 50;
  provider = 5;
  claiming = operation;
  applying = record operation { id = 93; operation_id = 94 };
  repeating = record operation { id = 95; operation_id = 96 };
  event_id = λ a. 21;
  nonce = λ a. 22;
  raw_digest = λ a. 23;
  query = λ o. BridgeAnswer.answered (record {
    order_id = 50;
    payment_amount_minor = 1_000;
    currency = codes "CNY";
    status = BridgeStatus.paid;
    provider_transaction_id = 31;
  });
}

abbrev refunding : LiveRefundCall
refunding = record {
  command = record { order_id = 50; idempotency_key = 66; lease = 300; id = 61; now = 4_000 };
  operation = operation;
  refund_row = 62;
  refund = λ r.
      BridgeAnswer.answered (record { status = BridgeStatus.refunded; provider_refund_id = 70 });
}

abbrev bought : Db
bought = record db {
  orders = record order { status = OrderStatus.paid; provider_transaction_id = some 31 } ∷ [];
}
