-- ===== src/Operators/Reconcile.antt =====
-- `reconcile_request` of app/__init__.py: an operator releases or settles a request that the gateway
-- handed over to reconciliation.
pub mod Closed
pub mod Total
pub mod Waiting
use kunlun_model_gateway.Base.{
  ℕ, ◌+◌, ◌++◌, Bool, true, false, ◌&&◌, Option, some, none, List, [], ◌∷◌, is_some, leb, length,
  if◌then◌else◌, ◌==◌, suc, zero,
}
use kunlun_model_gateway.Models.{
  Db, ModelRequest, RequestStatus, Kind, OperatorAction, TargetType, is_request,
}
use kunlun_model_gateway.Json.{Fields, Json, codes, field, null, int, str, end, list, nil, dict}
use kunlun_model_gateway.Operators.Actions.{Operation, action_row, add_action, as_http}
use kunlun_model_gateway.Billing.Release.{ReleaseCall, release_model_request}
use kunlun_model_gateway.Base.Int.{ℤ, pos}
use kunlun_model_gateway.Base.Result.{Result, ◌>>◌, ◌>>=◌, ok, err, require, http, guard}
use kunlun_model_gateway.Billing.Settle.{SettleCall, settle_model_request}
use kunlun_model_gateway.Base.Table.{find}
use kunlun_model_gateway.Billing.Holds.{request_key}

pub data ReconciliationAction : Type 0 where
  release settle : ReconciliationAction

pub record ReconciliationRequest : Type 0 where
  pub action : ReconciliationAction
  pub input_tokens : Option ℕ
  pub output_tokens : Option ℕ
  pub upstream_cost_microusd : Option ℕ

-- `usage_required_for_settlement`.
abbrev pub is_valid_reconciliation : ReconciliationRequest → Bool
is_valid_reconciliation p = elim p.action [
  | release ↦ true
  | settle ↦ is_some p.input_tokens && (is_some p.output_tokens && is_some p.upstream_cost_microusd)
]

-- A call of the route; the text "operator-reconciled" stands as a number among the providers.
pub record ReconcileCall : Type 0 where
  pub request_id : ℕ
  pub payload : ReconciliationRequest
  pub operation : Operation
  pub operator_reconciled : ℕ
  pub container_text : Json → List ℕ

abbrev pub request_text : RequestStatus → List ℕ
request_text RequestStatus.reserved = codes "reserved"
request_text RequestStatus.settled = codes "settled"
request_text RequestStatus.under_reserved = codes "under_reserved"
request_text RequestStatus.failed = codes "failed"
request_text RequestStatus.pending_reconciliation = codes "pending_reconciliation"
request_text RequestStatus.reconciled_released = codes "reconciled_released"

abbrev action_text : ReconciliationAction → List ℕ
action_text ReconciliationAction.release = codes "release"
action_text ReconciliationAction.settle = codes "settle"

-- The status that the audit row announces, before the service has decided it.
abbrev announced : ReconciliationAction → List ℕ
announced ReconciliationAction.release = codes "reconciled_released"
announced ReconciliationAction.settle = codes "settled"

-- `text[:n]`.
unfoldable pub first_characters : ℕ → List ℕ → List ℕ
first_characters zero text = []
first_characters (suc n) [] = []
first_characters (suc n) (c ∷ text) = c ∷ first_characters n text

abbrev pub reconcile_action : ReconcileCall → ModelRequest → OperatorAction
reconcile_action q r =
    action_row q.operation (some q.request_id) TargetType.model_request q.request_id
      (action_text q.payload.action) (request_text r.status) (announced q.payload.action)

abbrev pub release_by_operator : ReconcileCall → ReleaseCall
release_by_operator q = record {
  request_id = q.request_id;
  failure_category = codes "operator_release:" ++ first_characters 48 q.operation.reason;
  allowed_statuses = RequestStatus.pending_reconciliation ∷ [];
  final_status = RequestStatus.reconciled_released;
  ledger_kind = Kind.operator_release;
  now = q.operation.now;
}

abbrev count : Option ℕ → Json
count none = null
count (some n) = int (pos n)

abbrev count_or_zero : Option ℕ → ℕ
count_or_zero none = 0
count_or_zero (some n) = n

abbrev reported_usage : ReconciliationRequest → Fields
reported_usage p = field (codes "prompt_tokens") (count p.input_tokens) (
    field (codes "completion_tokens") (count p.output_tokens) (
      field (codes "total_tokens")
        (int (pos (count_or_zero p.input_tokens + count_or_zero p.output_tokens))) end))

abbrev reported_response : ReconciliationRequest → List ℕ → Fields
reported_response p model =
    field (codes "model") (str model)
      (field (codes "choices") (list nil) (field (codes "usage") (dict (reported_usage p)) end))

-- `request_record.final_provider or "operator-reconciled"`.
abbrev or_provider : Option ℕ → ℕ → ℕ
or_provider none default = default
or_provider (some provider) default = if provider == 0 then default else provider

abbrev cost_override : Option ℕ → Option ℤ
cost_override none = none
cost_override (some n) = some (pos n)

abbrev pub settle_by_operator : ReconcileCall → ModelRequest → SettleCall
settle_by_operator q r = record {
  request_id = q.request_id;
  response = reported_response q.payload r.requested_model;
  provider = or_provider r.final_provider q.operator_reconciled;
  fallback_count = r.fallback_count;
  force_usage_estimated = false;
  upstream_input_price = none;
  upstream_output_price = none;
  upstream_cost_override = cost_override q.payload.upstream_cost_microusd;
  allowed_statuses = RequestStatus.pending_reconciliation ∷ [];
  now = q.operation.now;
  container_text = q.container_text;
}

unfoldable pub close_request : ReconcileCall → ModelRequest → ReconciliationAction → Db → Result Db
close_request q r ReconciliationAction.release db = release_model_request (release_by_operator q) db
close_request q r ReconciliationAction.settle db = do
  settled ← settle_model_request (settle_by_operator q r) db
  ok settled.1

-- The answer is read from the database after the commit; `none` is the status "unknown".
pub record ReconcileAnswer : Type 0 where
  pub status : Option RequestStatus
  pub charged : ℕ
  pub upstream_cost : ℕ

abbrev pub reconcile_answer : Option ModelRequest → ReconcileAnswer
reconcile_answer none = record { status = none; charged = 0; upstream_cost = 0 }
reconcile_answer (some r) = record {
  status = some r.status;
  charged = r.charged_microusd;
  upstream_cost = r.upstream_cost_microusd;
}

unfoldable pub reconcile_request : ReconcileCall → Db → Result (ReconcileAnswer × Db)
reconcile_request q db = do
  r ← require (find request_key q.request_id db.requests) (http 404)
  guard (is_request r.status RequestStatus.pending_reconciliation) (http 404)
  staged ← add_action (reconcile_action q r) db
  closed ← as_http (close_request q r q.payload.action staged)
  ok (reconcile_answer (find request_key q.request_id closed.requests), closed)
