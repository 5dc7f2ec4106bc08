-- ===== src/Tests/Billing.antt =====
-- app/services/gateway_billing.py, run on the small database.
use kunlun_model_gateway.Billing.Covers.{usage_cost-le-reserve_amount}
use kunlun_model_gateway.Billing.Settle.Outcome.{IsCharged, settle_model_request-charge}
use kunlun_model_gateway.Base.{◌≡◌, refl, false, none, some, [], ◌∷◌, arith, ◌≤◌}
use kunlun_model_gateway.Base.Int.{pos, negsuc, ◌+ℤ◌}
use kunlun_model_gateway.Base.Result.{ok, guard, require, catch_integrity, ◌>>=◌}
use kunlun_model_gateway.Base.Table.{find, put, newest}
use kunlun_model_gateway.Json.{Fields, dict, field, int, end, dumps, get, codes}
use kunlun_model_gateway.Json.Size.{utf8_length, is_encodable}
use kunlun_model_gateway.Models.{Account, Db, Kind, LedgerKey, ModelRequest, RequestStatus}
use kunlun_model_gateway.Ledger.{nonzero, entries_sum, is_posted, post_transaction}
use kunlun_model_gateway.Pricing.{
  token_cost, ceil_true_div, ceil_div, round_div, exponent, estimate_tokens, protocol_items,
  input_token_reservation_upper_bound,
}
use kunlun_model_gateway.Pricing.Cost.{IsCost, token_cost-IsCost}
use kunlun_model_gateway.Budgets.{active_budget}
use kunlun_model_gateway.Billing.Invariant.{IsSound}
use kunlun_model_gateway.Billing.Reserve.{
  ReserveCall, Reservation, reserve_model_request, admit, get_price, has_key, hold_budget,
  insert_request, new_request, reserve_entries, reserve_amount,
}
use kunlun_model_gateway.Billing.Reserve.Sound.{reserve_model_request-IsSound}
use kunlun_model_gateway.Billing.Settle.{
  SettleCall, settle_model_request, settled_request, usage_from_response, get_either, usage_cost,
  upstream_cost, or_override, settle_entries, entry_if, settle_budget, charge,
}
use kunlun_model_gateway.Tests.Data.{budget, credit, db, db-IsSound, price, wallet}

token_cost-IsCost_example : IsCost 4_098 1_000_000 (token_cost 4_098 1_000_000)
token_cost-IsCost_example = token_cost-IsCost 4_098 1_000_000 (omega arith)

abbrev pub call : ReserveCall
call = record {
  user_id = 1;
  api_key_id = 2;
  model = codes "test-model";
  billable_payload = dict end;
  max_output_tokens = 10;
  idempotency_key = some 77;
  request_id = 40;
  now = 2_000;
  later = 2_001;
  created_at = 2_002;
}

-- 4098 for the bytes of `{}` and the fixed margin, and 20 for the output.
abbrev reservation : Reservation
reservation = record {
  request_id = 40;
  amount = 4_118;
  estimated_input_tokens = 1;
  input_price = 1_000_000;
  output_price = 2_000_000;
}

abbrev pub request : ModelRequest
request = new_request call price 4_118 (some 3)

abbrev pub reserved : Db
reserved = record db {
  wallets = record wallet { balance_microusd = 995_882; reserved_microusd = 4_118 } ∷ [];
  budgets = record budget { reserved_microusd = 4_118 } ∷ [];
  requests = request ∷ [];
  ledger =
      record {
        user_id = 1;
        kind = Kind.reserve;
        reference = 40;
        idempotency_key = LedgerKey.model_reserve 40;
        entries = reserve_entries 4_118;
      }
      ∷ credit
      ∷ [];
}

reserve_runs : reserve_model_request call db ≡ ok (reservation, reserved)
unfolding reserve_model_request is_encodable admit get_price has_key hold_budget insert_request
    active_budget post_transaction nonzero entries_sum is_posted token_cost ceil_true_div ceil_div
    round_div exponent estimate_tokens protocol_items input_token_reservation_upper_bound
    utf8_length dumps get find put newest guard require catch_integrity ◌>>=◌ ◌+ℤ◌
reserve_runs = refl

pub reserved-IsSound : IsSound reserved
reserved-IsSound =
    reserve_model_request-IsSound call db reservation reserved db-IsSound reserve_runs

-- `{"usage": {"prompt_tokens": 1000, "completion_tokens": 5}}`.
abbrev response : Fields
response =
    field (codes "usage")
      (dict (
        field (codes "prompt_tokens") (int (pos 1_000))
          (field (codes "completion_tokens") (int (pos 5)) end)))
      end

abbrev pub settle : SettleCall
settle = record {
  request_id = 40;
  response = response;
  provider = 8;
  fallback_count = 0;
  force_usage_estimated = false;
  upstream_input_price = some 500_000;
  upstream_output_price = none;
  upstream_cost_override = none;
  allowed_statuses = RequestStatus.reserved ∷ [];
  now = 2_010;
  container_text = λ v. [];
}

-- 1000 for the input and 10 for the output; the provider costs 510.
abbrev pub settled : Db
settled = record reserved {
  wallets = record wallet { balance_microusd = 998_990; reserved_microusd = 0 } ∷ [];
  budgets = record budget { spent_microusd = 1_110 } ∷ [];
  requests = settled_request settle request (1_000, 5, false) 1_010 510 ∷ [];
  ledger =
      record {
        user_id = 1;
        kind = Kind.settle;
        reference = 40;
        idempotency_key = LedgerKey.model_settle 40;
        entries =
            (Account.customer_reserved, negsuc 4_117)
            ∷ (Account.customer_available, pos 3_108)
            ∷ (Account.platform_revenue, pos 1_010)
            ∷ (Account.platform_provider_expense, pos 510)
            ∷ (Account.platform_provider_payable, negsuc 509)
            ∷ [];
      }
      ∷ reserved.ledger;
}

pub settle_runs : settle_model_request settle reserved ≡ ok ((1_010, false), settled)
unfolding settle_model_request usage_from_response get_either usage_cost upstream_cost or_override
    settle_entries entry_if settle_budget post_transaction nonzero entries_sum is_posted token_cost
    ceil_true_div ceil_div round_div exponent estimate_tokens dumps get find put guard require ◌>>=◌
    ◌+ℤ◌
settle_runs = refl

settle_model_request-charge_example : IsCharged settle reserved (1_010, false) settled
settle_model_request-charge_example =
    settle_model_request-charge settle reserved (1_010, false) settled settle_runs

usage_cost-le-reserve_amount_example :
    (usage_cost 1_000_000 2_000_000 (1_000, 5, false) ≤ reserve_amount call price)
    × (charge (usage_cost 1_000_000 2_000_000 (1_000, 5, false)) (reserve_amount call price)
        ≡ usage_cost 1_000_000 2_000_000 (1_000, 5, false))
unfolding input_token_reservation_upper_bound protocol_items utf8_length dumps get
usage_cost-le-reserve_amount_example =
    usage_cost-le-reserve_amount call price (1_000, 5, false) (omega arith) (omega arith)
      (omega arith) (omega arith)
