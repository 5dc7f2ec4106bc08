-- ===== src/Billing/Settle.antt =====
-- app/services/gateway_billing.py: `_usage_from_response` and `settle_model_request`.
pub mod Entries
pub mod Sound
pub mod Balanced
pub mod Total
pub mod Outcome
use Prim.Native.Nat.{min}
use kunlun_model_gateway.Base.{
  ℕ, ◌+◌, ◌-◌, Bool, true, false, ◌&&◌, ◌||◌, Option, none, some, List, [], ◌∷◌, ltb, leb, ◌==◌,
  not, if◌then◌else◌,
}
use kunlun_model_gateway.Base.Int.{ℤ, pos, negsuc, neg}
use kunlun_model_gateway.Base.Result.{Result, ok, err, guard, require, ◌>>=◌, ◌>>◌, billing}
use kunlun_model_gateway.Base.Table.{find, put}
use kunlun_model_gateway.Json.{
  Json, Fields, str, list, dict, null, bool, int, real, nil, end, codes, dumps, digits, get,
  as_dict, as_list, as_count,
}
use kunlun_model_gateway.Models.{
  Account, Budget, Db, Kind, LedgerKey, ModelRequest, RequestStatus, Wallet, is_among, same_text,
}
use kunlun_model_gateway.Ledger.{Entry, post_transaction}
use kunlun_model_gateway.Ledger.Wallets.{wallet_key}
use kunlun_model_gateway.Pricing.{token_cost, estimate_tokens}
use kunlun_model_gateway.Budgets.{budget_key}
use kunlun_model_gateway.Billing.Holds.{request_key}

-- `usage.get(key, usage.get(other))`: a null under `key` hides `other`.
unfoldable pub get_either : List ℕ → List ℕ → Fields → Option Json
get_either key other usage = elim (get key usage) [ none ↦ get other usage | some v ↦ some v ]

-- Input tokens, output tokens, and whether they are estimates.
abbrev pub Usage : Type 0
Usage = ℕ × ℕ × Bool

abbrev pub estimated : Fields → ℕ → Usage
estimated response fallback = elim (as_list (get (codes "choices") response)) [
  | none ↦ (fallback, estimate_tokens (str []), true)
  | some xs ↦ (fallback, estimate_tokens (list xs), true)
]

abbrev pub observed : Option ℕ → Option ℕ → Usage → Usage
observed (some prompt) (some completion) fallback = (prompt, completion, false)
observed none completion fallback = fallback
observed (some prompt) none fallback = fallback

unfoldable pub usage_from_response : Fields → ℕ → Usage
usage_from_response response fallback = elim (as_dict (get (codes "usage") response)) [
  | none ↦ estimated response fallback
  | some usage ↦
      observed (as_count (get_either (codes "prompt_tokens") (codes "input_tokens") usage))
        (as_count (get_either (codes "completion_tokens") (codes "output_tokens") usage))
        (estimated response fallback)
]

-- The arguments, the clock, and the text that Python prints for a list or a dict.
pub record SettleCall : Type 0 where
  pub request_id : ℕ
  pub response : Fields
  pub provider : ℕ
  pub fallback_count : ℕ
  pub force_usage_estimated : Bool
  pub upstream_input_price : Option ℕ
  pub upstream_output_price : Option ℕ
  pub upstream_cost_override : Option ℤ
  pub allowed_statuses : List RequestStatus
  pub now : ℕ
  pub container_text : Json → List ℕ

-- The texts of the floats that count as false.
abbrev is_zero_text : List ℕ → Bool
is_zero_text t = same_text t (codes "0.0") || same_text t (codes "-0.0")

-- `str(response.get("model") or requested)`.
abbrev pub model_name : (Json → List ℕ) → Option Json → List ℕ → List ℕ
model_name text none requested = requested
model_name text (some null) requested = requested
model_name text (some (bool true)) requested = codes "True"
model_name text (some (bool false)) requested = requested
model_name text (some (int (pos n))) requested = if n == 0 then requested else digits n
model_name text (some (int (negsuc n))) requested = dumps (int (negsuc n))
model_name text (some (real t)) requested = if is_zero_text t then requested else t
model_name text (some (str [])) requested = requested
model_name text (some (str (c ∷ s))) requested = c ∷ s
model_name text (some (list nil)) requested = requested
model_name text (some (dict end)) requested = requested
model_name text (some other) requested = text other

abbrev pub or_price : Option ℕ → ℕ → ℕ
or_price none price = price
or_price (some p) price = p

-- Input cost and output cost at two prices.
unfoldable pub usage_cost : ℕ → ℕ → Usage → ℕ
usage_cost input_price output_price u = token_cost u.0 input_price + token_cost u.1 output_price

unfoldable pub or_override : Option ℤ → ℕ → Result ℕ
or_override none cost = ok cost
or_override (some (pos c)) cost = ok c
or_override (some (negsuc c)) cost = err (billing 422)

unfoldable pub upstream_cost : SettleCall → ModelRequest → Usage → Result ℕ
upstream_cost q r u = or_override q.upstream_cost_override (
    usage_cost (or_price q.upstream_input_price r.input_price)
      (or_price q.upstream_output_price r.output_price) u)

-- `if amount: entries.append(entry)`.
unfoldable pub entry_if : ℕ → Entry → List Entry → List Entry
entry_if amount entry rest = if amount == 0 then rest else entry ∷ rest

-- What the customer pays of the cost: no more than was reserved.
abbrev pub charge : ℕ → ℕ → ℕ
charge cost reserved = min cost reserved

unfoldable pub settle_entries : ℕ → ℕ → ℕ → List Entry
settle_entries reserved cost upstream =
    (Account.customer_reserved, neg reserved)
    ∷ entry_if (reserved - charge cost reserved)
        (Account.customer_available, pos (reserved - charge cost reserved))
        (entry_if cost (Account.platform_revenue, pos cost)
          (entry_if (cost - charge cost reserved)
            (Account.platform_risk, neg (cost - charge cost reserved))
            (entry_if upstream (Account.platform_provider_expense, pos upstream)
              (entry_if upstream (Account.platform_provider_payable, neg upstream) []))))

-- The guarded update of the request's budget: the hold goes, and `charged` is spent.
unfoldable pub settle_budget : Option ℕ → ℕ → ℕ → List Budget → Result (List Budget)
settle_budget none reserved charged budgets = ok budgets
settle_budget (some id) reserved charged budgets = do
  row ← require (find budget_key id budgets) (billing 409)
  guard (leb reserved row.reserved_microusd) (billing 409)
  ok (
      put budget_key
        (record row {
          reserved_microusd = row.reserved_microusd - reserved;
          spent_microusd = row.spent_microusd + charged;
        })
        budgets)

abbrev pub settled_request : SettleCall → ModelRequest → Usage → ℕ → ℕ → ModelRequest
settled_request q r u cost upstream = record r {
  status =
      if leb cost r.reserved_microusd then RequestStatus.settled else RequestStatus.under_reserved;
  final_model =
      some (model_name q.container_text (get (codes "model") q.response) r.requested_model);
  final_provider = some q.provider;
  charged_microusd = charge cost r.reserved_microusd;
  upstream_cost_microusd = upstream;
  input_tokens = u.0;
  output_tokens = u.1;
  usage_estimated = u.2 || q.force_usage_estimated;
  fallback_count = q.fallback_count;
  completed_at = some q.now;
}

-- What is charged, and whether the usage was estimated.
unfoldable pub settle_model_request : SettleCall → Db → Result ((ℕ × Bool) × Db)
settle_model_request q db = do
  r ← require (find request_key q.request_id db.requests) (billing 409)
  guard (is_among r.status q.allowed_statuses) (billing 409)
  let u = usage_from_response q.response r.input_tokens
  let cost = usage_cost r.input_price r.output_price u
  upstream ← upstream_cost q r u
  let reserved = r.reserved_microusd
  let charged = charge cost reserved
  wallet ← require (find wallet_key r.user_id db.wallets) (billing 409)
  guard (leb reserved wallet.reserved_microusd) (billing 409)
  budgets ← settle_budget r.budget_id reserved charged db.budgets
  ledger ←
      post_transaction r.user_id Kind.settle r.id (LedgerKey.model_settle r.id)
        (settle_entries reserved cost upstream) db.ledger
  ok (
    (charged, u.2 || q.force_usage_estimated),
    record db {
      wallets =
          put wallet_key
            (record wallet {
              reserved_microusd = wallet.reserved_microusd - reserved;
              balance_microusd = wallet.balance_microusd + (reserved - charged);
            })
            db.wallets;
      budgets = budgets;
      ledger = ledger;
      requests = put request_key (settled_request q r u cost upstream) db.requests;
    },
  )
