-- ===== src/Billing/Reserve.antt =====
-- app/services/gateway_billing.py: `get_price` and `reserve_model_request`.
pub mod Sound
pub mod Opened
use Prim.Native.Nat.{max}
use kunlun_model_gateway.Base.{
  ℕ, ◌+◌, ◌-◌, Bool, true, false, not, ◌&&◌, ◌||◌, Option, none, some, List, [], ◌∷◌, ltb, leb,
  ◌==◌, is_some, eq_option,
}
use kunlun_model_gateway.Base.Int.{pos, neg}
use kunlun_model_gateway.Base.Result.{
  Result, ok, guard, require, catch_integrity, ◌>>=◌, ◌>>◌, billing, integrity, value_error,
}
use kunlun_model_gateway.Base.Table.{find, put, newest}
use kunlun_model_gateway.Json.{Json, dumps}
use kunlun_model_gateway.Models.{
  Account, ApiKey, Budget, Db, Kind, LedgerKey, ModelPrice, ModelRequest, RequestStatus, User,
  Wallet, is_active_user, is_active_key, is_active_budget, same_text,
}
use kunlun_model_gateway.Ledger.{Entry, post_transaction}
use kunlun_model_gateway.Ledger.Wallets.{wallet_key}
use kunlun_model_gateway.Pricing.{token_cost, estimate_tokens, input_token_reservation_upper_bound}
use kunlun_model_gateway.Budgets.{budget_key, active_budget}
use kunlun_model_gateway.Billing.Holds.{request_key}
use kunlun_model_gateway.Json.Size.{is_encodable}

abbrev pub user_key : User → ℕ
user_key u = u.id

abbrev pub api_key_key : ApiKey → ℕ
api_key_key k = k.id

-- The arguments, the uuid of the new row, and the clock where the code reads it: for the active
-- budget (`now`), for the guarded update of the budget (`later`), for the new row (`created_at`).
pub record ReserveCall : Type 0 where
  pub user_id : ℕ
  pub api_key_id : ℕ
  pub model : List ℕ
  pub billable_payload : Json
  pub max_output_tokens : ℕ
  pub idempotency_key : Option ℕ
  pub request_id : ℕ
  pub now : ℕ
  pub later : ℕ
  pub created_at : ℕ

pub record Reservation : Type 0 where
  pub request_id : ℕ
  pub amount : ℕ
  pub estimated_input_tokens : ℕ
  pub input_price : ℕ
  pub output_price : ℕ

abbrev price_version : ModelPrice → ℕ
price_version p = p.version

unfoldable pub get_price : List ℕ → List ModelPrice → Option ModelPrice
get_price model prices = newest price_version (λ p. same_text p.model model && p.active) prices

-- `if idempotency_key:` passes over an empty text.
abbrev pub truthy : Option ℕ → Bool
truthy none = false
truthy (some k) = not (k == 0)

abbrev owns_key : ℕ → Option ℕ → ModelRequest → Bool
owns_key user key r = (r.user_id == user) && (is_some key && eq_option r.idempotency_key key)

unfoldable pub has_key : ℕ → Option ℕ → List ModelRequest → Bool
has_key user key [] = false
has_key user key (r ∷ rs) = owns_key user key r || has_key user key rs

-- The primary key, and the unique constraint on (user_id, idempotency_key).
unfoldable pub insert_request : ModelRequest → List ModelRequest → Result (List ModelRequest)
insert_request r requests = do
  guard (not (is_some (find request_key r.id requests))) integrity
  guard (not (has_key r.user_id r.idempotency_key requests)) integrity
  ok (r ∷ requests)

abbrev pub reserve_amount : ReserveCall → ModelPrice → ℕ
reserve_amount q price = max 1 (
    token_cost (input_token_reservation_upper_bound q.billable_payload)
      price.input_microusd_per_million
    + token_cost q.max_output_tokens price.output_microusd_per_million)

abbrev pub has_room : ReserveCall → ℕ → Budget → Bool
has_room q amount b =
    (b.user_id == q.user_id)
    && (is_active_budget b.status
        && (leb b.period_start q.later
            && (ltb q.later b.period_end
                && leb (b.spent_microusd + b.reserved_microusd + amount) b.limit_microusd)))

-- The hold on the active budget, if there is one: its id and the new table.
unfoldable pub hold_budget :
    ReserveCall → ℕ → Option Budget → List Budget → Result (Option ℕ × List Budget)
hold_budget q amount none budgets = ok (none, budgets)
hold_budget q amount (some b) budgets = do
  guard (leb (b.spent_microusd + b.reserved_microusd + amount) b.limit_microusd) (billing 402)
  row ← require (find budget_key b.id budgets) (billing 409)
  guard (has_room q amount row) (billing 409)
  ok (
    some row.id,
    put budget_key (record row { reserved_microusd = row.reserved_microusd + amount }) budgets,
  )

abbrev pub new_request : ReserveCall → ModelPrice → ℕ → Option ℕ → ModelRequest
new_request q price amount budget_id = record {
  id = q.request_id;
  user_id = q.user_id;
  api_key_id = q.api_key_id;
  budget_id = budget_id;
  idempotency_key = q.idempotency_key;
  requested_model = q.model;
  final_model = none;
  final_provider = none;
  status = RequestStatus.reserved;
  price_version = price.version;
  input_price = price.input_microusd_per_million;
  output_price = price.output_microusd_per_million;
  reserved_microusd = amount;
  charged_microusd = 0;
  upstream_cost_microusd = 0;
  input_tokens = estimate_tokens q.billable_payload;
  output_tokens = 0;
  usage_estimated = true;
  fallback_count = 0;
  failure_category = none;
  created_at = q.created_at;
  completed_at = none;
}

abbrev pub reserve_entries : ℕ → List Entry
reserve_entries amount =
    (Account.customer_available, neg amount) ∷ (Account.customer_reserved, pos amount) ∷ []

-- The body of the `try`: the locks, the guarded updates and the rows that are added.
unfoldable pub admit : ReserveCall → ModelPrice → ℕ → Db → Result Db
admit q price amount db = do
  user ← require (find user_key q.user_id db.users) (billing 403)
  guard (is_active_user user.status) (billing 403)
  key ← require (find api_key_key q.api_key_id db.api_keys) (billing 401)
  guard ((key.user_id == q.user_id) && is_active_key key.status) (billing 401)
  wallet ← require (find wallet_key q.user_id db.wallets) (billing 402)
  guard (leb amount wallet.balance_microusd) (billing 402)
  (budget_id, budgets) ← hold_budget q amount (active_budget q.user_id q.now db.budgets) db.budgets
  requests ← insert_request (new_request q price amount budget_id) db.requests
  ledger ←
      post_transaction q.user_id Kind.reserve q.request_id (LedgerKey.model_reserve q.request_id)
        (reserve_entries amount) db.ledger
  ok (record db {
    wallets =
        put wallet_key
          (record wallet {
            balance_microusd = wallet.balance_microusd - amount;
            reserved_microusd = wallet.reserved_microusd + amount;
          })
          db.wallets;
    budgets = budgets;
    requests = requests;
    ledger = ledger;
  })

unfoldable pub reserve_model_request : ReserveCall → Db → Result (Reservation × Db)
reserve_model_request q db = do
  price ← require (get_price q.model db.prices) (billing 404)
  guard (leb q.max_output_tokens price.max_output_tokens) (billing 422)
  guard (is_encodable (dumps q.billable_payload)) value_error
  let amount = reserve_amount q price
  guard (not (truthy q.idempotency_key && has_key q.user_id q.idempotency_key db.requests))
      (billing 409)
  db' ← catch_integrity (billing 409) (admit q price amount db)
  ok (
    record {
      request_id = q.request_id;
      amount = amount;
      estimated_input_tokens = estimate_tokens q.billable_payload;
      input_price = price.input_microusd_per_million;
      output_price = price.output_microusd_per_million;
    },
    db',
  )
