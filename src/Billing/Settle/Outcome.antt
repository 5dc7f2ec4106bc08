-- ===== src/Billing/Settle/Outcome.antt =====
-- What a successful settlement has done (app/services/gateway_billing.py, `settle_model_request`).
use Prim.Native.Nat.{min}
use kunlun_model_gateway.Base.{
  ℕ, ◌+◌, ◌-◌, ◌≤◌, ◌≡◌, refl, sym, true, false, Bool, some, leb, le_of_leb, arith, if◌then◌else◌,
}
use kunlun_model_gateway.Base.Result.{
  ok, err, billing, guard, require, ◌>>=◌, Ensures-ok, Ensures-bind, Ensures-guard, Ensures-require,
}
use kunlun_model_gateway.Base.Table.{find, find-put_self}
use kunlun_model_gateway.Models.{Db, ModelRequest, RequestStatus, Wallet, holds, is_among}
use kunlun_model_gateway.Ledger.Wallets.{wallet_key}
use kunlun_model_gateway.Billing.Holds.{request_key}
use kunlun_model_gateway.Billing.Settle.{
  SettleCall, Usage, charge, settled_request, settle_model_request, usage_from_response, usage_cost,
}

abbrev pub usage_of : SettleCall → ModelRequest → Usage
usage_of q r = usage_from_response q.response r.input_tokens

abbrev pub cost_of : SettleCall → ModelRequest → ℕ
cost_of q r = usage_cost r.input_price r.output_price (usage_of q r)

-- The rows that a settlement has read and written.
pub record Settled (q : SettleCall) (db : Db) (result : ℕ × Bool) (db' : Db) : Type 0 where
  pub request : ModelRequest
  pub wallet : Wallet
  pub upstream : ℕ
  pub request_found : find request_key q.request_id db.requests ≡ some request
  pub allowed : is_among request.status q.allowed_statuses ≡ true
  pub wallet_found : find wallet_key request.user_id db.wallets ≡ some wallet
  pub enough : request.reserved_microusd ≤ wallet.reserved_microusd
  pub charged : result.0 ≡ charge (cost_of q request) request.reserved_microusd
  pub wallet_written :
      find wallet_key request.user_id db'.wallets
      ≡ some (record wallet {
        reserved_microusd = wallet.reserved_microusd - request.reserved_microusd;
        balance_microusd =
            wallet.balance_microusd
            + (request.reserved_microusd - charge (cost_of q request) request.reserved_microusd);
      })
  pub request_written :
      find request_key q.request_id db'.requests
      ≡ some (settled_request q request (usage_of q request) (cost_of q request) upstream)

pub settle_model_request-Settled :
    (q : SettleCall) (db : Db) (result : ℕ × Bool) (db' : Db)
    → settle_model_request q db ≡ ok (result, db')
    → Settled q db result db'
unfolding settle_model_request
settle_model_request-Settled q db result db' e =
    (Ensures-require {P = λ (r : (ℕ × Bool) × Db). Settled q db r.0 r.1} _ _ _ λ r there.
        Ensures-guard _ _ _ λ among. Ensures-bind _ _ λ upstream _.
          Ensures-require _ _ _ λ wallet here. Ensures-guard _ _ _ λ enough.
            Ensures-bind _ _ λ budgets _. Ensures-bind _ _ λ ledger _. Ensures-ok _ (record {
              request = r;
              wallet = wallet;
              upstream = upstream;
              request_found = there;
              allowed = among;
              wallet_found = here;
              enough = le_of_leb _ _ enough;
              charged = refl;
              wallet_written = find-put_self wallet_key _ wallet r.user_id db.wallets here refl;
              request_written = find-put_self request_key _ r q.request_id db.requests there refl;
            })).returned
      (result, db') e

pub settled_closed :
    (covered : Bool)
    → holds (if covered then RequestStatus.settled else RequestStatus.under_reserved) ≡ false
settled_closed true = refl
settled_closed false = refl

-- How a settlement closes its request and its hold.
pub record IsCharged (q : SettleCall) (db : Db) (result : ℕ × Bool) (db' : Db) : Type 0 where
  pub before : ModelRequest
  pub wallet : Wallet
  pub after : ModelRequest
  pub wallet' : Wallet
  pub before_found : find request_key q.request_id db.requests ≡ some before
  pub wallet_found : find wallet_key before.user_id db.wallets ≡ some wallet
  pub after_found : find request_key q.request_id db'.requests ≡ some after
  pub wallet'_found : find wallet_key before.user_id db'.wallets ≡ some wallet'
  pub charge_is : result.0 ≡ min (cost_of q before) before.reserved_microusd
  pub recorded : after.charged_microusd ≡ result.0
  pub paid :
      wallet'.balance_microusd + wallet'.reserved_microusd + result.0
      ≡ wallet.balance_microusd + wallet.reserved_microusd
  pub given_back : wallet'.reserved_microusd + before.reserved_microusd ≡ wallet.reserved_microusd
  pub status_is : after.status ≡ (
      if leb (cost_of q before) before.reserved_microusd
      then RequestStatus.settled
      else RequestStatus.under_reserved)

-- A settlement charges the cost of the usage at the prices of the request, but never more than was
-- reserved; what it does not charge goes back, so that balance and reserved amount together fall
-- by exactly the charge; and the request is `settled` when the reservation covered the cost, and
-- `under_reserved` otherwise.
pub settle_model_request-charge :
    (q : SettleCall) (db : Db) (result : ℕ × Bool) (db' : Db)
    → settle_model_request q db ≡ ok (result, db')
    → IsCharged q db result db'
settle_model_request-charge q db result db' e =
    let s = settle_model_request-Settled q db result db' e in
    record {
      before = s.request;
      wallet = s.wallet;
      after = _;
      wallet' = _;
      before_found = s.request_found;
      wallet_found = s.wallet_found;
      after_found = s.request_written;
      wallet'_found = s.wallet_written;
      charge_is = s.charged;
      recorded = sym s.charged;
      paid = omega (arith, s.charged, s.enough);
      given_back = omega (arith, s.enough);
      status_is = refl;
    }

-- A request in another status is refused.
pub refused :
    (q : SettleCall) (db : Db) (r : ModelRequest)
    → find request_key q.request_id db.requests ≡ some r
    → is_among r.status q.allowed_statuses ≡ false
    → settle_model_request q db ≡ err (billing 409)
unfolding settle_model_request require guard ◌>>=◌
refused q db r there other = rw (there, other)
