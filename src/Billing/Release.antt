-- ===== src/Billing/Release.antt =====
-- app/services/gateway_billing.py: `release_model_request`, `mark_pending_reconciliation` and
-- `record_attempt`; app/services/reconciliation_maintenance.py: `recover_stale_model_reservations`.
pub mod Sound
pub mod Sweep
pub mod Total
use kunlun_model_gateway.Base.{
  ℕ, ◌+◌, ◌-◌, Bool, true, false, not, ◌&&◌, ◌||◌, Option, none, some, List, [], ◌∷◌, leb, ◌==◌,
  if◌then◌else◌,
}
use kunlun_model_gateway.Base.Int.{ℤ, pos, neg}
use kunlun_model_gateway.Base.Result.{
  Result, ok, err, guard, require, ◌>>=◌, ◌>>◌, billing, value_error, integrity,
}
use kunlun_model_gateway.Base.Table.{find, put}
use kunlun_model_gateway.Json.{codes}
use kunlun_model_gateway.Models.{
  Account, AttemptStatus, Budget, Db, Kind, LedgerKey, ModelRequest, ProviderAttempt, RequestStatus,
  Wallet, is_among, is_request,
}
use kunlun_model_gateway.Ledger.{Entry, post_transaction}
use kunlun_model_gateway.Ledger.Wallets.{wallet_key}
use kunlun_model_gateway.Budgets.{budget_key}
use kunlun_model_gateway.Billing.Holds.{request_key}

pub record ReleaseCall : Type 0 where
  pub request_id : ℕ
  pub failure_category : List ℕ
  pub allowed_statuses : List RequestStatus
  pub final_status : RequestStatus
  pub ledger_kind : Kind
  pub now : ℕ

-- The call with the default arguments, as the request path makes it.
abbrev pub release_call : ℕ → List ℕ → ℕ → ReleaseCall
release_call id category now = record {
  request_id = id;
  failure_category = category;
  allowed_statuses = RequestStatus.reserved ∷ [];
  final_status = RequestStatus.failed;
  ledger_kind = Kind.release;
  now = now;
}

unfoldable pub release_budget : Option ℕ → ℕ → List Budget → Result (List Budget)
release_budget none reserved budgets = ok budgets
release_budget (some id) reserved budgets = do
  row ← require (find budget_key id budgets) (billing 409)
  guard (leb reserved row.reserved_microusd) (billing 409)
  ok (put budget_key (record row { reserved_microusd = row.reserved_microusd - reserved }) budgets)

abbrev pub release_entries : ℕ → List Entry
release_entries reserved =
    (Account.customer_reserved, neg reserved) ∷ (Account.customer_available, pos reserved) ∷ []

abbrev pub released_request : ReleaseCall → ModelRequest → ModelRequest
released_request q r = record r {
  status = q.final_status;
  failure_category = some q.failure_category;
  completed_at = some q.now;
}

-- The release of a request that is in an allowed status.
unfoldable pub release_open : ReleaseCall → ModelRequest → Db → Result Db
release_open q r db = do
  let reserved = r.reserved_microusd
  wallet ← require (find wallet_key r.user_id db.wallets) (billing 409)
  guard (leb reserved wallet.reserved_microusd) (billing 409)
  budgets ← release_budget r.budget_id reserved db.budgets
  ledger ←
      post_transaction r.user_id q.ledger_kind r.id (LedgerKey.model_release r.id)
        (release_entries reserved) db.ledger
  ok (record db {
    wallets =
        put wallet_key
          (record wallet {
            reserved_microusd = wallet.reserved_microusd - reserved;
            balance_microusd = wallet.balance_microusd + reserved;
          })
          db.wallets;
    budgets = budgets;
    ledger = ledger;
    requests = put request_key (released_request q r) db.requests;
  })

-- Any other request, and one that is not there, is left alone without an error.
unfoldable pub release_found : ReleaseCall → Option ModelRequest → Db → Result Db
release_found q none db = ok db
release_found q (some r) db =
    if is_among r.status q.allowed_statuses then release_open q r db else ok db

unfoldable pub release_model_request : ReleaseCall → Db → Result Db
release_model_request q db = release_found q (find request_key q.request_id db.requests) db

pub record PendingCall : Type 0 where
  pub request_id : ℕ
  pub failure_category : List ℕ
  pub provider : Option ℕ
  pub fallback_count : Option ℕ
  pub now : ℕ

abbrev or_old {ℓ} : {A : Type ℓ} → Option A → A → A
or_old none old = old
or_old (some new) old = new

abbrev or_kept : Option ℕ → Option ℕ → Option ℕ
or_kept none old = old
or_kept (some new) old = some new

abbrev pub pending_request : PendingCall → ModelRequest → ModelRequest
pending_request q r = record r {
  status = RequestStatus.pending_reconciliation;
  failure_category = some q.failure_category;
  final_provider = or_kept q.provider r.final_provider;
  fallback_count = or_old q.fallback_count r.fallback_count;
  completed_at = some q.now;
}

unfoldable pub mark_found : PendingCall → Option ModelRequest → Db → Db
mark_found q none db = db
mark_found q (some r) db =
    if is_request r.status RequestStatus.reserved
    then record db { requests = put request_key (pending_request q r) db.requests }
    else db

unfoldable pub mark_pending_reconciliation : PendingCall → Db → Db
mark_pending_reconciliation q db = mark_found q (find request_key q.request_id db.requests) db

-- The unique constraint on (request_id, ordinal).
unfoldable pub has_attempt : ℕ → ℕ → List ProviderAttempt → Bool
has_attempt id ordinal [] = false
has_attempt id ordinal (a ∷ rest) =
    ((a.request_id == id) && (a.ordinal == ordinal)) || has_attempt id ordinal rest

unfoldable pub record_attempt : ProviderAttempt → Db → Result Db
record_attempt a db = do
  guard (not (has_attempt a.request_id a.ordinal db.attempts)) integrity
  ok (record db { attempts = a ∷ db.attempts })

-- The bulk UPDATE of the sweeper, and its row count.
abbrev pub is_stale : ℕ → ModelRequest → Bool
is_stale cutoff r = is_request r.status RequestStatus.reserved && leb r.created_at cutoff

abbrev pub expired_request : ℕ → ModelRequest → ModelRequest
expired_request now r = record r {
  status = RequestStatus.pending_reconciliation;
  failure_category = some (codes "reservation_lease_expired");
  completed_at = some now;
}

unfoldable pub expire_rows : ℕ → ℕ → List ModelRequest → List ModelRequest
expire_rows now cutoff [] = []
expire_rows now cutoff (r ∷ rs) =
    (if is_stale cutoff r then expired_request now r else r) ∷ expire_rows now cutoff rs

unfoldable pub count_stale : ℕ → List ModelRequest → ℕ
count_stale cutoff [] = 0
count_stale cutoff (r ∷ rs) = (if is_stale cutoff r then 1 else 0) + count_stale cutoff rs

-- The default of `lease_seconds` is 300; `now` is past the year 1970 by more than a day.
unfoldable pub recover_stale_model_reservations : ℕ → ℕ → Db → Result (ℕ × Db)
recover_stale_model_reservations lease_seconds now db = do
  guard (leb 60 lease_seconds && leb lease_seconds 86_400) value_error
  let cutoff = now - lease_seconds
  ok (count_stale cutoff db.requests, record db { requests = expire_rows now cutoff db.requests })
