-- ===== src/Tests/Data.antt =====
-- A small database: one customer with a key, a wallet, a budget and a price.
use kunlun_model_gateway.Base.{ℕ, ◌≡◌, refl, true, none, some, [], ◌∷◌, arith}
use kunlun_model_gateway.Base.Int.{pos, negsuc, ◌+ℤ◌}
use kunlun_model_gateway.Base.Table.{find, sum_by}
use kunlun_model_gateway.Models.{
  Account, ApiKey, Budget, BudgetStatus, Db, KeyStatus, Kind, LedgerKey, LedgerTransaction,
  ModelPrice, User, UserStatus, Wallet,
}
use kunlun_model_gateway.Ledger.{entries_sum, is_posted}
use kunlun_model_gateway.Ledger.Sums.{amount_in, balance_of}
use kunlun_model_gateway.Ledger.Wallets.{wallet_key}
use kunlun_model_gateway.Budgets.{budget_key}
use kunlun_model_gateway.Billing.Invariant.{IsSound}
use kunlun_model_gateway.Json.{codes}

abbrev pub customer : User
customer = record {
  id = 1;
  email = 3;
  password_hash = 4;
  status = UserStatus.active;
  email_verified_at = some 10;
}

abbrev pub key : ApiKey
key = record {
  id = 2;
  user_id = 1;
  secret_digest = 7;
  status = KeyStatus.active;
  revoked_at = none;
}

abbrev pub wallet : Wallet
wallet = record { user_id = 1; balance_microusd = 1_000_000; reserved_microusd = 0 }

abbrev pub credit : LedgerTransaction
credit = record {
  user_id = 1;
  kind = Kind.credit;
  reference = 9;
  idempotency_key = LedgerKey.payment_event 5 6;
  entries =
      (Account.customer_available, pos 1_000_000)
      ∷ (Account.platform_clearing, negsuc 999_999)
      ∷ [];
}

abbrev pub budget : Budget
budget = record {
  id = 3;
  user_id = 1;
  limit_microusd = 500_000;
  reserved_microusd = 0;
  spent_microusd = 100;
  status = BudgetStatus.active;
  period_start = 1_000;
  period_end = 9_000;
  created_at = 1_500;
}

abbrev pub price : ModelPrice
price = record {
  model = codes "test-model";
  version = 1;
  input_microusd_per_million = 1_000_000;
  output_microusd_per_million = 2_000_000;
  max_output_tokens = 4_096;
  active = true;
}

abbrev pub db : Db
db = record {
  users = customer ∷ [];
  access_sessions = [];
  email_tokens = [];
  reset_tokens = [];
  api_keys = key ∷ [];
  wallets = wallet ∷ [];
  ledger = credit ∷ [];
  orders = [];
  events = [];
  budgets = budget ∷ [];
  prices = price ∷ [];
  requests = [];
  attempts = [];
  outbox = [];
  refunds = [];
  audits = [];
  actions = [];
}

only_row {ℓ} : {A : Type ℓ} (k : A → ℕ) (j : ℕ) (x w : A) → find k j (x ∷ []) ≡ some w → w ≡ x
unfolding find
only_row k j x w e = ground arith

pub db-IsSound : IsSound db
unfolding sum_by balance_of amount_in entries_sum is_posted ◌+ℤ◌
db-IsSound = record {
  journal = (
    record { two_legs = omega arith; balanced = refl; all_nonzero = (refl, (refl, tt)) },
    refl,
    tt,
  );
  reconciled = record {
    shown =
        λ u w e. rw (only_row wallet_key u wallet w e) (record { available = refl; held = refl });
  };
  held = record { held = λ u w e. rw (only_row wallet_key u wallet w e) };
  budgeted = record {
    within = λ b row e.
        rw (only_row budget_key b budget row e) (record { held = refl; limited = omega arith });
    absent = λ b e. refl;
  };
}
