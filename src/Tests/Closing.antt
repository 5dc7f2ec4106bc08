-- ===== src/Tests/Closing.antt =====
-- Releases, sweeps and late calls (app/services/gateway_billing.py), run on a database that holds one
-- reservation.
use kunlun_model_gateway.Base.{ℕ, ◌≡◌, refl, false, [], ◌∷◌, ◌==◌, if◌then◌else◌}
use kunlun_model_gateway.Base.Int.{pos, ◌+ℤ◌}
use kunlun_model_gateway.Base.Result.{ok, err, billing, guard, require, ◌>>=◌}
use kunlun_model_gateway.Base.Table.{find, put, newest}
use kunlun_model_gateway.Json.{codes}
use kunlun_model_gateway.Models.{
  Account, Budget, BudgetStatus, Db, Kind, LedgerKey, LedgerTransaction,
}
use kunlun_model_gateway.Ledger.{nonzero, entries_sum, is_posted, post_transaction}
use kunlun_model_gateway.Ledger.Sums.{amount_in, balance_of}
use kunlun_model_gateway.Ledger.Post.{IsJournal, post_transaction-IsJournal}
use kunlun_model_gateway.Budgets.{NewBudget, create_budget, supersede}
use kunlun_model_gateway.Billing.Invariant.{IsSound}
use kunlun_model_gateway.Billing.Settle.{settle_model_request}
use kunlun_model_gateway.Billing.Release.{
  ReleaseCall, release_call, release_budget, release_entries, release_open, release_found,
  released_request, release_model_request, recover_stale_model_reservations, expire_rows,
  count_stale,
}
use kunlun_model_gateway.Billing.Once.{settle-then-closed, release-then-closed}
use kunlun_model_gateway.Services.{Reaches, Step}
use kunlun_model_gateway.Services.Reach.{Reaches-IsSound}
use kunlun_model_gateway.Tests.Data.{budget, credit, db, db-IsSound, wallet}
use kunlun_model_gateway.Tests.Billing.{
  request, reserved, reserved-IsSound, settle, settled, settle_runs,
}

abbrev undo : ReleaseCall
undo = release_call 40 (codes "provider_unavailable") 2_020

-- The reservation goes back to the wallet and to the budget.
abbrev released : Db
released = record reserved {
  wallets = record wallet { balance_microusd = 1_000_000; reserved_microusd = 0 } ∷ [];
  budgets = record budget { reserved_microusd = 0 } ∷ [];
  requests = released_request undo request ∷ [];
  ledger =
      record {
        user_id = 1;
        kind = Kind.release;
        reference = 40;
        idempotency_key = LedgerKey.model_release 40;
        entries = release_entries 4_118;
      }
      ∷ reserved.ledger;
}

release_runs : release_model_request undo reserved ≡ ok released
unfolding release_model_request release_found release_open release_budget post_transaction nonzero
    entries_sum is_posted find put guard require ◌>>=◌ ◌+ℤ◌
release_runs = refl

settle-then-closed_example :
    (release_model_request undo settled ≡ ok settled)
    × (settle_model_request settle settled ≡ err (billing 409))
settle-then-closed_example =
    settle-then-closed settle settle undo reserved (1_010, false) settled refl refl (refl, tt)
      (refl, tt) settle_runs

release-then-closed_example :
    (release_model_request undo released ≡ ok released)
    × (settle_model_request settle released ≡ err (billing 409))
unfolding find
release-then-closed_example =
    release-then-closed undo undo settle request reserved released refl refl (refl, tt) (refl, tt)
      refl refl refl release_runs

abbrev swept : Db
swept = record reserved { requests = expire_rows 5_000 4_700 (request ∷ []) }

sweep_runs : recover_stale_model_reservations 300 5_000 reserved ≡ ok (1, swept)
unfolding recover_stale_model_reservations count_stale expire_rows guard ◌>>=◌
sweep_runs = refl

abbrev renewal : NewBudget
renewal = record {
  user_id = 1;
  amount = 900_000;
  period_start = 1_000;
  period_end = 9_000;
  id = 4;
  now = 3_000;
}

abbrev renewed : Budget
renewed = record budget { id = 4; limit_microusd = 900_000; created_at = 3_000 }

abbrev renewed_db : Db
renewed_db = record db {
  budgets = renewed ∷ record budget { status = BudgetStatus.superseded } ∷ [];
}

renew_runs : create_budget renewal db ≡ ok (renewed, renewed_db)
unfolding create_budget supersede find put newest guard require ◌>>=◌
renew_runs = refl

Reaches-IsSound_example : IsSound released
Reaches-IsSound_example =
    Reaches-IsSound reserved released reserved-IsSound
      (Reaches.next Reaches.start (Step.release undo (refl, tt) refl release_runs))

abbrev top_up : LedgerTransaction
top_up = record credit { idempotency_key = LedgerKey.payment_event 5 7 }

post_runs :
    post_transaction 1 Kind.credit 9 (LedgerKey.payment_event 5 7) credit.entries (credit ∷ [])
    ≡ ok (top_up ∷ credit ∷ [])
unfolding post_transaction nonzero entries_sum is_posted guard ◌>>=◌ ◌+ℤ◌
post_runs = refl

post_transaction-IsJournal_example :
    IsJournal (top_up ∷ credit ∷ [])
    × ((u : ℕ) (a : Account)
        → balance_of u a (top_up ∷ credit ∷ [])
          ≡ (if 1 == u then amount_in a credit.entries else pos 0) +ℤ balance_of u a (credit ∷ []))
post_transaction-IsJournal_example =
    post_transaction-IsJournal 1 Kind.credit 9 (LedgerKey.payment_event 5 7) credit.entries
      (credit ∷ []) (top_up ∷ credit ∷ []) db-IsSound.journal post_runs
