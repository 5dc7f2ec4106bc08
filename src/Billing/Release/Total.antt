-- ===== src/Billing/Release/Total.antt =====
-- When an open request can be released, and that it is only once (app/services/gateway_billing.py,
-- `release_model_request`).
use kunlun_model_gateway.Base.{
  ℕ, ◌≤◌, ◌<◌, ◌≡◌, refl, true, false, Option, none, some, List, arith, leb_of_le, length,
  Option-cases, inl, inr,
}
use kunlun_model_gateway.Base.Int.{pos, ◌+ℤ◌}
use kunlun_model_gateway.Base.Result.{
  Returns, Returns-ok, Returns-bind, Returns-call, Returns-guard, Returns-require,
}
use kunlun_model_gateway.Base.Table.{find}
use kunlun_model_gateway.Models.{Budget, Db, LedgerKey, ModelRequest, Wallet, holds, is_among}
use kunlun_model_gateway.Ledger.{is_posted, entries_sum, nonzero}
use kunlun_model_gateway.Ledger.Accept.{post_transaction-ok}
use kunlun_model_gateway.Ledger.Wallets.{wallet_key}
use kunlun_model_gateway.Budgets.{budget_key}
use kunlun_model_gateway.Billing.Holds.{request_key}
use kunlun_model_gateway.Billing.BudgetHolds.{IsBudgeted}
use kunlun_model_gateway.Billing.Invariant.{IsSound, AllHold, holds_of_among}
use kunlun_model_gateway.Billing.Release.{
  ReleaseCall, release_budget, release_entries, release_found, release_model_request, release_open,
}
use kunlun_model_gateway.Billing.Settle.Total.{RefersTo, hold-le-wallet, hold-le-budget}

release_budget_total :
    {requests : List ModelRequest} (budgets : List Budget) (inv : IsBudgeted budgets requests)
    (r : ModelRequest) (id : ℕ) (b : Option ℕ)
    → find request_key id requests ≡ some r
    → r.budget_id ≡ b
    → RefersTo b budgets
    → holds r.status ≡ true
    → Returns (release_budget b r.reserved_microusd budgets)
unfolding release_budget
release_budget_total budgets inv r id none there on ref opened = Returns-ok budgets
release_budget_total budgets inv r id (some b) there on ref opened =
    elim (Option-cases (find budget_key b budgets)) [
      | inl gone ↦ absurd (cc (ref, gone))
      | inr (row, here) ↦ Returns-require _ _ _ row here (
          Returns-guard _ _ _ (leb_of_le _ _ (hold-le-budget inv r row id b there on here opened))
            (Returns-ok _))
    ]

release_sum : (n : ℕ) → entries_sum (release_entries n) ≡ pos 0
unfolding entries_sum ◌+ℤ◌
release_sum n = ground arith

release_legs : (n : ℕ) → 0 < n → 2 ≤ length (nonzero (release_entries n))
unfolding nonzero
release_legs n p = ground arith

module _ (q : ReleaseCall) (db : Db) (r : ModelRequest)
    (there : find request_key q.request_id db.requests ≡ some r) where
  -- In a sound database an open request that reserved something is released by any call that
  -- allows its status: the wallet, the budget and the journal accept it. (Its wallet and its
  -- budget exist, and it has not been released before.)
  pub release_model_request-total :
      (w : Wallet)
      → IsSound db
      → AllHold q.allowed_statuses
      → is_among r.status q.allowed_statuses ≡ true
      → find wallet_key r.user_id db.wallets ≡ some w
      → RefersTo r.budget_id db.budgets
      → 0 < r.reserved_microusd
      → is_posted (LedgerKey.model_release r.id) db.ledger ≡ false
      → Returns (release_model_request q db)
  unfolding release_model_request release_found release_open
  release_model_request-total w inv allowed among here ref positive fresh =
      let opened = holds_of_among r.status q.allowed_statuses allowed among in
      let enough = hold-le-wallet inv.held r w q.request_id there here opened in
      rw (there, among)
        (Returns-require _ _ _ w here (
          Returns-guard _ _ _ (leb_of_le _ _ enough) (
            Returns-call _ _
              (release_budget_total db.budgets inv.budgeted r q.request_id r.budget_id there refl
                ref opened)
              λ budgets.
                Returns-bind _ _ _
                  (post_transaction-ok r.user_id q.ledger_kind r.id (LedgerKey.model_release r.id)
                    (release_entries r.reserved_microusd) db.ledger
                    (release_legs r.reserved_microusd positive) (release_sum r.reserved_microusd)
                    fresh)
                  (Returns-ok _))))
