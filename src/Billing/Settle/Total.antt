-- ===== src/Billing/Settle/Total.antt =====
-- When an open request can be settled (app/services/gateway_billing.py, `settle_model_request`).
use kunlun_model_gateway.Base.{
  ℕ, ◌≤◌, ◌<◌, ◌≡◌, refl, true, false, Bool, Option, none, some, List, leb_of_le, arith, is_some,
  Option-cases, inl, inr,
}
use kunlun_model_gateway.Base.Int.{ℤ, pos, negsuc}
use kunlun_model_gateway.Base.Result.{
  Returns, Returns-ok, Returns-bind, Returns-call, Returns-guard, Returns-require,
}
use kunlun_model_gateway.Base.Table.{find, le-sum_by, key-find}
use kunlun_model_gateway.Models.{Budget, Db, Kind, LedgerKey, ModelRequest, Wallet, holds, is_among}
use kunlun_model_gateway.Ledger.{is_posted}
use kunlun_model_gateway.Ledger.Accept.{post_transaction-ok}
use kunlun_model_gateway.Ledger.Wallets.{wallet_key}
use kunlun_model_gateway.Budgets.{budget_key}
use kunlun_model_gateway.Billing.Holds.{request_key, IsHeld, hold_of, hold_on}
use kunlun_model_gateway.Billing.BudgetHolds.{IsBudgeted}
use kunlun_model_gateway.Billing.Invariant.{IsSound, AllHold, holds_of_among}
use kunlun_model_gateway.Billing.Settle.{
  SettleCall, Usage, charge, settle_budget, settle_entries, settle_model_request, upstream_cost,
  or_override,
}
use kunlun_model_gateway.Billing.Settle.Outcome.{usage_of, cost_of}
use kunlun_model_gateway.Billing.Settle.Balanced.{entries_sum-settle, two_legs-settle}

-- The foreign key of `budget_id`.
abbrev pub RefersTo : Option ℕ → List Budget → Type 0
RefersTo none budgets = Unit
RefersTo (some b) budgets = is_some (find budget_key b budgets) ≡ true

abbrev pub is_nonneg : Option ℤ → Bool
is_nonneg none = true
is_nonneg (some (pos n)) = true
is_nonneg (some (negsuc n)) = false

-- The hold of an open request is within the reserved amount of its wallet.
pub hold-le-wallet :
    {wallets : List Wallet} {requests : List ModelRequest} (inv : IsHeld wallets requests)
    (r : ModelRequest) (w : Wallet) (id : ℕ)
    → find request_key id requests ≡ some r
    → find wallet_key r.user_id wallets ≡ some w
    → holds r.status ≡ true
    → r.reserved_microusd ≤ w.reserved_microusd
unfolding hold_of
hold-le-wallet inv r w id there here opened =
    ground
      (arith, inv.held r.user_id w here, le-sum_by request_key (hold_of r.user_id) id _ r there)

pub hold-le-budget :
    {budgets : List Budget} {requests : List ModelRequest} (inv : IsBudgeted budgets requests)
    (r : ModelRequest) (row : Budget) (id b : ℕ)
    → find request_key id requests ≡ some r
    → r.budget_id ≡ some b
    → find budget_key b budgets ≡ some row
    → holds r.status ≡ true
    → r.reserved_microusd ≤ row.reserved_microusd
unfolding hold_on
hold-le-budget {budgets} inv r row id b there on here opened = ground (
  arith,
  (inv.within b row here).held,
  key-find budget_key b budgets row here,
  le-sum_by request_key (hold_on row.id) id _ r there,
)

settle_budget_total :
    {requests : List ModelRequest} (budgets : List Budget) (inv : IsBudgeted budgets requests)
    (r : ModelRequest) (id charged : ℕ) (b : Option ℕ)
    → find request_key id requests ≡ some r
    → r.budget_id ≡ b
    → RefersTo b budgets
    → holds r.status ≡ true
    → Returns (settle_budget b r.reserved_microusd charged budgets)
unfolding settle_budget
settle_budget_total budgets inv r id charged none there on ref opened = Returns-ok budgets
settle_budget_total budgets inv r id charged (some b) there on ref opened =
    elim (Option-cases (find budget_key b budgets)) [
      | inl gone ↦ absurd (cc (ref, gone))
      | inr (row, here) ↦ Returns-require _ _ _ row here (
          Returns-guard _ _ _ (leb_of_le _ _ (hold-le-budget inv r row id b there on here opened))
            (Returns-ok _))
    ]

or_override_total : (o : Option ℤ) (cost : ℕ) → is_nonneg o ≡ true → Returns (or_override o cost)
unfolding or_override
or_override_total none cost h = Returns-ok cost
or_override_total (some (pos n)) cost h = Returns-ok n
or_override_total (some (negsuc n)) cost h = cc

upstream_total :
    (q : SettleCall) (r : ModelRequest) (u : Usage)
    → is_nonneg q.upstream_cost_override ≡ true
    → Returns (upstream_cost q r u)
unfolding upstream_cost
upstream_total q r u nonneg = or_override_total q.upstream_cost_override _ nonneg

pub settle_model_request-total :
    (q : SettleCall) (db : Db) (r : ModelRequest) (w : Wallet)
    → IsSound db
    → AllHold q.allowed_statuses
    → find request_key q.request_id db.requests ≡ some r
    → is_among r.status q.allowed_statuses ≡ true
    → find wallet_key r.user_id db.wallets ≡ some w
    → RefersTo r.budget_id db.budgets
    → 0 < r.reserved_microusd
    → is_posted (LedgerKey.model_settle r.id) db.ledger ≡ false
    → is_nonneg q.upstream_cost_override ≡ true
    → Returns (settle_model_request q db)
unfolding settle_model_request
settle_model_request-total q db r w inv allowed there among here ref positive fresh nonneg =
    let opened = holds_of_among r.status q.allowed_statuses allowed among in
    let enough = hold-le-wallet inv.held r w q.request_id there here opened in
    Returns-require _ _ _ r there (
      Returns-guard _ _ _ among (
        Returns-call _ _ (upstream_total q r (usage_of q r) nonneg) λ upstream.
          Returns-require _ _ _ w here (
            Returns-guard _ _ _ (leb_of_le _ _ enough) (
              Returns-call _ _
                (settle_budget_total db.budgets inv.budgeted r q.request_id
                  (charge (cost_of q r) r.reserved_microusd) r.budget_id there refl ref opened)
                λ budgets.
                  Returns-bind _ _ _
                    (post_transaction-ok r.user_id Kind.settle r.id (LedgerKey.model_settle r.id)
                      (settle_entries r.reserved_microusd (cost_of q r) upstream) db.ledger
                      (two_legs-settle r.reserved_microusd (cost_of q r) upstream positive)
                      (entries_sum-settle r.reserved_microusd (cost_of q r) upstream) fresh)
                    (Returns-ok _)))))
