-- ===== src/Budgets.antt =====
-- app/services/budget.py: the monthly budget of an account.
use kunlun_model_gateway.Base.{
  ℕ, Bool, not, ◌&&◌, Option, none, some, List, ◌∷◌, ltb, leb, ◌==◌, is_some, if◌then◌else◌,
}
use kunlun_model_gateway.Base.Result.{Result, ok, guard, require, ◌>>=◌, ◌>>◌, budget, integrity}
use kunlun_model_gateway.Base.Table.{find, put, newest}
use kunlun_model_gateway.Models.{Budget, BudgetStatus, Db, is_active_budget}
use kunlun_model_gateway.Ledger.Wallets.{wallet_key}

abbrev pub budget_key : Budget → ℕ
budget_key b = b.id

abbrev pub budget_stamp : Budget → ℕ
budget_stamp b = b.created_at

-- The WHERE clause of `active_budget`.
abbrev pub covers : ℕ → ℕ → Budget → Bool
covers user now b =
    (b.user_id == user)
    && (is_active_budget b.status && (leb b.period_start now && ltb now b.period_end))

unfoldable pub active_budget : ℕ → ℕ → List Budget → Option Budget
active_budget user now budgets = newest budget_stamp (covers user now) budgets

unfoldable pub get_owned_budget : ℕ → ℕ → List Budget → Option Budget
get_owned_budget user id budgets = elim (find budget_key id budgets) [
  | none ↦ none
  | some b ↦ if b.user_id == user then some b else none
]

-- The two ends are `month_bounds()`; `id` is a fresh uuid, and `now` the time of the insertion.
pub record NewBudget : Type 0 where
  pub user_id : ℕ
  pub amount : ℕ
  pub period_start : ℕ
  pub period_end : ℕ
  pub id : ℕ
  pub now : ℕ

abbrev pub is_current : NewBudget → Budget → Bool
is_current q b =
    (b.user_id == q.user_id) && (is_active_budget b.status && (b.period_start == q.period_start))

-- What the budget that is replaced leaves behind: its spend, and itself superseded.
unfoldable pub supersede : NewBudget → Option Budget → List Budget → Result (ℕ × List Budget)
supersede q none budgets = ok (0, budgets)
supersede q (some current) budgets = do
  guard (not (ltb 0 current.reserved_microusd)) (budget 409)
  guard (not (ltb q.amount current.spent_microusd)) (budget 409)
  row ← require (find budget_key current.id budgets) (budget 409)
  ok (
    current.spent_microusd,
    put budget_key (record row { status = BudgetStatus.superseded }) budgets,
  )

unfoldable pub create_budget : NewBudget → Db → Result (Budget × Db)
create_budget q db = do
  guard (ltb 0 q.amount) (budget 422)
  wallet ← require (find wallet_key q.user_id db.wallets) (budget 409)
  (carried, budgets) ← supersede q (newest budget_stamp (is_current q) db.budgets) db.budgets
  guard (not (is_some (find budget_key q.id budgets))) integrity
  let fresh : Budget = record {
    id = q.id;
    user_id = q.user_id;
    limit_microusd = q.amount;
    reserved_microusd = 0;
    spent_microusd = carried;
    status = BudgetStatus.active;
    period_start = q.period_start;
    period_end = q.period_end;
    created_at = q.now;
  }
  ok (fresh, record db { budgets = fresh ∷ budgets })
