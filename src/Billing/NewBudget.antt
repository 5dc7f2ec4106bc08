-- ===== src/Billing/NewBudget.antt =====
-- Replacing a budget (app/services/budget.py, `create_budget`) keeps the database sound.
use kunlun_model_gateway.Base.{
  ℕ, ◌≤◌, ◌≡◌, refl, sym, ◌∙◌, true, not, Option, none, some, List, ◌∷◌, ◌==◌, arith, is_some, inl,
  inr, Bool-cases, subst,
}
use kunlun_model_gateway.Base.Result.{
  ok, Ensures, Ensures-ok, Ensures-call, Ensures-guard, Ensures-require,
}
use kunlun_model_gateway.Base.Table.{find, put, find_self, find-put_cases, find-put-none}
use kunlun_model_gateway.Models.{Budget, BudgetStatus, Db, ModelRequest}
use kunlun_model_gateway.Budgets.{NewBudget, budget_key, supersede, create_budget}
use kunlun_model_gateway.Billing.BudgetHolds.{IsBudgeted}
use kunlun_model_gateway.Billing.Invariant.{IsSound}

is_absent : {A : Type 0} (o : Option A) → not (is_some o) ≡ true → o ≡ none
is_absent none e = refl
is_absent (some a) e = cc

module _ {budgets : List Budget} {requests : List ModelRequest}
    (inv : IsBudgeted budgets requests) where
  -- A row whose amounts stay may change its status.
  IsBudgeted-status :
      (row row' : Budget) (id : ℕ)
      → find budget_key id budgets ≡ some row
      → row'.id ≡ row.id
      → row'.reserved_microusd ≡ row.reserved_microusd
      → row'.spent_microusd ≡ row.spent_microusd
      → row'.limit_microusd ≡ row.limit_microusd
      → IsBudgeted (put budget_key row' budgets) requests
  IsBudgeted-status row row' id here same r s l =
      let own =
        subst (λ k. find budget_key k budgets ≡ some row) (sym same)
          (find_self budget_key id budgets row here) in
      record {
        within = λ b v e. elim (find-put_cases budget_key row' row v b budgets own e) [
          | inl (at, new) ↦ rw new (record {
            held = rw (r, same, (inv.within id row here).held);
            limited = rw (s, r, l) ((inv.within id row here).limited);
          })
          | inr (ne, old) ↦ inv.within b v old
        ];
        absent = λ b e. inv.absent b (find-put-none budget_key row' row b budgets own e);
      }

  -- A new budget that holds nothing.
  IsBudgeted-new :
      (fresh : Budget)
      → find budget_key fresh.id budgets ≡ none
      → fresh.reserved_microusd ≡ 0
      → fresh.spent_microusd ≤ fresh.limit_microusd
      → IsBudgeted (fresh ∷ budgets) requests
  unfolding find
  IsBudgeted-new fresh gone zero room = record {
    within = λ b v e. elim (Bool-cases (fresh.id == b)) [
      | inl at ↦
          rw (sym (head b v at e))
            (record { held = zero ∙ sym (inv.absent fresh.id gone); limited = omega arith })
      | inr ne ↦ inv.within b v (rw ne at e)
    ];
    absent = λ b e. elim (Bool-cases (fresh.id == b)) [
      | inl at ↦ absurd (cc (rw at at e))
      | inr ne ↦ inv.absent b (rw ne at e)
    ];
  }
    where
      head :
          (b : ℕ) (v : Budget)
          → (fresh.id == b) ≡ true
          → find budget_key b (fresh ∷ budgets) ≡ some v
          → fresh ≡ v
      head b v at e = cc (rw at at e)

supersede-IsBudgeted :
    (q : NewBudget) (o : Option Budget) (budgets : List Budget) (requests : List ModelRequest)
    → IsBudgeted budgets requests
    → Ensures
        (λ (left : ℕ × List Budget). IsBudgeted left.1 requests × (left.0 ≤ q.amount))
        (supersede q o budgets)
unfolding supersede
supersede-IsBudgeted q none budgets requests inv = Ensures-ok _ (inv, omega arith)
supersede-IsBudgeted q (some current) budgets requests inv = Ensures-guard _ _ _ λ idle.
    Ensures-guard _ _ _ λ enough. Ensures-require _ _ _ λ row here. Ensures-ok _ (
      IsBudgeted-status inv row (record row { status = BudgetStatus.superseded }) current.id here
          refl refl refl refl,
      ground arith,
    )

-- Replacing the budget of a month keeps the database sound: the new budget starts with the spend
-- of the old one, within its limit, and holds nothing.
pub create_budget-IsSound :
    (q : NewBudget) (db : Db) (fresh : Budget) (db' : Db)
    → IsSound db
    → create_budget q db ≡ ok (fresh, db')
    → IsSound db'
unfolding create_budget
create_budget-IsSound q db fresh db' inv e =
    (Ensures-guard {P = λ (r : Budget × Db). IsSound r.1} _ _ _ λ positive.
        Ensures-require _ _ _ λ wallet _.
          Ensures-call _ _ (supersede-IsBudgeted q _ db.budgets db.requests inv.budgeted)
            λ left kept. Ensures-guard _ _ _ λ unused. Ensures-ok _ (record {
              journal = inv.journal;
              reconciled = inv.reconciled;
              held = inv.held;
              budgeted = IsBudgeted-new kept.0 _ (is_absent _ unused) refl kept.1;
            })).returned
      (fresh, db') e
