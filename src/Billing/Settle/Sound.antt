-- ===== src/Billing/Settle/Sound.antt =====
-- Settling keeps the database sound (app/services/gateway_billing.py, `settle_model_request`).
use kunlun_model_gateway.Base.{
  ℕ, ◌+◌, ◌-◌, ◌≡◌, refl, sym, ap, ◌∙◌, true, false, Bool, Option, none, some, List, le_of_leb,
  arith, if◌then◌else◌,
}
use kunlun_model_gateway.Base.Result.{
  ok, Ensures, Ensures-ok, Ensures-bind, Ensures-call, Ensures-guard, Ensures-require,
}
use kunlun_model_gateway.Base.Table.{find, put, find_self, key-find}
use kunlun_model_gateway.Models.{Budget, Db, Kind, LedgerKey, ModelRequest, RequestStatus, holds}
use kunlun_model_gateway.Ledger.Post.{post_transaction-Posted}
use kunlun_model_gateway.Ledger.Wallets.{write-IsReconciled}
use kunlun_model_gateway.Budgets.{budget_key}
use kunlun_model_gateway.Billing.Holds.{request_key, IsHeld-close}
use kunlun_model_gateway.Billing.BudgetHolds.{IsBudgeted, IsBudgeted-close, IsBudgeted-close_free}
use kunlun_model_gateway.Billing.Invariant.{IsSound, AllHold, holds_of_among}
use kunlun_model_gateway.Billing.Settle.{
  SettleCall, charge, settle_budget, settle_entries, settled_request, settle_model_request,
  usage_from_response, usage_cost,
}
use kunlun_model_gateway.Billing.Settle.Entries.{settle-Moves}

-- The budgets after the update, seen with the request closed.
settle_budget-IsBudgeted :
    (r r' : ModelRequest) (cost : ℕ) (budgets : List Budget) (requests : List ModelRequest)
    (b : Option ℕ)
    → r.budget_id ≡ b
    → IsBudgeted budgets requests
    → find request_key r'.id requests ≡ some r
    → r'.budget_id ≡ r.budget_id
    → holds r.status ≡ true
    → holds r'.status ≡ false
    → Ensures
        (λ (bs : List Budget). IsBudgeted bs (put request_key r' requests))
        (settle_budget b r.reserved_microusd (charge cost r.reserved_microusd) budgets)
unfolding settle_budget
settle_budget-IsBudgeted r r' cost budgets requests none on inv there same opened shut =
    Ensures-ok _ (IsBudgeted-close_free inv r r' there on (same ∙ on))
settle_budget-IsBudgeted r r' cost budgets requests (some id) on inv there same opened shut =
    Ensures-require _ _ _ λ row here. Ensures-guard _ _ _ λ enough. Ensures-ok _ (
      IsBudgeted-close inv r r' row
        (record row {
          reserved_microusd = row.reserved_microusd - r.reserved_microusd;
          spent_microusd = row.spent_microusd + charge cost r.reserved_microusd;
        })
        there (on ∙ ap some (sym (key-find budget_key id budgets row here))) same
        (find_self budget_key id budgets row here) (omega (arith, le_of_leb _ _ enough))
        (omega (arith, le_of_leb _ _ enough, (inv.within id row here).limited)) opened shut)

settled_shut :
    (covered : Bool)
    → holds (if covered then RequestStatus.settled else RequestStatus.under_reserved) ≡ false
settled_shut true = refl
settled_shut false = refl

-- A successful settlement of a request that was open keeps the database sound.
pub settle_model_request-IsSound :
    (q : SettleCall) (db : Db) (result : ℕ × Bool) (db' : Db)
    → AllHold q.allowed_statuses
    → IsSound db
    → settle_model_request q db ≡ ok (result, db')
    → IsSound db'
unfolding settle_model_request
settle_model_request-IsSound q db result db' allowed inv e =
    (Ensures-require {P = λ (r : (ℕ × Bool) × Db). IsSound r.1} _ _ _ λ r there.
        Ensures-guard _ _ _ λ among.
          let u = usage_from_response q.response r.input_tokens in
          let cost = usage_cost r.input_price r.output_price u in
          Ensures-bind _ _ λ upstream _. Ensures-require _ _ _ λ wallet here.
            Ensures-guard _ _ _ λ enough.
              let r' = settled_request q r u cost upstream in
              let there' = find_self request_key q.request_id db.requests r there in
              let opened = holds_of_among r.status q.allowed_statuses allowed among in
              Ensures-call _ _
                (settle_budget-IsBudgeted r r' cost db.budgets db.requests r.budget_id refl
                  inv.budgeted there' refl opened (settled_shut _))
                λ budgets budgeted.
                  Ensures-call _ _
                    (post_transaction-Posted r.user_id Kind.settle r.id
                      (LedgerKey.model_settle r.id)
                      (settle_entries r.reserved_microusd cost upstream) db.ledger)
                    λ ledger posted. Ensures-ok _ (record {
                      journal = posted.keeps inv.journal;
                      reconciled =
                          write-IsReconciled db.wallets posted
                            (settle-Moves r.reserved_microusd cost upstream wallet
                              (le_of_leb _ _ enough))
                            here inv.reconciled;
                      held =
                          IsHeld-close inv.held r r' wallet _ there' here refl
                            (omega (arith, le_of_leb _ _ enough)) refl opened (settled_shut _);
                      budgeted = budgeted;
                    })).returned
      (result, db') e
