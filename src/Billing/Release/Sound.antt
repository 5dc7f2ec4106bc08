-- ===== src/Billing/Release/Sound.antt =====
-- Releasing, and handing over to reconciliation, keep the database sound
-- (app/services/gateway_billing.py, app/services/reconciliation_maintenance.py).
use kunlun_model_gateway.Base.{
  ℕ, ◌+◌, ◌-◌, ◌≤◌, ◌≡◌, refl, sym, ap, ◌∙◌, true, false, Option, none, some, List, le_of_leb,
  arith, if_elim,
}
use kunlun_model_gateway.Base.Int.{◌+ℤ◌}
use kunlun_model_gateway.Base.Result.{
  ok, Ensures, Ensures-ok, Ensures-call, Ensures-guard, Ensures-require, Ensures-if,
}
use kunlun_model_gateway.Base.Table.{find, put, find_self, key-find}
use kunlun_model_gateway.Models.{
  Budget, Db, LedgerKey, ModelRequest, RequestStatus, Wallet, holds, is_request,
}
use kunlun_model_gateway.Ledger.Sums.{amount_in}
use kunlun_model_gateway.Ledger.Post.{post_transaction-Posted}
use kunlun_model_gateway.Ledger.Wallets.{Moves, write-IsReconciled}
use kunlun_model_gateway.Budgets.{budget_key}
use kunlun_model_gateway.Billing.Holds.{request_key, IsHeld-close, IsHeld-keep}
use kunlun_model_gateway.Billing.BudgetHolds.{
  IsBudgeted, IsBudgeted-close, IsBudgeted-close_free, IsBudgeted-keep,
}
use kunlun_model_gateway.Billing.Invariant.{IsSound, AllHold, holds_of_among}
use kunlun_model_gateway.Billing.Release.{
  ReleaseCall, release_budget, release_entries, released_request, release_open, release_found,
  release_model_request, PendingCall, pending_request, mark_found, mark_pending_reconciliation,
}

release-Moves :
    (reserved : ℕ) (w : Wallet)
    → reserved ≤ w.reserved_microusd
    → Moves (release_entries reserved) w (record w {
      reserved_microusd = w.reserved_microusd - reserved;
      balance_microusd = w.balance_microusd + reserved;
    })
unfolding amount_in ◌+ℤ◌
release-Moves reserved w enough = record {
  same_user = refl;
  available = ground arith;
  held = ground arith;
}

release_budget-IsBudgeted :
    (r r' : ModelRequest) (budgets : List Budget) (requests : List ModelRequest) (b : Option ℕ)
    → r.budget_id ≡ b
    → IsBudgeted budgets requests
    → find request_key r'.id requests ≡ some r
    → r'.budget_id ≡ r.budget_id
    → holds r.status ≡ true
    → holds r'.status ≡ false
    → Ensures
        (λ (bs : List Budget). IsBudgeted bs (put request_key r' requests))
        (release_budget b r.reserved_microusd budgets)
unfolding release_budget
release_budget-IsBudgeted r r' budgets requests none on inv there same opened shut =
    Ensures-ok _ (IsBudgeted-close_free inv r r' there on (same ∙ on))
release_budget-IsBudgeted r r' budgets requests (some id) on inv there same opened shut =
    Ensures-require _ _ _ λ row here. Ensures-guard _ _ _ λ enough. Ensures-ok _ (
      IsBudgeted-close inv r r' row
        (record row { reserved_microusd = row.reserved_microusd - r.reserved_microusd }) there
        (on ∙ ap some (sym (key-find budget_key id budgets row here))) same
        (find_self budget_key id budgets row here) (omega (arith, le_of_leb _ _ enough))
        (omega (arith, le_of_leb _ _ enough, (inv.within id row here).limited)) opened shut)

release_open-IsSound :
    (q : ReleaseCall) (r : ModelRequest) (db : Db)
    → find request_key r.id db.requests ≡ some r
    → holds r.status ≡ true
    → holds q.final_status ≡ false
    → IsSound db
    → Ensures IsSound (release_open q r db)
unfolding release_open
release_open-IsSound q r db there opened shut inv =
    let r' = released_request q r in
    Ensures-require _ _ _ λ wallet here. Ensures-guard _ _ _ λ enough.
      Ensures-call _ _
        (release_budget-IsBudgeted r r' db.budgets db.requests r.budget_id refl inv.budgeted there
          refl opened shut)
        λ budgets budgeted.
          Ensures-call _ _
            (post_transaction-Posted r.user_id q.ledger_kind r.id (LedgerKey.model_release r.id)
              (release_entries r.reserved_microusd) db.ledger)
            λ ledger posted. Ensures-ok _ (record {
              journal = posted.keeps inv.journal;
              reconciled =
                  write-IsReconciled db.wallets posted
                    (release-Moves r.reserved_microusd wallet (le_of_leb _ _ enough)) here
                    inv.reconciled;
              held =
                  IsHeld-close inv.held r r' wallet _ there here refl
                    (omega (arith, le_of_leb _ _ enough)) refl opened shut;
              budgeted = budgeted;
            })

release_found-IsSound :
    (q : ReleaseCall) (o : Option ModelRequest) (db : Db)
    → find request_key q.request_id db.requests ≡ o
    → AllHold q.allowed_statuses
    → holds q.final_status ≡ false
    → IsSound db
    → Ensures IsSound (release_found q o db)
unfolding release_found
release_found-IsSound q none db there allowed shut inv = Ensures-ok _ inv
release_found-IsSound q (some r) db there allowed shut inv =
    Ensures-if _ _ _
      (λ among.
        release_open-IsSound q r db (find_self request_key q.request_id db.requests r there)
          (holds_of_among r.status q.allowed_statuses allowed among) shut inv)
      (λ _. Ensures-ok _ inv)

-- Releasing an open request into a final status keeps the database sound.
pub release_model_request-IsSound :
    (q : ReleaseCall) (db db' : Db)
    → AllHold q.allowed_statuses
    → holds q.final_status ≡ false
    → IsSound db
    → release_model_request q db ≡ ok db'
    → IsSound db'
unfolding release_model_request
release_model_request-IsSound q db db' allowed shut inv e =
    (release_found-IsSound q _ db refl allowed shut inv).returned db' e

reserved-holds : (s : RequestStatus) → is_request s RequestStatus.reserved ≡ true → holds s ≡ true
reserved-holds s e = ground arith

mark_found-IsSound :
    (q : PendingCall) (o : Option ModelRequest) (db : Db)
    → find request_key q.request_id db.requests ≡ o
    → IsSound db
    → IsSound (mark_found q o db)
unfolding mark_found
mark_found-IsSound q none db there inv = inv
mark_found-IsSound q (some r) db there inv =
    if_elim IsSound (is_request r.status RequestStatus.reserved) _ db
      (λ reserved.
        let there' = find_self request_key q.request_id db.requests r there in
        let opened = reserved-holds r.status reserved in
        record {
          journal = inv.journal;
          reconciled = inv.reconciled;
          held = IsHeld-keep inv.held r (pending_request q r) there' refl refl (sym opened);
          budgeted =
              IsBudgeted-keep inv.budgeted r (pending_request q r) there' refl refl (sym opened);
        })
      (λ _. inv)

-- Handing a request over to reconciliation moves no money: every hold stays.
pub mark_pending_reconciliation-IsSound :
    (q : PendingCall) (db : Db) → IsSound db → IsSound (mark_pending_reconciliation q db)
unfolding mark_pending_reconciliation
mark_pending_reconciliation-IsSound q db inv = mark_found-IsSound q _ db refl inv
