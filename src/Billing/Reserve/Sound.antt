-- ===== src/Billing/Reserve/Sound.antt =====
-- Reserving keeps the database sound (app/services/gateway_billing.py, `reserve_model_request`).
use kunlun_model_gateway.Base.{
  ℕ, ◌+◌, ◌-◌, ◌≤◌, ◌≡◌, refl, true, Option, none, some, List, ◌∷◌, le_of_leb, arith,
}
use kunlun_model_gateway.Base.Int.{◌+ℤ◌}
use kunlun_model_gateway.Base.Result.{
  ok, Ensures, Ensures-ok, Ensures-call, Ensures-guard, Ensures-require, Ensures-catch,
}
use kunlun_model_gateway.Base.Table.{find_self}
use kunlun_model_gateway.Models.{Budget, Db, Kind, LedgerKey, ModelPrice, ModelRequest, Wallet}
use kunlun_model_gateway.Ledger.Sums.{amount_in}
use kunlun_model_gateway.Ledger.Post.{post_transaction-Posted}
use kunlun_model_gateway.Ledger.Wallets.{Moves, write-IsReconciled}
use kunlun_model_gateway.Budgets.{budget_key}
use kunlun_model_gateway.Billing.Holds.{IsHeld-open}
use kunlun_model_gateway.Billing.BudgetHolds.{IsBudgeted, IsBudgeted-open, IsBudgeted-open_free}
use kunlun_model_gateway.Billing.Invariant.{IsSound}
use kunlun_model_gateway.Billing.Reserve.{
  ReserveCall, Reservation, has_room, admit, hold_budget, insert_request, new_request,
  reserve_entries, reserve_amount, reserve_model_request,
}

reserve-Moves :
    (amount : ℕ) (w : Wallet)
    → amount ≤ w.balance_microusd
    → Moves (reserve_entries amount) w (record w {
      balance_microusd = w.balance_microusd - amount;
      reserved_microusd = w.reserved_microusd + amount;
    })
unfolding amount_in ◌+ℤ◌
reserve-Moves amount w enough = record {
  same_user = refl;
  available = ground arith;
  held = ground arith;
}

has_room-limit :
    (q : ReserveCall) (amount : ℕ) (b : Budget)
    → has_room q amount b ≡ true
    → b.spent_microusd + (b.reserved_microusd + amount) ≤ b.limit_microusd
has_room-limit q amount b room = ground arith

-- The budgets after the hold, seen with the request that owns it.
hold_budget-IsBudgeted :
    (q : ReserveCall) (price : ModelPrice) (amount : ℕ) (b : Option Budget) (budgets : List Budget)
    (requests : List ModelRequest)
    → IsBudgeted budgets requests
    → Ensures
        (λ (held : Option ℕ × List Budget).
          IsBudgeted held.1 (new_request q price amount held.0 ∷ requests))
        (hold_budget q amount b budgets)
unfolding hold_budget
hold_budget-IsBudgeted q price amount none budgets requests inv =
    Ensures-ok _ (IsBudgeted-open_free inv (new_request q price amount none) refl)
hold_budget-IsBudgeted q price amount (some b) budgets requests inv = Ensures-guard _ _ _ λ enough.
    Ensures-require _ _ _ λ row here. Ensures-guard _ _ _ λ room. Ensures-ok _ (
      IsBudgeted-open inv (new_request q price amount (some row.id)) row
        (record row { reserved_microusd = row.reserved_microusd + amount }) refl
        (find_self budget_key b.id budgets row here) refl (has_room-limit q amount row room) refl)

pub insert_request-eq :
    (r : ModelRequest) (requests : List ModelRequest)
    → Ensures (λ (rs : List ModelRequest). rs ≡ r ∷ requests) (insert_request r requests)
unfolding insert_request
insert_request-eq r requests =
    Ensures-guard _ _ _ λ fresh. Ensures-guard _ _ _ λ unused. Ensures-ok _ refl

admit-IsSound :
    (q : ReserveCall) (price : ModelPrice) (amount : ℕ) (db : Db)
    → IsSound db
    → Ensures IsSound (admit q price amount db)
unfolding admit
admit-IsSound q price amount db inv = Ensures-require _ _ _ λ user _. Ensures-guard _ _ _ λ _.
    Ensures-require _ _ _ λ key _. Ensures-guard _ _ _ λ _. Ensures-require _ _ _ λ wallet here.
      Ensures-guard _ _ _ λ enough.
        Ensures-call _ _
          (hold_budget-IsBudgeted q price amount _ db.budgets db.requests inv.budgeted)
          λ held budgeted. Ensures-call _ _ (insert_request-eq _ db.requests) λ requests added.
            Ensures-call _ _
              (post_transaction-Posted q.user_id Kind.reserve q.request_id
                (LedgerKey.model_reserve q.request_id) (reserve_entries amount) db.ledger)
              λ ledger posted. Ensures-ok _ (record {
                journal = posted.keeps inv.journal;
                reconciled =
                    write-IsReconciled db.wallets posted
                      (reserve-Moves amount wallet (le_of_leb _ _ enough)) here inv.reconciled;
                held = rw added (
                    IsHeld-open inv.held (new_request q price amount held.0) wallet _ here refl refl
                      refl);
                budgeted = rw added budgeted;
              })

-- A successful reservation keeps the journal double-entry, every wallet reconciled with it, the
-- reserved amounts equal to the holds of the open requests, and every budget within its limit.
pub reserve_model_request-IsSound :
    (q : ReserveCall) (db : Db) (reservation : Reservation) (db' : Db)
    → IsSound db
    → reserve_model_request q db ≡ ok (reservation, db')
    → IsSound db'
unfolding reserve_model_request
reserve_model_request-IsSound q db reservation db' inv e =
    (Ensures-require {P = λ (r : Reservation × Db). IsSound r.1} _ _ _ λ price _.
        Ensures-guard _ _ _ λ _. Ensures-guard _ _ _ λ _. Ensures-guard _ _ _ λ _.
          Ensures-call _ _
            (Ensures-catch _ _ (admit-IsSound q price (reserve_amount q price) db inv))
            λ db' sound. Ensures-ok _ sound).returned
      (reservation, db') e
