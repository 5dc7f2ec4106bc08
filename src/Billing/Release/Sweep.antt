-- ===== src/Billing/Release/Sweep.antt =====
-- The sweeper of app/services/reconciliation_maintenance.py releases nothing.
use kunlun_model_gateway.Base.{
  ℕ, ◌-◌, ◌≡◌, refl, sym, ◌∙◌, true, List, [], ◌∷◌, arith, if◌then◌else◌, if_elim,
}
use kunlun_model_gateway.Base.Result.{ok, Ensures-ok, Ensures-guard}
use kunlun_model_gateway.Base.Table.{sum_by}
use kunlun_model_gateway.Models.{Db, ModelRequest, Wallet, Budget, holds}
use kunlun_model_gateway.Billing.Holds.{IsHeld, hold_of, hold_on}
use kunlun_model_gateway.Billing.BudgetHolds.{IsBudgeted}
use kunlun_model_gateway.Billing.Invariant.{IsSound}
use kunlun_model_gateway.Billing.Release.{
  is_stale, expired_request, expire_rows, recover_stale_model_reservations,
}

stale_holds : (cutoff : ℕ) (r : ModelRequest) → is_stale cutoff r ≡ true → holds r.status ≡ true
stale_holds cutoff r e = ground arith

module _ (now cutoff : ℕ) where
  hold_of-expired :
      (u : ℕ) (r : ModelRequest)
      → hold_of u (if is_stale cutoff r then expired_request now r else r) ≡ hold_of u r
  hold_of-expired u r =
      if_elim (λ x. hold_of u x ≡ hold_of u r) (is_stale cutoff r) (expired_request now r) r
        (λ stale. unfold hold_of in rw (stale_holds cutoff r stale)) (λ _. refl)

  hold_on-expired :
      (b : ℕ) (r : ModelRequest)
      → hold_on b (if is_stale cutoff r then expired_request now r else r) ≡ hold_on b r
  hold_on-expired b r =
      if_elim (λ x. hold_on b x ≡ hold_on b r) (is_stale cutoff r) (expired_request now r) r
        (λ stale. unfold hold_on in rw (stale_holds cutoff r stale)) (λ _. refl)

  held_same :
      (u : ℕ) (rs : List ModelRequest)
      → sum_by (hold_of u) (expire_rows now cutoff rs) ≡ sum_by (hold_of u) rs
  unfolding sum_by expire_rows
  held_same u [] = refl
  held_same u (r ∷ rs) = omega (arith, hold_of-expired u r, held_same u rs)

  budgeted_same :
      (b : ℕ) (rs : List ModelRequest)
      → sum_by (hold_on b) (expire_rows now cutoff rs) ≡ sum_by (hold_on b) rs
  unfolding sum_by expire_rows
  budgeted_same b [] = refl
  budgeted_same b (r ∷ rs) = omega (arith, hold_on-expired b r, budgeted_same b rs)

  expire_rows-IsHeld :
      (wallets : List Wallet) (rs : List ModelRequest)
      → IsHeld wallets rs
      → IsHeld wallets (expire_rows now cutoff rs)
  expire_rows-IsHeld wallets rs inv = record {
    held = λ u w e. inv.held u w e ∙ sym (held_same u rs);
  }

  expire_rows-IsBudgeted :
      (budgets : List Budget) (rs : List ModelRequest)
      → IsBudgeted budgets rs
      → IsBudgeted budgets (expire_rows now cutoff rs)
  expire_rows-IsBudgeted budgets rs inv = record {
    within = λ b row e. record {
      held = (inv.within b row e).held ∙ sym (budgeted_same row.id rs);
      limited = (inv.within b row e).limited;
    };
    absent = λ b e. budgeted_same b rs ∙ inv.absent b e;
  }

-- The sweeper keeps the database sound, and leaves wallets, budgets and journal as they were: it
-- only makes stale reservations visible to an operator.
pub recover_stale-IsSound :
    (lease_seconds now : ℕ) (db : Db) (count : ℕ) (db' : Db)
    → IsSound db
    → recover_stale_model_reservations lease_seconds now db ≡ ok (count, db')
    → IsSound db'
      × (db'.wallets ≡ db.wallets)
      × (db'.budgets ≡ db.budgets)
      × (db'.ledger ≡ db.ledger)
unfolding recover_stale_model_reservations
recover_stale-IsSound lease_seconds now db count db' inv e =
    (Ensures-guard
        {P = λ (r : ℕ × Db).
          IsSound r.1
          × (r.1.wallets ≡ db.wallets)
          × (r.1.budgets ≡ db.budgets)
          × (r.1.ledger ≡ db.ledger)}
        _ _ _
        λ _. Ensures-ok _ (
          record {
            journal = inv.journal;
            reconciled = inv.reconciled;
            held = expire_rows-IsHeld now (now - lease_seconds) db.wallets db.requests inv.held;
            budgeted =
                expire_rows-IsBudgeted now (now - lease_seconds) db.budgets db.requests
                  inv.budgeted;
          },
          refl,
          refl,
          refl,
        )).returned
      (count, db') e
