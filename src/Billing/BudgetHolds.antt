-- ===== src/Billing/BudgetHolds.antt =====
-- The part of a budget that open requests hold, and the limit that it stays under.
use kunlun_model_gateway.Base.{
  ℕ, ◌+◌, ◌≤◌, ◌≡◌, true, false, none, some, List, ◌∷◌, inl, inr, arith,
}
use kunlun_model_gateway.Base.Table.{
  find, put, sum_by, find-put_cases, find-put-none, find-ne, key-find, sum_by-put,
}
use kunlun_model_gateway.Models.{Budget, ModelRequest, holds}
use kunlun_model_gateway.Budgets.{budget_key}
use kunlun_model_gateway.Billing.Holds.{request_key, hold_on}

pub record IsWithin (requests : List ModelRequest) (row : Budget) : Type 0 where
  pub held : row.reserved_microusd ≡ sum_by (hold_on row.id) requests
  pub limited : row.spent_microusd + row.reserved_microusd ≤ row.limit_microusd

-- Every budget holds what its open requests reserve, within its limit; no request holds on a
-- budget that does not exist.
pub record IsBudgeted (budgets : List Budget) (requests : List ModelRequest) : Type 0 where
  pub within : (b : ℕ) (row : Budget) → find budget_key b budgets ≡ some row → IsWithin requests row
  pub absent : (b : ℕ) → find budget_key b budgets ≡ none → sum_by (hold_on b) requests ≡ 0

module _ {budgets : List Budget} {requests : List ModelRequest}
    (inv : IsBudgeted budgets requests) where
  pub IsBudgeted-open_free :
      (r : ModelRequest) → r.budget_id ≡ none → IsBudgeted budgets (r ∷ requests)
  IsBudgeted-open_free r free = record {
    within = λ b row e. record {
      held = unfold sum_by hold_on in ground (arith, (inv.within b row e).held);
      limited = (inv.within b row e).limited;
    };
    absent = λ b e. unfold sum_by hold_on in ground (arith, inv.absent b e);
  }

  pub IsBudgeted-open :
      (r : ModelRequest) (row row' : Budget)
      → r.budget_id ≡ some row'.id
      → find budget_key row'.id budgets ≡ some row
      → row'.reserved_microusd ≡ row.reserved_microusd + r.reserved_microusd
      → row'.spent_microusd + row'.reserved_microusd ≤ row'.limit_microusd
      → holds r.status ≡ true
      → IsBudgeted (put budget_key row' budgets) (r ∷ requests)
  IsBudgeted-open r row row' on here more room opened = record {
    within = λ b v e. elim (find-put_cases budget_key row' row v b budgets here e) [
      | inl (at, new) ↦ record {
        held =
            unfold sum_by hold_on in
            ground (
              arith,
              (inv.within row'.id row here).held,
              key-find budget_key row'.id budgets row here,
            );
        limited = rw new room;
      }
      | inr (ne, old) ↦ record {
        held =
            unfold sum_by hold_on in
            ground (arith, (inv.within b v old).held, key-find budget_key b budgets v old);
        limited = (inv.within b v old).limited;
      }
    ];
    absent = λ b e.
        let gone = find-put-none budget_key row' row b budgets here e in
        unfold sum_by hold_on in
        ground (arith, inv.absent b gone, find-ne budget_key row'.id b row budgets here gone);
  }

  pub IsBudgeted-close_free :
      (r r' : ModelRequest)
      → find request_key r'.id requests ≡ some r
      → r.budget_id ≡ none
      → r'.budget_id ≡ none
      → IsBudgeted budgets (put request_key r' requests)
  IsBudgeted-close_free r r' there free free' = record {
    within = λ b row e. record {
      held =
          unfold hold_on in
          ground (
            arith,
            (inv.within b row e).held,
            sum_by-put request_key (hold_on row.id) r' r requests there,
          );
      limited = (inv.within b row e).limited;
    };
    absent = λ b e.
        unfold hold_on in
        ground (arith, inv.absent b e, sum_by-put request_key (hold_on b) r' r requests there);
  }

  pub IsBudgeted-close :
      (r r' : ModelRequest) (row row' : Budget)
      → find request_key r'.id requests ≡ some r
      → r.budget_id ≡ some row'.id
      → r'.budget_id ≡ r.budget_id
      → find budget_key row'.id budgets ≡ some row
      → row'.reserved_microusd + r.reserved_microusd ≡ row.reserved_microusd
      → row'.spent_microusd + row'.reserved_microusd ≤ row'.limit_microusd
      → holds r.status ≡ true
      → holds r'.status ≡ false
      → IsBudgeted (put budget_key row' budgets) (put request_key r' requests)
  IsBudgeted-close r r' row row' there on same here less room opened shut = record {
    within = λ b v e. elim (find-put_cases budget_key row' row v b budgets here e) [
      | inl (at, new) ↦ record {
        held =
            unfold hold_on in
            ground (
              arith,
              (inv.within row'.id row here).held,
              key-find budget_key row'.id budgets row here,
              sum_by-put request_key (hold_on v.id) r' r requests there,
            );
        limited = rw new room;
      }
      | inr (ne, old) ↦ record {
        held =
            unfold hold_on in
            ground (
              arith,
              (inv.within b v old).held,
              key-find budget_key b budgets v old,
              sum_by-put request_key (hold_on v.id) r' r requests there,
            );
        limited = (inv.within b v old).limited;
      }
    ];
    absent = λ b e.
        let gone = find-put-none budget_key row' row b budgets here e in
        unfold hold_on in
        ground (
          arith,
          inv.absent b gone,
          find-ne budget_key row'.id b row budgets here gone,
          sum_by-put request_key (hold_on b) r' r requests there,
        );
  }

  pub IsBudgeted-keep :
      (r r' : ModelRequest)
      → find request_key r'.id requests ≡ some r
      → r'.budget_id ≡ r.budget_id
      → r'.reserved_microusd ≡ r.reserved_microusd
      → holds r'.status ≡ holds r.status
      → IsBudgeted budgets (put request_key r' requests)
  IsBudgeted-keep r r' there on amount same = record {
    within = λ b row e. record {
      held =
          unfold hold_on in
          ground (
            arith,
            (inv.within b row e).held,
            sum_by-put request_key (hold_on row.id) r' r requests there,
          );
      limited = (inv.within b row e).limited;
    };
    absent = λ b e.
        unfold hold_on in
        ground (arith, inv.absent b e, sum_by-put request_key (hold_on b) r' r requests there);
  }
