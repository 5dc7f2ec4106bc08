-- ===== src/Billing/Invariant.antt =====
-- What a sound database is for the billing services.
use kunlun_model_gateway.Base.{◌≡◌, inl, inr, true, false, List, [], ◌∷◌, arith, Bool-cases}
use kunlun_model_gateway.Models.{Db, RequestStatus, holds, is_among, is_request}
use kunlun_model_gateway.Ledger.Post.{IsJournal}
use kunlun_model_gateway.Ledger.Wallets.{IsReconciled}
use kunlun_model_gateway.Billing.Holds.{IsHeld}
use kunlun_model_gateway.Billing.BudgetHolds.{IsBudgeted}

pub record IsSound (db : Db) : Type 0 where
  pub journal : IsJournal db.ledger
  pub reconciled : IsReconciled db.wallets db.ledger
  pub held : IsHeld db.wallets db.requests
  pub budgeted : IsBudgeted db.budgets db.requests

-- The statuses that a caller lets be closed are those of open requests.
abbrev pub AllHold : List RequestStatus → Type 0
AllHold [] = Unit
AllHold (s ∷ ss) = (holds s ≡ true) × AllHold ss

same_status : (s t : RequestStatus) → is_request s t ≡ true → holds t ≡ true → holds s ≡ true
same_status s t e h = ground arith

pub holds_of_among :
    (s : RequestStatus) (allowed : List RequestStatus)
    → AllHold allowed
    → is_among s allowed ≡ true
    → holds s ≡ true
holds_of_among s [] h e = cc
holds_of_among s (t ∷ ts) h e = elim (Bool-cases (is_request s t)) [
  | inl same ↦ same_status s t same h.0
  | inr other ↦ holds_of_among s ts h.1 (rw other at e)
]

pub not_among :
    (s : RequestStatus) (allowed : List RequestStatus)
    → AllHold allowed
    → holds s ≡ false
    → is_among s allowed ≡ false
not_among s allowed h closed = elim (Bool-cases (is_among s allowed)) [
  | inl among ↦ absurd (cc (holds_of_among s allowed h among))
  | inr other ↦ other
]
