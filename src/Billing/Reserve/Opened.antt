-- ===== src/Billing/Reserve/Opened.antt =====
-- What a granted reservation leaves to be closed (app/services/gateway_billing.py,
-- `reserve_model_request`).
use Prim.Native.Nat.{max}
use kunlun_model_gateway.Base.{
  ℕ, ◌+◌, ◌<◌, ◌≡◌, refl, false, Option, none, some, List, arith, ==-refl,
}
use kunlun_model_gateway.Base.Result.{
  ok, Ensures, Ensures-ok, Ensures-call, Ensures-guard, Ensures-require, Ensures-catch,
}
use kunlun_model_gateway.Base.Table.{find, find-put_self, find_self}
use kunlun_model_gateway.Models.{
  Budget, Db, Kind, LedgerKey, ModelPrice, ModelRequest, RequestStatus, Wallet,
}
use kunlun_model_gateway.Ledger.{is_posted}
use kunlun_model_gateway.Ledger.Accept.{post_transaction-added}
use kunlun_model_gateway.Ledger.Wallets.{wallet_key}
use kunlun_model_gateway.Budgets.{budget_key}
use kunlun_model_gateway.Billing.Holds.{request_key}
use kunlun_model_gateway.Billing.Settle.Total.{RefersTo}
use kunlun_model_gateway.Billing.Reserve.{
  ReserveCall, Reservation, admit, hold_budget, new_request, reserve_amount, reserve_entries,
  reserve_model_request,
}
use kunlun_model_gateway.Billing.Reserve.Sound.{insert_request-eq}

-- The request is `reserved` for a positive amount, its wallet and its budget are there, and its
-- release has not been booked.
pub record IsOpened (id : ℕ) (db : Db) : Type 0 where
  pub request : ModelRequest
  pub owner : Wallet
  pub request_found : find request_key id db.requests ≡ some request
  pub reserved : request.status ≡ RequestStatus.reserved
  pub positive : 0 < request.reserved_microusd
  pub owner_found : find wallet_key request.user_id db.wallets ≡ some owner
  pub budget_found : RefersTo request.budget_id db.budgets
  pub unreleased : is_posted (LedgerKey.model_release request.id) db.ledger ≡ false

hold_budget-RefersTo :
    (q : ReserveCall) (amount : ℕ) (b : Option Budget) (budgets : List Budget)
    → Ensures
        (λ (held : Option ℕ × List Budget). RefersTo held.0 held.1)
        (hold_budget q amount b budgets)
unfolding hold_budget
hold_budget-RefersTo q amount none budgets = Ensures-ok _ tt
hold_budget-RefersTo q amount (some b) budgets = Ensures-guard _ _ _ λ _.
    Ensures-require _ _ _ λ row here. Ensures-guard _ _ _ λ _.
      let held = record row { reserved_microusd = row.reserved_microusd + amount } in
      let there =
        find-put_self budget_key held row row.id budgets
          (find_self budget_key b.id budgets row here) refl in
      Ensures-ok _ (rw there refl)

admit-IsOpened :
    (q : ReserveCall) (price : ModelPrice) (amount : ℕ) (db : Db)
    → 0 < amount
    → is_posted (LedgerKey.model_release q.request_id) db.ledger ≡ false
    → Ensures
        (λ (db' : Db). IsOpened q.request_id db' × (db'.attempts ≡ db.attempts))
        (admit q price amount db)
unfolding admit find is_posted
admit-IsOpened q price amount db positive fresh = Ensures-require _ _ _ λ user _.
    Ensures-guard _ _ _ λ _. Ensures-require _ _ _ λ key _. Ensures-guard _ _ _ λ _.
      Ensures-require _ _ _ λ wallet here. Ensures-guard _ _ _ λ enough.
        Ensures-call _ _ (hold_budget-RefersTo q amount _ db.budgets) λ held refers.
          Ensures-call _ _ (insert_request-eq _ db.requests) λ requests added.
            Ensures-call _ _
              (post_transaction-added q.user_id Kind.reserve q.request_id
                (LedgerKey.model_reserve q.request_id) (reserve_entries amount) db.ledger)
              λ ledger posted. Ensures-ok _ (
                record {
                  request = new_request q price amount held.0;
                  owner = _;
                  request_found = rw (added, ==-refl) refl;
                  reserved = refl;
                  positive = positive;
                  owner_found = find-put_self wallet_key _ wallet q.user_id db.wallets here refl;
                  budget_found = refers;
                  unreleased = rw posted fresh;
                },
                refl,
              )

max_pos : (n : ℕ) → 0 < max 1 n
max_pos n = ground arith

-- A granted reservation is open and can be closed, if the new id has no release in the journal.
pub reserve_model_request-IsOpened :
    (q : ReserveCall) (db : Db) (reservation : Reservation) (db' : Db)
    → is_posted (LedgerKey.model_release q.request_id) db.ledger ≡ false
    → reserve_model_request q db ≡ ok (reservation, db')
    → IsOpened q.request_id db'
      × (db'.attempts ≡ db.attempts)
      × (reservation.request_id ≡ q.request_id)
unfolding reserve_model_request
reserve_model_request-IsOpened q db reservation db' fresh e =
    (Ensures-require
        {P = λ (r : Reservation × Db).
          IsOpened q.request_id r.1
          × (r.1.attempts ≡ db.attempts)
          × (r.0.request_id ≡ q.request_id)}
        _ _ _
        λ price _. Ensures-guard _ _ _ λ _. Ensures-guard _ _ _ λ _. Ensures-guard _ _ _ λ _.
          Ensures-call _ _
            (Ensures-catch _ _
              (admit-IsOpened q price (reserve_amount q price) db (max_pos _) fresh))
            λ db' (opened, kept). Ensures-ok _ (opened, kept, refl)).returned
      (reservation, db') e
