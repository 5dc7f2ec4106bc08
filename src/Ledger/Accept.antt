-- ===== src/Ledger/Accept.antt =====
-- When `post_transaction` of app/services/ledger.py accepts its entries.
use kunlun_model_gateway.Base.{
  ℕ, suc, ◌≤◌, ◌≡◌, refl, sym, ◌∙◌, inl, inr, true, false, List, [], ◌∷◌, ◌&&◌, leb, length, arith,
  Bool-cases,
}
use kunlun_model_gateway.Base.Int.{ℤ, pos, is_zero}
use kunlun_model_gateway.Base.Result.{ok, guard, ◌>>=◌, Ensures, Ensures-ok, Ensures-guard}
use kunlun_model_gateway.Models.{Account, Kind, LedgerKey, LedgerTransaction}
use kunlun_model_gateway.Ledger.{Entry, nonzero, entries_sum, is_posted, post_transaction}
use kunlun_model_gateway.Ledger.Sums.{zero_add}

pub entries_sum-nonzero : (es : List Entry) → entries_sum (nonzero es) ≡ entries_sum es
unfolding entries_sum nonzero
entries_sum-nonzero [] = refl
entries_sum-nonzero ((a, x) ∷ es) = elim (Bool-cases (is_zero x)) [
  | inl z ↦ rw z (entries_sum-nonzero es ∙ sym (zero_add x (entries_sum es) z))
  | inr n ↦ rw (n, entries_sum-nonzero es)
]

pub length-nonzero_cons :
    (a : Account) (x : ℤ) (es : List Entry)
    → is_zero x ≡ false
    → length (nonzero ((a, x) ∷ es)) ≡ suc (length (nonzero es))
unfolding nonzero
length-nonzero_cons a x es n = rw n

both : (n : ℕ) (x : ℤ) → 2 ≤ n → x ≡ pos 0 → leb 2 n && is_zero x ≡ true
both n x h e = ground arith

-- Balanced entries with two legs are accepted, under a key that is not in the journal.
pub post_transaction-ok :
    (user : ℕ) (kind : Kind) (reference : ℕ) (key : LedgerKey) (es : List Entry)
    (ledger : List LedgerTransaction)
    → 2 ≤ length (nonzero es)
    → entries_sum es ≡ pos 0
    → is_posted key ledger ≡ false
    → post_transaction user kind reference key es ledger
      ≡ ok (
          record {
            user_id = user;
            kind = kind;
            reference = reference;
            idempotency_key = key;
            entries = nonzero es;
          }
          ∷ ledger)
unfolding post_transaction guard ◌>>=◌
post_transaction-ok user kind reference key es ledger legs zero_sum fresh =
    rw (both _ _ legs (entries_sum-nonzero es ∙ zero_sum), fresh)

-- What an accepted call adds is one transaction, with the entries that are not zero.
pub post_transaction-added :
    (user : ℕ) (kind : Kind) (reference : ℕ) (key : LedgerKey) (es : List Entry)
    (ledger : List LedgerTransaction)
    → Ensures
        (λ (l : List LedgerTransaction).
          l
          ≡ record {
            user_id = user;
            kind = kind;
            reference = reference;
            idempotency_key = key;
            entries = nonzero es;
          }
            ∷ ledger)
        (post_transaction user kind reference key es ledger)
unfolding post_transaction
post_transaction-added user kind reference key es ledger =
    Ensures-guard _ _ _ λ _. Ensures-guard _ _ _ λ _. Ensures-ok _ refl
