-- ===== src/Ledger/Post.antt =====
-- What `post_transaction` adds to the journal of app/services/ledger.py.
use kunlun_model_gateway.Base.{
  ℕ, ◌≤◌, ◌≡◌, Bool, true, false, List, [], ◌∷◌, ◌&&◌, ◌==◌, leb, length, arith, if◌then◌else◌,
}
use kunlun_model_gateway.Base.Int.{pos, ◌+ℤ◌, is_zero}
use kunlun_model_gateway.Base.Result.{Ensures, Ensures-guard, Ensures-ok, ok}
use kunlun_model_gateway.Models.{Account, Kind, LedgerKey, LedgerTransaction}
use kunlun_model_gateway.Ledger.{Entry, nonzero, entries_sum, is_posted, post_transaction}
use kunlun_model_gateway.Ledger.Sums.{amount_in, balance_of, amount_in-nonzero}

abbrev pub AllNonzero : List Entry → Type 0
AllNonzero [] = Unit
AllNonzero ((a, x) ∷ es) = (is_zero x ≡ false) × AllNonzero es

-- A transaction of the double-entry journal.
pub record IsDoubleEntry (t : LedgerTransaction) : Type 0 where
  pub two_legs : 2 ≤ length t.entries
  pub balanced : is_zero (entries_sum t.entries) ≡ true
  pub all_nonzero : AllNonzero t.entries

abbrev pub IsJournal : List LedgerTransaction → Type 0
IsJournal [] = Unit
IsJournal (t ∷ ts) = IsDoubleEntry t × (is_posted t.idempotency_key ts ≡ false) × IsJournal ts

nonzero-AllNonzero : (es : List Entry) → AllNonzero (nonzero es)
unfolding nonzero
nonzero-AllNonzero [] = tt
nonzero-AllNonzero ((a, x) ∷ es) = ground (arith, nonzero-AllNonzero es)

and_left : (n : ℕ) (b : Bool) → leb 2 n && b ≡ true → 2 ≤ n
and_left n b e = ground arith

and_right : (a b : Bool) → a && b ≡ true → b ≡ true
and_right a b e = ground arith

-- What a successful call has added, seen from any account of any user.
pub record Posted (user : ℕ) (key : LedgerKey) (entries : List Entry)
    (ledger ledger' : List LedgerTransaction) : Type 0 where
  pub sums :
      (u : ℕ) (a : Account)
      → balance_of u a ledger'
        ≡ (if user == u then amount_in a entries else pos 0) +ℤ balance_of u a ledger
  pub fresh : is_posted key ledger ≡ false
  pub keeps : IsJournal ledger → IsJournal ledger'

pub post_transaction-Posted :
    (user : ℕ) (kind : Kind) (reference : ℕ) (key : LedgerKey) (entries : List Entry)
    (ledger : List LedgerTransaction)
    → Ensures
        (Posted user key entries ledger)
        (post_transaction user kind reference key entries ledger)
unfolding post_transaction
post_transaction-Posted user kind reference key entries ledger = Ensures-guard _ _ _ λ legs.
    Ensures-guard _ _ _ λ unused. Ensures-ok _ (record {
      sums = λ u a. unfold balance_of in rw amount_in-nonzero;
      fresh = ground arith;
      keeps = λ journal. (
        record {
          two_legs = and_left _ _ legs;
          balanced = and_right _ _ legs;
          all_nonzero = nonzero-AllNonzero entries;
        },
        ground arith,
        journal,
      );
    })

-- A posting that is accepted keeps the journal: every transaction has two legs of non-zero amounts
-- that sum to zero, under a key of its own. It moves the balance of an account of its user by the
-- sum of its entries in that account, and no other balance.
pub post_transaction-IsJournal :
    (user : ℕ) (kind : Kind) (reference : ℕ) (key : LedgerKey) (entries : List Entry)
    (ledger ledger' : List LedgerTransaction)
    → IsJournal ledger
    → post_transaction user kind reference key entries ledger ≡ ok ledger'
    → IsJournal ledger'
      × ((u : ℕ) (a : Account)
          → balance_of u a ledger'
            ≡ (if user == u then amount_in a entries else pos 0) +ℤ balance_of u a ledger)
post_transaction-IsJournal user kind reference key entries ledger ledger' journal e =
    let posted =
      (post_transaction-Posted user kind reference key entries ledger).returned ledger' e in
    (posted.keeps journal, posted.sums)
