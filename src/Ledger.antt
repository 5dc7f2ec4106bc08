-- ===== src/Ledger.antt =====
-- app/services/ledger.py: the append-only, double-entry journal. The Integer sums of its accounts
-- are in Ledger/Sums, and what posting does to them in Ledger/Post.
pub mod Sums
pub mod Post
pub mod Accept
pub mod Wallets
use kunlun_model_gateway.Base.{
  ℕ, Bool, true, false, not, List, [], ◌∷◌, ◌&&◌, ◌||◌, length, leb, ◌==◌, if◌then◌else◌,
}
use kunlun_model_gateway.Base.Int.{ℤ, pos, ◌+ℤ◌, is_zero}
use kunlun_model_gateway.Base.Result.{Result, ok, unbalanced, integrity, guard, ◌>>=◌, ◌>>◌}
use kunlun_model_gateway.Models.{Account, Kind, LedgerKey, LedgerTransaction}

abbrev pub Entry : Type 0
Entry = Account × ℤ

abbrev account_code : Account → ℕ
account_code Account.customer_available = 0
account_code Account.customer_reserved = 1
account_code Account.platform_clearing = 2
account_code Account.platform_revenue = 3
account_code Account.platform_risk = 4
account_code Account.platform_loss = 5
account_code Account.platform_provider_expense = 6
account_code Account.platform_provider_payable = 7

abbrev pub is_account : Account → Account → Bool
is_account a b = account_code a == account_code b

-- The format strings have distinct prefixes, and the identifiers are compared one by one.
abbrev pub same_key : LedgerKey → LedgerKey → Bool
same_key (LedgerKey.model_reserve r) (LedgerKey.model_reserve s) = r == s
same_key (LedgerKey.model_settle r) (LedgerKey.model_settle s) = r == s
same_key (LedgerKey.model_release r) (LedgerKey.model_release s) = r == s
same_key (LedgerKey.payment_event p e) (LedgerKey.payment_event q f) = (p == q) && (e == f)
same_key (LedgerKey.refund r) (LedgerKey.refund s) = r == s
same_key (LedgerKey.refund_risk r) (LedgerKey.refund_risk s) = r == s
same_key (LedgerKey.refund_risk_disposition r k) (LedgerKey.refund_risk_disposition s l) =
    (r == s) && (k == l)
same_key _ _ = false

-- `if int(amount) != 0`.
unfoldable pub nonzero : List Entry → List Entry
nonzero [] = []
nonzero ((a, x) ∷ es) = let rest = nonzero es in if is_zero x then rest else (a, x) ∷ rest

unfoldable pub entries_sum : List Entry → ℤ
entries_sum [] = pos 0
entries_sum ((a, x) ∷ es) = x +ℤ entries_sum es

-- The unique constraint on `idempotency_key`.
unfoldable pub is_posted : LedgerKey → List LedgerTransaction → Bool
is_posted k [] = false
is_posted k (t ∷ ts) = same_key t.idempotency_key k || is_posted k ts

unfoldable pub post_transaction :
    ℕ → Kind → ℕ → LedgerKey → List Entry → List LedgerTransaction → Result (List LedgerTransaction)
post_transaction user kind reference key entries ledger = do
  let normalized = nonzero entries
  guard (leb 2 (length normalized) && is_zero (entries_sum normalized)) unbalanced
  guard (not (is_posted key ledger)) integrity
  ok (
      record {
        user_id = user;
        kind = kind;
        reference = reference;
        idempotency_key = key;
        entries = normalized;
      }
      ∷ ledger)
