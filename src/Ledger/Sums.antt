-- ===== src/Ledger/Sums.antt =====
-- The amount that an account holds: the sum of its entries, one by one and over the journal.
use kunlun_model_gateway.Base.{
  ℕ, ◌+◌, ◌≡◌, refl, sym, ◌∙◌, inl, inr, Bool, true, false, List, [], ◌∷◌, ◌==◌, arith, Bool-cases,
  if◌then◌else◌,
}
use kunlun_model_gateway.Base.Int.{ℤ, pos, pos_part, neg_part, ◌+ℤ◌, is_zero, int_laws}
use kunlun_model_gateway.Models.{Account, LedgerTransaction}
use kunlun_model_gateway.Ledger.{Entry, is_account, nonzero}

-- What the entries add to account `a`.
unfoldable pub amount_in : Account → List Entry → ℤ
amount_in a [] = pos 0
amount_in a ((b, x) ∷ es) = (if is_account b a then x else pos 0) +ℤ amount_in a es

-- `select(func.sum(amount_microusd))` over one user's entries in account `a`.
unfoldable pub balance_of : ℕ → Account → List LedgerTransaction → ℤ
balance_of u a [] = pos 0
balance_of u a (t ∷ ts) =
    (if t.user_id == u then amount_in a t.entries else pos 0) +ℤ balance_of u a ts

is_zero_parts : (x : ℤ) → is_zero x ≡ true → pos_part x + neg_part x ≡ 0
is_zero_parts x z = ground arith

pub zero_add : (x y : ℤ) → is_zero x ≡ true → x +ℤ y ≡ y
zero_add x y z = omega (int_laws, is_zero_parts x z)

pub if_zero : (b : Bool) (x : ℤ) → is_zero x ≡ true → is_zero (if b then x else pos 0) ≡ true
if_zero true x z = z
if_zero false x z = refl

-- Dropping the zero amounts changes no account's sum, nor the whole sum.
pub amount_in-nonzero : (a : Account) (es : List Entry) → amount_in a (nonzero es) ≡ amount_in a es
unfolding amount_in nonzero
amount_in-nonzero a [] = refl
amount_in-nonzero a ((b, x) ∷ es) = elim (Bool-cases (is_zero x)) [
  | inl z ↦
      rw z
        (amount_in-nonzero a es ∙ sym (zero_add _ (amount_in a es) (if_zero (is_account b a) x z)))
  | inr n ↦ rw (n, amount_in-nonzero a es)
]
