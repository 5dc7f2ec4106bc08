-- ===== src/Billing/Settle/Balanced.antt =====
-- The entries of a settlement balance, and have two legs (app/services/gateway_billing.py).
use native.Mathlib.Decide.{dec_lt}
use kunlun_model_gateway.Base.{
  ℕ, suc, ◌-◌, ◌≤◌, ◌<◌, ◌≡◌, refl, sym, inl, inr, true, false, List, [], ◌∷◌, ◌==◌, arith, length,
  Bool-cases, if_elim, ==_iff,
}
use kunlun_model_gateway.Base.Int.{ℤ, pos, pos_part, neg_part, neg, ◌+ℤ◌, is_zero, int_laws}
use kunlun_model_gateway.Models.{Account}
use kunlun_model_gateway.Ledger.{Entry, entries_sum, nonzero}
use kunlun_model_gateway.Ledger.Sums.{zero_add}
use kunlun_model_gateway.Ledger.Accept.{length-nonzero_cons}
use kunlun_model_gateway.Billing.Settle.{entry_if, charge, settle_entries}

entries_sum-entry_if :
    (b : Account) (n : ℕ) (x : ℤ) (es : List Entry)
    → (n ≡ 0 → is_zero x ≡ true)
    → entries_sum (entry_if n (b, x) es) ≡ x +ℤ entries_sum es
unfolding entries_sum entry_if
entries_sum-entry_if b n x es h =
    if_elim (λ l. entries_sum l ≡ x +ℤ entries_sum es) (n == 0) es ((b, x) ∷ es)
      (λ z. sym (zero_add x (entries_sum es) (h ((==_iff n 0).0 z)))) (λ _. refl)

entries_sum-entry_pos :
    (b : Account) (n : ℕ) (es : List Entry)
    → entries_sum (entry_if n (b, pos n) es) ≡ pos n +ℤ entries_sum es
entries_sum-entry_pos b n es = entries_sum-entry_if b n (pos n) es (λ z. ground arith)

entries_sum-entry_neg :
    (b : Account) (n : ℕ) (es : List Entry)
    → entries_sum (entry_if n (b, neg n) es) ≡ neg n +ℤ entries_sum es
entries_sum-entry_neg b n es = entries_sum-entry_if b n (neg n) es (λ z. ground arith)

neg_parts : (n : ℕ) → (pos_part (neg n) ≡ 0) × (neg_part (neg n) ≡ n)
neg_parts n = ground arith

-- The amounts of a settlement cancel.
balance_out :
    (r c u : ℕ)
    → neg r
        +ℤ (pos (r - charge c r)
            +ℤ (pos c +ℤ (neg (c - charge c r) +ℤ (pos u +ℤ (neg u +ℤ pos 0)))))
      ≡ pos 0
balance_out r c u = omega (int_laws, neg_parts r, neg_parts (c - charge c r), neg_parts u)

pub entries_sum-settle : (r c u : ℕ) → entries_sum (settle_entries r c u) ≡ pos 0
unfolding settle_entries entries_sum
entries_sum-settle r c u = simp (entries_sum-entry_pos, entries_sum-entry_neg) (balance_out r c u)

pos_nonzero : (n : ℕ) → 0 < n → is_zero (pos n) ≡ false
pos_nonzero n p = ground arith

neg_nonzero : (n : ℕ) → 0 < n → is_zero (neg n) ≡ false
neg_nonzero n p = ground arith

-- An entry of a positive amount counts.
one_leg :
    (b : Account) (n : ℕ) (x : ℤ) (es : List Entry)
    → 0 < n
    → is_zero x ≡ false
    → 1 ≤ length (nonzero (entry_if n (b, x) es))
unfolding entry_if
one_leg b n x es p nz =
    if_elim (λ l. 1 ≤ length (nonzero l)) (n == 0) es ((b, x) ∷ es)
      (λ z. absurd (omega (arith, (==_iff n 0).0 z)))
      (λ _. rw (length-nonzero_cons b x es nz) (omega arith))

skip_leg :
    (b : Account) (n : ℕ) (x : ℤ) (es : List Entry)
    → 1 ≤ length (nonzero es)
    → 1 ≤ length (nonzero (entry_if n (b, x) es))
unfolding entry_if nonzero
skip_leg b n x es h =
    if_elim (λ l. 1 ≤ length (nonzero l)) (n == 0) es ((b, x) ∷ es) (λ _. h)
      (λ _. elim (Bool-cases (is_zero x)) [ inl z ↦ rw z h | inr nz ↦ rw nz (omega arith) ])

pub two_legs-settle : (r c u : ℕ) → 0 < r → 2 ≤ length (nonzero (settle_entries r c u))
unfolding settle_entries
two_legs-settle r c u p =
    rw (length-nonzero_cons Account.customer_reserved (neg r) _ (neg_nonzero r p))
      (second_leg (dec_lt 0 (r - charge c r)))
  where
    second_leg :
        Dec (0 < r - charge c r)
        → 2
          ≤ suc (
              length (
                nonzero (
                  entry_if
                    (r - charge c r)
                    (Account.customer_available, pos (r - charge c r))
                    (entry_if c
                      (Account.platform_revenue, pos c)
                      (entry_if
                        (c - charge c r)
                        (Account.platform_risk, neg (c - charge c r))
                        (entry_if u
                          (Account.platform_provider_expense, pos u)
                          (entry_if u (Account.platform_provider_payable, neg u) [])))))))
    second_leg (yes more) = omega (
      arith,
      one_leg Account.customer_available (r - charge c r) (pos (r - charge c r)) _ more
          (pos_nonzero _ more),
    )
    second_leg (no all) = omega (
      arith,
      skip_leg Account.customer_available (r - charge c r) (pos (r - charge c r)) _ (
          one_leg Account.platform_revenue c (pos c) _ (omega arith) (pos_nonzero c (omega arith))),
    )
