-- ===== src/Billing/Settle/Entries.antt =====
-- The entries of a settlement, and what they move (app/services/gateway_billing.py).
use kunlun_model_gateway.Base.{
  ℕ, ◌+◌, ◌-◌, ◌≤◌, ◌≡◌, refl, sym, true, List, ◌∷◌, ◌==◌, arith, if_elim, ==_iff,
}
use kunlun_model_gateway.Base.Int.{ℤ, pos, neg, ◌+ℤ◌, is_zero, int_laws}
use kunlun_model_gateway.Models.{Account, Wallet}
use kunlun_model_gateway.Ledger.{Entry, is_account}
use kunlun_model_gateway.Ledger.Sums.{amount_in, zero_add, if_zero}
use kunlun_model_gateway.Ledger.Wallets.{Moves}
use kunlun_model_gateway.Billing.Settle.{entry_if, charge, settle_entries}

-- Leaving out an entry of amount zero changes no sum.
amount_in-entry_if :
    (a b : Account) (n : ℕ) (x : ℤ) (es : List Entry)
    → (n ≡ 0 → is_zero x ≡ true)
    → amount_in a (entry_if n (b, x) es) ≡ amount_in a ((b, x) ∷ es)
unfolding amount_in entry_if
amount_in-entry_if a b n x es h =
    if_elim (λ l. amount_in a l ≡ amount_in a ((b, x) ∷ es)) (n == 0) es ((b, x) ∷ es)
      (λ z. sym (zero_add _ (amount_in a es) (if_zero (is_account b a) x (h ((==_iff n 0).0 z)))))
      (λ _. refl)

pub amount_in-entry_pos :
    (a b : Account) (n : ℕ) (es : List Entry)
    → amount_in a (entry_if n (b, pos n) es) ≡ amount_in a ((b, pos n) ∷ es)
amount_in-entry_pos a b n es = amount_in-entry_if a b n (pos n) es (λ z. ground arith)

pub amount_in-entry_neg :
    (a b : Account) (n : ℕ) (es : List Entry)
    → amount_in a (entry_if n (b, neg n) es) ≡ amount_in a ((b, neg n) ∷ es)
amount_in-entry_neg a b n es = amount_in-entry_if a b n (neg n) es (λ z. ground arith)

pub settle_available :
    (reserved cost upstream : ℕ)
    → amount_in Account.customer_available (settle_entries reserved cost upstream)
      ≡ pos (reserved - charge cost reserved)
unfolding settle_entries amount_in
settle_available reserved cost upstream =
    simp (amount_in-entry_pos, amount_in-entry_neg) (omega int_laws)

pub settle_reserved :
    (reserved cost upstream : ℕ)
    → amount_in Account.customer_reserved (settle_entries reserved cost upstream) ≡ neg reserved
unfolding settle_entries amount_in
settle_reserved reserved cost upstream =
    simp (amount_in-entry_pos, amount_in-entry_neg) (omega int_laws)

-- The wallet update of a settlement is what its entries say.
pub settle-Moves :
    (reserved cost upstream : ℕ) (w : Wallet)
    → reserved ≤ w.reserved_microusd
    → Moves (settle_entries reserved cost upstream) w (record w {
      reserved_microusd = w.reserved_microusd - reserved;
      balance_microusd = w.balance_microusd + (reserved - charge cost reserved);
    })
settle-Moves reserved cost upstream w enough = record {
  same_user = refl;
  available = rw settle_available (omega int_laws);
  held = rw settle_reserved (unfold ◌+ℤ◌ in ground arith);
}
