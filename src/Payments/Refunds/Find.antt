-- ===== src/Payments/Refunds/Find.antt =====
-- The refund row of an order and a key, in a table whose row is written back
-- (app/services/payment_domain.py).
use kunlun_model_gateway.Base.{
  ℕ, ◌≡◌, some, List, [], ◌∷◌, arith, Bool-cases, inl, inr, Bool, true, false, ◌&&◌, refl, ◌==◌, ap,
  subst, sym, ◌∙◌,
}
use kunlun_model_gateway.Base.Table.{find, put}
use kunlun_model_gateway.Models.{PaymentRefund, RefundKey}
use kunlun_model_gateway.Payments.Rows.{find_refund, refund_row_key, same_refund_key}

-- The row is the one that its id finds: ids are a primary key.
abbrev pub IsKeyed : List PaymentRefund → PaymentRefund → Type 0
IsKeyed refunds r = find refund_row_key r.id refunds ≡ some r

abbrev pub matches : ℕ → RefundKey → PaymentRefund → Bool
matches order key r = (r.order_id == order) && same_refund_key r.idempotency_key key

module _ (order : ℕ) (key : RefundKey) (x : PaymentRefund) (rs : List PaymentRefund) where
  pub find_refund-hit : matches order key x ≡ true → find_refund order key (x ∷ rs) ≡ some x
  unfolding find_refund
  find_refund-hit e = rw (find_refund, e) refl

  find_refund-miss :
      matches order key x ≡ false → find_refund order key (x ∷ rs) ≡ find_refund order key rs
  unfolding find_refund
  find_refund-miss e = rw (find_refund, e) refl

put-hit :
    (r x : PaymentRefund) (rs : List PaymentRefund)
    → (x.id == r.id) ≡ true
    → put refund_row_key r (x ∷ rs) ≡ r ∷ rs
unfolding put
put-hit r x rs e = rw e refl

put-miss :
    (r x : PaymentRefund) (rs : List PaymentRefund)
    → (x.id == r.id) ≡ false
    → put refund_row_key r (x ∷ rs) ≡ x ∷ put refund_row_key r rs
unfolding put
put-miss r x rs e = rw e refl

find-miss :
    (id : ℕ) (x : PaymentRefund) (rs : List PaymentRefund)
    → (x.id == id) ≡ false
    → find refund_row_key id (x ∷ rs) ≡ find refund_row_key id rs
unfolding find
find-miss id x rs e = rw e refl

some-injective : {A : Type 0} {a b : A} → some a ≡ some b → a ≡ b
some-injective e = cc

find_refund-nil :
    (order : ℕ) (key : RefundKey) (r : PaymentRefund) → find_refund order key [] ≡ some r → ⊥
unfolding find_refund
find_refund-nil order key r e = cc

pub find_refund-matches :
    (order : ℕ) (key : RefundKey) (rs : List PaymentRefund) (r : PaymentRefund)
    → find_refund order key rs ≡ some r
    → matches order key r ≡ true
find_refund-matches order key [] r e = absurd (find_refund-nil order key r e)
find_refund-matches order key (x ∷ rs) r e = elim (Bool-cases (matches order key x)) [
  | inl it ↦ found (find_refund-hit order key x rs it) it
  | inr other ↦ find_refund-matches order key rs r (sym (find_refund-miss order key x rs other) ∙ e)
]
  where
    found :
        find_refund order key (x ∷ rs) ≡ some x
        → matches order key x ≡ true
        → matches order key r ≡ true
    found hit it = subst (λ y. matches order key y ≡ true) (some-injective (sym hit ∙ e)) it

same_match :
    (order : ℕ) (key : RefundKey) (r r' : PaymentRefund)
    → r'.order_id ≡ r.order_id
    → r'.idempotency_key ≡ r.idempotency_key
    → matches order key r ≡ true
    → matches order key r' ≡ true
same_match order key r r' o k e = rw (o, k) e

-- The row of an order and a key, after the row has been written back.
pub find_refund-put :
    (order : ℕ) (key : RefundKey) (r r' : PaymentRefund) (rs : List PaymentRefund)
    → find_refund order key rs ≡ some r
    → IsKeyed rs r
    → r'.id ≡ r.id
    → matches order key r' ≡ true
    → find_refund order key (put refund_row_key r' rs) ≡ some r'
find_refund-put order key r r' [] here keyed id new = absurd (find_refund-nil order key r here)
find_refund-put order key r r' (x ∷ rs) here keyed id new = elim (Bool-cases (x.id == r'.id)) [
  | inl same ↦
      ap (find_refund order key) (put-hit r' x rs same) ∙ find_refund-hit order key r' rs new
  | inr other ↦
      ap (find_refund order key) (put-miss r' x rs other)
      ∙ elim (Bool-cases (matches order key x)) [
        | inl it ↦
            absurd (clash other (some-injective (sym (find_refund-hit order key x rs it) ∙ here)))
        | inr no_match ↦
            find_refund-miss order key x (put refund_row_key r' rs) no_match
            ∙ find_refund-put order key r r' rs
                (sym (find_refund-miss order key x rs no_match) ∙ here)
                (sym (find-miss r.id x rs (rw (sym id) other)) ∙ keyed) id new
      ]
]
  where
    clash : (x.id == r'.id) ≡ false → x ≡ r → ⊥
    clash other same = ground (arith, other, ap (λ (y : PaymentRefund). y.id) same, id)
