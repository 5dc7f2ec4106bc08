-- ===== src/Payments/Checkout/Claim.antt =====
-- A checkout is claimed once (app/services/payment_domain.py, `prepare_checkout`).
use kunlun_model_gateway.Base.{
  ℕ, ◌+◌, ◌≤◌, ◌≡◌, refl, Bool, true, false, Option, none, some, arith, ◌&&◌, not, is_some,
  if◌then◌else◌, ap, subst,
}
use kunlun_model_gateway.Base.Result.{
  ok, Ensures, Ensures-ok, Ensures-guard, Ensures-require, Ensures-if,
}
use kunlun_model_gateway.Base.Table.{find, find-put_self, put}
use kunlun_model_gateway.Models.{Db, OrderStatus, PaymentOrder}
use kunlun_model_gateway.Payments.Rows.{order_key, is_order, truthy}
use kunlun_model_gateway.Payments.Checkout.{
  CheckoutOutcome, prepare_checkout, expire_claim, claim, is_fresh,
}

-- The order that a granted claim hands out.
record IsClaimed (started : ℕ) (order : PaymentOrder) : Type 0 where
  pub requesting : is_order order.status OrderStatus.checkout_requesting ≡ true
  pub since : order.checkout_claim_started_at ≡ some started
  pub no_url : truthy order.checkout_url ≡ false

-- When the checkout is granted, the order handed out is the one that is stored.
record Grants (id now : ℕ) (x : CheckoutOutcome × Db) : Type 0 where
  pub stored :
      (o : PaymentOrder)
      → x.0 ≡ CheckoutOutcome.claimed o
      → (find order_key id x.1.orders ≡ some o) × IsClaimed now o

abbrev claimed_order : CheckoutOutcome → PaymentOrder → PaymentOrder
claimed_order (CheckoutOutcome.claimed o) other = o
claimed_order _ other = other

no_text :
    (t s : Option ℕ) (p : Bool)
    → p && (not (is_some s) && not (is_some t)) ≡ true
    → truthy t ≡ false
no_text none s p e = refl
no_text (some x) s p e = absurd (ground arith)

module _ (id now lease : ℕ) (db : Db) where
  claim-Grants :
      (o : PaymentOrder)
      → find order_key id db.orders ≡ some o
      → Ensures (Grants id now) (claim o now db)
  unfolding claim
  claim-Grants o here = Ensures-guard _ _ _ λ free. Ensures-ok _ (record {
    stored = λ o' same.
        let row : PaymentOrder = record o {
          status = OrderStatus.checkout_requesting;
          checkout_claim_started_at = some now;
          risk_reason = none;
        } in
        let it : row ≡ o' = ap (λ c. claimed_order c o) same in
        subst (λ y. (find order_key id (put order_key row db.orders) ≡ some y) × IsClaimed now y) it
          (
            find-put_self order_key row o id db.orders here refl,
            record {
              requesting = refl;
              since = refl;
              no_url = no_text o.checkout_url o.provider_transaction_id _ free;
            },
          );
  })

  expire_claim-Grants : (o : PaymentOrder) → Ensures (Grants id now) (expire_claim o now lease db)
  unfolding expire_claim
  expire_claim-Grants o =
      Ensures-guard _ _ _ λ _. Ensures-ok _ (record { stored = λ o e. absurd (cc) })

  prepare_checkout-Grants : Ensures (Grants id now) (prepare_checkout id now lease db)
  unfolding prepare_checkout
  prepare_checkout-Grants = Ensures-require _ _ _ λ o here. Ensures-require _ _ _ λ owner _.
      Ensures-guard _ _ _ λ _.
        Ensures-if (truthy o.checkout_url && truthy o.provider_transaction_id)
          (ok (CheckoutOutcome.existing o, db))
          (if is_order o.status OrderStatus.checkout_requesting
            then expire_claim o now lease db
            else claim o now db)
          (λ _. Ensures-ok _ (record { stored = λ o e. absurd (cc) }))
          (λ _. Ensures-if _ _ _ (λ _. expire_claim-Grants o) (λ _. claim-Grants o here))

-- The claim is past its lease.
abbrev IsExpired : ℕ → ℕ → ℕ → CheckoutOutcome × Db → Type 0
IsExpired started now lease x = (x.0 ≡ CheckoutOutcome.expired) × (started + lease ≤ now)

stale :
    (o : Option ℕ) (started now lease : ℕ)
    → o ≡ some started
    → not (is_fresh o now lease) ≡ true
    → started + lease ≤ now
stale none started now lease e f = absurd (cc)
stale (some s) started now lease e f = ground arith

claimed-IsExpired :
    (id started now lease : ℕ) (db : Db) (order : PaymentOrder)
    → find order_key id db.orders ≡ some order
    → IsClaimed started order
    → Ensures (IsExpired started now lease) (prepare_checkout id now lease db)
unfolding prepare_checkout expire_claim
claimed-IsExpired id started now lease db order found c = rw found (
    Ensures-require _ _ _ λ o here. Ensures-require _ _ _ λ owner _. Ensures-guard _ _ _ λ _.
      let same : o ≡ order = cc in
      rw (same, c.no_url, c.requesting)
        (Ensures-guard _ _ _ λ old. Ensures-ok _ (refl, stale _ started now lease c.since old)))

-- A granted claim hands out the order as it is stored.
pub checkout_claimed-stored :
    (id now lease : ℕ) (db db' : Db) (o : PaymentOrder)
    → prepare_checkout id now lease db ≡ ok (CheckoutOutcome.claimed o, db')
    → find order_key id db'.orders ≡ some o
checkout_claimed-stored id now lease db db' o e =
    (((prepare_checkout-Grants id now lease db).returned (CheckoutOutcome.claimed o, db') e).stored
      o refl).0

-- After a call has been granted the checkout of an order, then for as long as the stored order is the
-- one that it was handed, no other call gets the checkout, nor an order to hand out: one that
-- returns does so after the lease, and only to report the claim as expired. (The rest of the
-- database, of which `later` is any later state, may have changed.)
pub checkout-once :
    (id now lease now' lease' : ℕ) (db db' later db'' : Db) (o : PaymentOrder)
    (outcome : CheckoutOutcome)
    → prepare_checkout id now lease db ≡ ok (CheckoutOutcome.claimed o, db')
    → find order_key id later.orders ≡ some o
    → prepare_checkout id now' lease' later ≡ ok (outcome, db'')
    → (outcome ≡ CheckoutOutcome.expired) × (now + lease' ≤ now')
checkout-once id now lease now' lease' db db' later db'' o outcome e still e' =
    let granted =
      (prepare_checkout-Grants id now lease db).returned (CheckoutOutcome.claimed o, db') e in
    (claimed-IsExpired id now now' lease' later o still (granted.stored o refl).1).returned
      (outcome, db'') e'
