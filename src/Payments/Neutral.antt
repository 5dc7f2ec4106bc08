-- ===== src/Payments/Neutral.antt =====
-- Orders, checkout claims and refund claims move no money (app/services/payment_domain.py).
use kunlun_model_gateway.Payments.Rows.{truthy, is_order}
use kunlun_model_gateway.Base.{ℕ, refl, Option, none, some, ◌&&◌, if◌then◌else◌}
use kunlun_model_gateway.Base.Result.{
  Result, Ensures, Ensures-ok, Ensures-err, Ensures-bind, Ensures-guard, Ensures-require,
  Ensures-if, ok,
}
use kunlun_model_gateway.Models.{Db, PaymentOrder, PaymentRefund, RefundStatus, OrderStatus}
use kunlun_model_gateway.Billing.Invariant.{IsSound}
use kunlun_model_gateway.Payments.Money.{same_money}
use kunlun_model_gateway.Payments.Orders.{
  NewOrder, create_order, reuse_or_insert, reuse_order, insert_order,
}
use kunlun_model_gateway.Payments.Checkout.{prepare_checkout, expire_claim, claim, CheckoutOutcome}
use kunlun_model_gateway.Payments.Refunds.{
  RefundCommand, prepare_refund, prepare_found, prepare_new, prepare_existing, reclaim,
}

-- What an operation leaves is sound.
abbrev pub KeepsSound {ℓ} : {A : Type ℓ} → Result (A × Db) → Type ℓ
KeepsSound {A} m = Ensures (λ (x : A × Db). IsSound x.1) m

module _ (db : Db) (inv : IsSound db) where
  reuse_or_insert-IsSound :
      (q : NewOrder) (o : Option PaymentOrder) → KeepsSound (reuse_or_insert q o db)
  unfolding reuse_or_insert reuse_order insert_order
  reuse_or_insert-IsSound q none =
      Ensures-bind _ _
        λ _ _. Ensures-guard _ _ _ λ _. Ensures-ok _ (same_money db _ refl refl refl refl inv)
  reuse_or_insert-IsSound q (some o) = Ensures-guard _ _ _ λ _. Ensures-ok _ inv

  pub create_order-Ensures : (q : NewOrder) → KeepsSound (create_order q db)
  unfolding create_order
  create_order-Ensures q =
      Ensures-bind _ _
        λ _ _. Ensures-require _ _ _ λ owner _. Ensures-guard _ _ _ λ _. reuse_or_insert-IsSound q _

  expire_claim-IsSound :
      (o : PaymentOrder) (now lease : ℕ) → KeepsSound (expire_claim o now lease db)
  unfolding expire_claim
  expire_claim-IsSound o now lease =
      Ensures-guard _ _ _ λ _. Ensures-ok _ (same_money db _ refl refl refl refl inv)

  claim-IsSound : (o : PaymentOrder) (now : ℕ) → KeepsSound (claim o now db)
  unfolding claim
  claim-IsSound o now =
      Ensures-guard _ _ _ λ _. Ensures-ok _ (same_money db _ refl refl refl refl inv)

  pub prepare_checkout-Ensures :
      (order_id now lease : ℕ) → KeepsSound (prepare_checkout order_id now lease db)
  unfolding prepare_checkout
  prepare_checkout-Ensures order_id now lease = Ensures-require _ _ _ λ o _.
      Ensures-require _ _ _ λ owner _. Ensures-guard _ _ _ λ _.
        Ensures-if (truthy o.checkout_url && truthy o.provider_transaction_id)
          (ok (CheckoutOutcome.existing o, db))
          (if is_order o.status OrderStatus.checkout_requesting
            then expire_claim o now lease db
            else claim o now db)
          (λ _. Ensures-ok _ inv)
          (λ _. Ensures-if _ _ _ (λ _. expire_claim-IsSound o now lease) (λ _. claim-IsSound o now))

  reclaim-IsSound :
      (q : RefundCommand) (r : PaymentRefund) (next : RefundStatus)
      → KeepsSound (reclaim q r next db)
  unfolding reclaim
  reclaim-IsSound q r next = Ensures-ok _ (same_money db _ refl refl refl refl inv)

  prepare_existing-IsSound :
      (q : RefundCommand) (r : PaymentRefund) (s : RefundStatus)
      → KeepsSound (prepare_existing q r s db)
  unfolding prepare_existing
  prepare_existing-IsSound q r RefundStatus.refunded = Ensures-ok _ inv
  prepare_existing-IsSound q r RefundStatus.risk = Ensures-ok _ inv
  prepare_existing-IsSound q r RefundStatus.requesting =
      Ensures-guard _ _ _ λ _. reclaim-IsSound q r _
  prepare_existing-IsSound q r RefundStatus.retrying =
      Ensures-guard _ _ _ λ _. reclaim-IsSound q r _
  prepare_existing-IsSound q r RefundStatus.pending_reconciliation = reclaim-IsSound q r _
  prepare_existing-IsSound q r RefundStatus.resolved = Ensures-err _

  prepare_new-IsSound : (q : RefundCommand) → KeepsSound (prepare_new q db)
  unfolding prepare_new
  prepare_new-IsSound q = Ensures-require _ _ _ λ o _. Ensures-guard _ _ _ λ _.
      Ensures-require _ _ _ λ amount _. Ensures-require _ _ _ λ currency _.
        Ensures-guard _ _ _ λ _. Ensures-ok _ (same_money db _ refl refl refl refl inv)

  prepare_found-IsSound :
      (q : RefundCommand) (r : Option PaymentRefund) → KeepsSound (prepare_found q r db)
  unfolding prepare_found
  prepare_found-IsSound q none = prepare_new-IsSound q
  prepare_found-IsSound q (some r) = prepare_existing-IsSound q r r.status

  pub prepare_refund-Ensures : (q : RefundCommand) → KeepsSound (prepare_refund q db)
  unfolding prepare_refund
  prepare_refund-Ensures q = Ensures-guard _ _ _ λ _. prepare_found-IsSound q _
