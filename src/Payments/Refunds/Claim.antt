-- ===== src/Payments/Refunds/Claim.antt =====
-- A refund command is claimed by one caller at a time (app/services/payment_domain.py,
-- `prepare_refund`).
use kunlun_model_gateway.Payments.Refunds.{
  RefundCommand, prepare_refund, prepare_found, prepare_new, prepare_existing, reclaim,
}
use kunlun_model_gateway.Base.Result.{
  Result, Ensures, Ensures-ok, Ensures-err, Ensures-guard, Ensures-require, Ensures-map, guard,
  ◌>>=◌, ok, err, payment_domain,
}
use kunlun_model_gateway.Base.{
  ◌≡◌, some, arith, Bool, true, false, refl, ◌==◌, ltb, not, ◌<◌, ◌+◌, Option, none,
}
use kunlun_model_gateway.Models.{PaymentRefund, RefundKey, Db, RefundStatus}
use kunlun_model_gateway.Payments.Rows.{find_refund}

abbrev is_claimed : RefundStatus → Bool
is_claimed RefundStatus.requesting = true
is_claimed RefundStatus.retrying = true
is_claimed _ = false

-- The row that a granted claim hands out.
record IsGranted (q : RefundCommand) (row : PaymentRefund) : Type 0 where
  pub claimed : is_claimed row.status ≡ true
  pub since : row.claim_started_at ≡ q.now

abbrev Grants : RefundCommand → Result ((PaymentRefund × Bool) × Db) → Type 0
Grants q m = Ensures (λ (x : (PaymentRefund × Bool) × Db). x.0.1 ≡ true → IsGranted q x.0.0) m

module _ (q : RefundCommand) (db : Db) where
  module _ (r : PaymentRefund) where
    reclaim-Grants : (next : RefundStatus) → is_claimed next ≡ true → Grants q (reclaim q r next db)
    unfolding reclaim
    reclaim-Grants next claimed = Ensures-ok _ (λ _. record { claimed = claimed; since = refl })

    prepare_existing-Grants : (s : RefundStatus) → Grants q (prepare_existing q r s db)
    unfolding prepare_existing
    prepare_existing-Grants RefundStatus.refunded = Ensures-ok _ (λ e. absurd (cc))
    prepare_existing-Grants RefundStatus.risk = Ensures-ok _ (λ e. absurd (cc))
    prepare_existing-Grants RefundStatus.requesting =
        Ensures-guard _ _ _ λ _. reclaim-Grants RefundStatus.retrying refl
    prepare_existing-Grants RefundStatus.retrying =
        Ensures-guard _ _ _ λ _. reclaim-Grants RefundStatus.requesting refl
    prepare_existing-Grants RefundStatus.pending_reconciliation =
        reclaim-Grants RefundStatus.requesting refl
    prepare_existing-Grants RefundStatus.resolved = Ensures-err _

  prepare_new-Grants : Grants q (prepare_new q db)
  unfolding prepare_new
  prepare_new-Grants = Ensures-require _ _ _ λ o there. Ensures-guard _ _ _ λ _.
      Ensures-require _ _ _ λ amount _. Ensures-require _ _ _ λ currency _.
        Ensures-guard _ _ _ λ _. Ensures-ok _ (λ _. record { claimed = refl; since = refl })

  prepare_found-Grants : (o : Option PaymentRefund) → Grants q (prepare_found q o db)
  unfolding prepare_found
  prepare_found-Grants none = prepare_new-Grants
  prepare_found-Grants (some r) = prepare_existing-Grants r r.status

refused :
    (q : RefundCommand) (r : PaymentRefund) (s : RefundStatus) (db : Db)
    → is_claimed s ≡ true
    → ltb q.now (r.claim_started_at + q.lease) ≡ true
    → prepare_existing q r s db ≡ err (payment_domain 409)
unfolding prepare_existing guard ◌>>=◌
refused q r RefundStatus.requesting db claimed early = rw early refl
refused q r RefundStatus.retrying db claimed early = rw early refl
refused q r RefundStatus.pending_reconciliation db claimed early = absurd (cc)
refused q r RefundStatus.refunded db claimed early = absurd (cc)
refused q r RefundStatus.risk db claimed early = absurd (cc)
refused q r RefundStatus.resolved db claimed early = absurd (cc)

refused_later :
    (again q : RefundCommand) (db : Db) (row : PaymentRefund)
    → again.order_id ≡ q.order_id
    → again.idempotency_key ≡ q.idempotency_key
    → again.now < q.now + again.lease
    → find_refund q.order_id (RefundKey.client q.idempotency_key) db.refunds ≡ some row
    → IsGranted q row
    → (q.idempotency_key == 0) ≡ false
    → prepare_refund again db ≡ err (payment_domain 409)
unfolding prepare_refund prepare_found guard ◌>>=◌
refused_later again q db row order key early still g filled =
    let empty : (again.idempotency_key == 0) ≡ false = rw key filled in
    let found : find_refund again.order_id (RefundKey.client again.idempotency_key) db.refunds
        ≡ some row =
      rw (order, key) still in
    rw (empty, found) (refused again row row.status db g.claimed (ground (arith, g.since)))

not_empty : (b : Bool) → not b ≡ true → b ≡ false
not_empty true e = cc
not_empty false e = refl

-- After a call has been granted a refund command, then for as long as the stored row of the command
-- is the one that it was handed, another call with the same order and key is refused with 409 until
-- the claim is as old as the lease of that other call. (The rest of the database, of which `later` is
-- any later state, may have changed; a refund that the provider did not confirm, or that ended, is
-- another row.)
pub prepare_refund-once :
    (q again : RefundCommand) (db : Db) (r : PaymentRefund) (db' later : Db)
    → again.order_id ≡ q.order_id
    → again.idempotency_key ≡ q.idempotency_key
    → again.now < q.now + again.lease
    → prepare_refund q db ≡ ok ((r, true), db')
    → find_refund q.order_id (RefundKey.client q.idempotency_key) later.refunds ≡ some r
    → prepare_refund again later ≡ err (payment_domain 409)
unfolding prepare_refund
prepare_refund-once q again db r db' later order key early e still =
    (Ensures-guard
        {P = λ (x : (PaymentRefund × Bool) × Db).
          x.0.1 ≡ true
          → find_refund q.order_id (RefundKey.client q.idempotency_key) later.refunds ≡ some x.0.0
          → prepare_refund again later ≡ err (payment_domain 409)}
        _ _ _
        λ filled. Ensures-map _ (prepare_found-Grants q db _) λ x granted yes_it stays.
          refused_later again q later x.0.0 order key early stays (granted yes_it)
            (not_empty _ filled)).returned
      ((r, true), db') e refl still
