-- ===== src/Payments/Orders/Open.antt =====
-- The limit on open orders (app/services/payment_domain.py, `create_order`).
use kunlun_model_gateway.Base.{ℕ, ◌+◌, ◌≤◌, ◌<◌, ◌≡◌, Option, none, some, List, ◌∷◌, arith}
use kunlun_model_gateway.Base.Result.{
  ok, Ensures, Ensures-ok, Ensures-bind, Ensures-guard, Ensures-require, Ensures-call,
}
use kunlun_model_gateway.Models.{Db, PaymentOrder}
use kunlun_model_gateway.Payments.Orders.{
  NewOrder, create_order, check_open, reuse_or_insert, reuse_order, insert_order, count_open,
  new_order,
}

check_open-room :
    (q : NewOrder) (limit : ℕ) (db : Db) (bound : Option ℕ)
    → bound ≡ some limit
    → Ensures (λ (_ : Unit {0}). count_open q.user_id db.orders < limit) (check_open q bound db)
unfolding check_open
check_open-room q limit db none e = absurd (cc)
check_open-room q limit db (some n) e =
    Ensures-guard _ _ _ λ _. Ensures-guard _ _ _ λ room. Ensures-ok _ (ground arith)

count_open-new :
    (q : NewOrder) (os : List PaymentOrder)
    → count_open q.user_id (new_order q ∷ os) ≡ 1 + count_open q.user_id os
unfolding count_open
count_open-new q os = ground arith

-- The user has no more open orders than `limit`.
abbrev IsWithin : NewOrder → ℕ → PaymentOrder × Db → Type 0
IsWithin q limit x = count_open q.user_id x.1.orders ≤ limit

module _ (q : NewOrder) (limit : ℕ) (db : Db)
    (before : count_open q.user_id db.orders ≤ limit) where
  insert_order-IsWithin :
      q.max_open_orders ≡ some limit → Ensures (IsWithin q limit) (insert_order q db)
  unfolding insert_order
  insert_order-IsWithin bound =
      Ensures-call _ _ (check_open-room q limit db q.max_open_orders bound) λ _ room.
        Ensures-guard _ _ _
          λ _. Ensures-ok _ (rw (count_open-new q db.orders) (omega (arith, room)))

  reuse_or_insert-IsWithin :
      (o : Option PaymentOrder)
      → q.max_open_orders ≡ some limit
      → Ensures (IsWithin q limit) (reuse_or_insert q o db)
  unfolding reuse_or_insert reuse_order
  reuse_or_insert-IsWithin none e = insert_order-IsWithin e
  reuse_or_insert-IsWithin (some o) e = Ensures-guard _ _ _ λ _. Ensures-ok _ before

-- A user who has at most as many open orders as the limit of the call never gets more than that by
-- the call, whether it creates an order or finds one.
pub create_order-limit :
    (q : NewOrder) (limit : ℕ) (db : Db) (o : PaymentOrder) (db' : Db)
    → q.max_open_orders ≡ some limit
    → count_open q.user_id db.orders ≤ limit
    → create_order q db ≡ ok (o, db')
    → count_open q.user_id db'.orders ≤ limit
unfolding create_order
create_order-limit q limit db o db' bound before e =
    (Ensures-bind {P = IsWithin q limit} _ _ λ _ _. Ensures-require _ _ _ λ owner _.
        Ensures-guard _ _ _ λ _. reuse_or_insert-IsWithin q limit db before _ bound).returned
      (o, db') e
