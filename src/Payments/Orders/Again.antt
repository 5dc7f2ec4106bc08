-- ===== src/Payments/Orders/Again.antt =====
-- Creating an order twice (app/services/payment_domain.py, `create_order`).
use kunlun_model_gateway.Base.{◌≡◌}
use kunlun_model_gateway.Base.Result.{ok}
use kunlun_model_gateway.Models.{Db, PaymentOrder}
use kunlun_model_gateway.Payments.Orders.{NewOrder, reuse_or_insert, find_order}

-- What the lookup and the insertion leave is what the lookup alone gives when it is repeated.
abbrev IsStable : NewOrder → Db → PaymentOrder × Db → Type 0
IsStable q db x =
    (x.1.users ≡ db.users)
    × (reuse_or_insert q (find_order q.user_id q.idempotency_key x.1.orders) x.1 ≡ ok x)
