-- ===== src/Tests/Orders.antt =====
-- `create_order` and `prepare_checkout` of app/services/payment_domain.py, run on the small database.
use kunlun_model_gateway.Base.{◌≡◌, ◌≤◌, ◌+◌, refl, some, [], ◌∷◌, arith}
use kunlun_model_gateway.Base.Result.{Result, ok, err, guard, require, ◌>>=◌}
use kunlun_model_gateway.Base.Table.{find, put}
use kunlun_model_gateway.Json.{codes}
use kunlun_model_gateway.Models.{Db, OrderStatus, PaymentOrder}
use kunlun_model_gateway.Payments.Orders.{
  NewOrder, create_order, check_quote, check_open, reuse_or_insert, insert_order, find_order,
  count_open, new_order, is_upper, has_capital, has_small,
}
use kunlun_model_gateway.Payments.Orders.Open.{create_order-limit}
use kunlun_model_gateway.Payments.Checkout.{CheckoutOutcome, prepare_checkout, claim, expire_claim}
use kunlun_model_gateway.Payments.Checkout.Claim.{checkout-once}
use kunlun_model_gateway.Tests.Data.{db}
use kunlun_model_gateway.Payments.{order_key}

-- The database that a call has left.
abbrev pub db_of : {A : Type 0} → Result (A × Db) → Db
db_of (ok (x, after)) = after
db_of (err e) = db

abbrev quote : NewOrder
quote = record {
  user_id = 1;
  provider = 5;
  payment_amount_minor = 1_000;
  payment_currency = codes "CNY";
  credit_amount_microusd = 1_500_000;
  quote_id = 12;
  quote_numerator = 1_500;
  quote_denominator = 1;
  idempotency_key = 81;
  max_open_orders = some 1;
  id = 50;
}

abbrev pub order : PaymentOrder
order = new_order quote

abbrev pub ordered : Db
ordered = record db { orders = order ∷ [] }

order_runs : create_order quote db ≡ ok (order, ordered)
unfolding create_order check_quote check_open reuse_or_insert insert_order find_order count_open
    is_upper has_capital has_small find guard require ◌>>=◌
order_runs = refl

create_order-limit_example : count_open 1 ordered.orders ≤ 1
unfolding count_open
create_order-limit_example =
    create_order-limit quote 1 db order ordered refl (omega arith) order_runs

abbrev claimed_order : PaymentOrder
claimed_order = record order {
  status = OrderStatus.checkout_requesting;
  checkout_claim_started_at = some 3_000;
}

abbrev claimed_db : Db
claimed_db = record db { orders = claimed_order ∷ [] }

-- Another user's order came meanwhile.
abbrev later_db : Db
later_db = record claimed_db { orders = record order { id = 51; user_id = 2 } ∷ claimed_order ∷ [] }

later_row : find order_key 50 later_db.orders ≡ some claimed_order
unfolding find
later_row = refl

claim_runs :
    prepare_checkout 50 3_000 300 ordered ≡ ok (CheckoutOutcome.claimed claimed_order, claimed_db)
unfolding prepare_checkout claim find put guard require ◌>>=◌
claim_runs = refl

expire_runs :
    prepare_checkout 50 3_400 300 later_db
    ≡ ok (CheckoutOutcome.expired, db_of (prepare_checkout 50 3_400 300 later_db))
unfolding prepare_checkout expire_claim find put guard require ◌>>=◌
expire_runs = refl

checkout-once_example : (CheckoutOutcome.expired ≡ CheckoutOutcome.expired) × (3_000 + 300 ≤ 3_400)
checkout-once_example =
    checkout-once 50 3_000 300 3_400 300 ordered claimed_db later_db
      (db_of (prepare_checkout 50 3_400 300 later_db)) claimed_order CheckoutOutcome.expired
      claim_runs later_row expire_runs
