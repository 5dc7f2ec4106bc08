-- ===== src/Payments/Orders.antt =====
-- `PaymentDomainService.create_order` of app/services/payment_domain.py.
pub mod Again
pub mod Open
use kunlun_model_gateway.Base.{
  ℕ, ◌+◌, Bool, true, false, not, ◌&&◌, ◌||◌, Option, none, some, List, [], ◌∷◌, ltb, leb, ◌==◌,
  eq_option, is_some, length, if◌then◌else◌,
}
use kunlun_model_gateway.Base.Result.{Result, ok, guard, require, ◌>>=◌, ◌>>◌, payment_domain}
use kunlun_model_gateway.Base.Table.{find}
use kunlun_model_gateway.Models.{Db, OrderStatus, PaymentOrder, is_active_user, same_text}
use kunlun_model_gateway.Payments.Rows.{user_key, order_key, is_open_order}

-- The arguments, and the uuid of the new row. A currency is a text, by its code points.
pub record NewOrder : Type 0 where
  pub user_id : ℕ
  pub provider : ℕ
  pub payment_amount_minor : ℕ
  pub payment_currency : List ℕ
  pub credit_amount_microusd : ℕ
  pub quote_id : ℕ
  pub quote_numerator : ℕ
  pub quote_denominator : ℕ
  pub idempotency_key : ℕ
  pub max_open_orders : Option ℕ
  pub id : ℕ

abbrev is_capital : ℕ → Bool
is_capital c = leb b'A' c && leb c b'Z'

abbrev is_small : ℕ → Bool
is_small c = leb b'a' c && leb c b'z'

unfoldable pub has_capital : List ℕ → Bool
has_capital [] = false
has_capital (c ∷ cs) = is_capital c || has_capital cs

unfoldable pub has_small : List ℕ → Bool
has_small [] = false
has_small (c ∷ cs) = is_small c || has_small cs

-- `str.isupper`, with the letters of ASCII as the cased characters.
unfoldable pub is_upper : List ℕ → Bool
unfolding has_capital has_small
is_upper s = has_capital s && not (has_small s)

abbrev pub same_currency : Option (List ℕ) → List ℕ → Bool
same_currency none c = false
same_currency (some a) c = same_text a c

unfoldable pub same_order_quote : PaymentOrder → NewOrder → Bool
same_order_quote o q =
    (o.provider == q.provider)
    && (eq_option o.payment_amount_minor (some q.payment_amount_minor)
        && (same_currency o.payment_currency q.payment_currency
            && ((o.credit_amount_microusd == q.credit_amount_microusd)
                && (eq_option o.quote_id (some q.quote_id)
                    && ((o.quote_numerator == q.quote_numerator)
                        && (o.quote_denominator == q.quote_denominator))))))

-- `select(PaymentOrder).where(user_id == user, client_idempotency_key == key)`.
unfoldable pub find_order : ℕ → ℕ → List PaymentOrder → Option PaymentOrder
find_order user key [] = none
find_order user key (o ∷ os) =
    elim ((o.user_id == user) && eq_option o.client_idempotency_key (some key)) [
      | true ↦ some o
      | false ↦ find_order user key os
    ]

unfoldable pub count_open : ℕ → List PaymentOrder → ℕ
count_open user [] = 0
count_open user (o ∷ os) =
    (if (o.user_id == user) && is_open_order o.status then 1 else 0) + count_open user os

abbrev pub new_order : NewOrder → PaymentOrder
new_order q = record {
  id = q.id;
  user_id = q.user_id;
  provider = q.provider;
  credit_amount_microusd = q.credit_amount_microusd;
  payment_amount_minor = some q.payment_amount_minor;
  payment_currency = some q.payment_currency;
  quote_numerator = q.quote_numerator;
  quote_denominator = q.quote_denominator;
  quote_id = some q.quote_id;
  client_idempotency_key = some q.idempotency_key;
  status = OrderStatus.pending;
  provider_transaction_id = none;
  checkout_url = none;
  checkout_claim_started_at = none;
  reconciliation_claim_started_at = none;
  risk_reason = none;
  paid_at = none;
  refunded_at = none;
}

-- The checks on the quote.
unfoldable pub check_quote : NewOrder → Result (Unit {0})
check_quote q = do
  guard (ltb 0 q.payment_amount_minor && ltb 0 q.credit_amount_microusd) (payment_domain 422)
  guard ((length q.payment_currency == 3) && is_upper q.payment_currency) (payment_domain 422)
  guard
      (not (q.provider == 0)
        && (not (q.quote_id == 0) && (ltb 0 q.quote_numerator && ltb 0 q.quote_denominator)))
      (payment_domain 422)
  ok tt

-- The limit on open orders. (The code looks the key up once more here; under the lock on the user
-- row, which it holds, the answer is the one that it has.)
unfoldable pub check_open : NewOrder → Option ℕ → Db → Result (Unit {0})
check_open q none db = ok tt
check_open q (some limit) db = do
  guard (leb 1 limit) (payment_domain 500)
  guard (ltb (count_open q.user_id db.orders) limit) (payment_domain 409)
  ok tt

-- An order with the key of the call: the call is a repetition, or a conflict.
unfoldable pub reuse_order : NewOrder → PaymentOrder → Db → Result (PaymentOrder × Db)
reuse_order q o db = do guard (same_order_quote o q) (payment_domain 409); ok (o, db)

unfoldable pub insert_order : NewOrder → Db → Result (PaymentOrder × Db)
insert_order q db = do
  check_open q q.max_open_orders db
  guard (not (is_some (find order_key q.id db.orders))) (payment_domain 409)
  ok (new_order q, record db { orders = new_order q ∷ db.orders })

unfoldable pub reuse_or_insert : NewOrder → Option PaymentOrder → Db → Result (PaymentOrder × Db)
reuse_or_insert q none db = insert_order q db
reuse_or_insert q (some o) db = reuse_order q o db

unfoldable pub create_order : NewOrder → Db → Result (PaymentOrder × Db)
create_order q db = do
  check_quote q
  owner ← require (find user_key q.user_id db.users) (payment_domain 404)
  guard (is_active_user owner.status) (payment_domain 403)
  reuse_or_insert q (find_order q.user_id q.idempotency_key db.orders) db
