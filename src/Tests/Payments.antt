-- ===== src/Tests/Payments.antt =====
-- `apply_webhook` of app/services/payment_domain.py, run on a database with one order.
use kunlun_model_gateway.Base.{◌≡◌, refl, true, false, none}
use kunlun_model_gateway.Base.Int.{◌+ℤ◌}
use kunlun_model_gateway.Base.Result.{ok, guard, require, ◌>>=◌}
use kunlun_model_gateway.Base.Table.{find, put}
use kunlun_model_gateway.Json.{codes}
use kunlun_model_gateway.Models.{Db}
use kunlun_model_gateway.Ledger.{nonzero, entries_sum, is_posted, post_transaction}
use kunlun_model_gateway.Billing.Invariant.{IsSound}
use kunlun_model_gateway.Payments.{find_event, nonce_used, transaction_taken}
use kunlun_model_gateway.Payments.Money.{same_money}
use kunlun_model_gateway.Payments.Webhook.{
  EventType, PaymentStatus, WebhookCall, apply_webhook, seen_event, handle_event, refund_id_fits,
  is_valid_event, dispatch, paid_event, credit_order,
}
use kunlun_model_gateway.Payments.Webhook.Once.{apply_webhook-again}
use kunlun_model_gateway.Payments.Webhook.Credit.{Credited, apply_webhook-credit, credit-once}
use kunlun_model_gateway.Tests.Data.{db, db-IsSound}
use kunlun_model_gateway.Tests.Orders.{db_of, ordered}

ordered-IsSound : IsSound ordered
ordered-IsSound = same_money db ordered refl refl refl refl db-IsSound

abbrev payment : WebhookCall
payment = record {
  provider = 5;
  event_id = 21;
  raw_digest = 22;
  order_id = 50;
  event_type = EventType.payment_succeeded;
  status = PaymentStatus.paid;
  payment_amount_minor = 1_000;
  payment_currency = codes "CNY";
  provider_transaction_id = 31;
  nonce = none;
  provider_refund_id = none;
  refund_row = 60;
  now = 3_500;
}

-- The same payment, told under another event id.
abbrev repetition : WebhookCall
repetition = record payment { event_id = 23; raw_digest = 24 }

abbrev paid : Db
paid = db_of (apply_webhook payment ordered)

payment_runs : apply_webhook payment ordered ≡ ok (false, paid)
unfolding apply_webhook seen_event handle_event refund_id_fits is_valid_event dispatch paid_event
    credit_order find_event nonce_used transaction_taken post_transaction nonzero entries_sum
    is_posted find put guard require ◌>>=◌ ◌+ℤ◌
payment_runs = refl

repetition_runs : apply_webhook repetition paid ≡ ok (true, paid)
unfolding apply_webhook seen_event handle_event refund_id_fits is_valid_event dispatch paid_event
    credit_order find_event nonce_used transaction_taken post_transaction nonzero entries_sum
    is_posted find put guard require ◌>>=◌ ◌+ℤ◌
repetition_runs = refl

apply_webhook-credit_example : Credited payment ordered paid
apply_webhook-credit_example = apply_webhook-credit payment ordered paid refl payment_runs

apply_webhook-again_example : apply_webhook payment paid ≡ ok (true, paid)
apply_webhook-again_example = apply_webhook-again payment ordered false paid payment_runs

credit-once_example : (true ≡ true) × (paid ≡ paid)
credit-once_example =
    credit-once payment repetition ordered paid true paid refl payment_runs refl refl
      repetition_runs
