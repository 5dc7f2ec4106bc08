-- ===== src/Tests/Refunds.antt =====
-- Refunds, their risk and the freeze of app/services/payment_domain.py and app/services/identity.py, run
-- on a database with one paid order.
use kunlun_model_gateway.Payments.Refunds.Claim.{prepare_refund-once}
use kunlun_model_gateway.Base.{◌≡◌, refl, true, false, none, some, [], ◌∷◌, arith}
use kunlun_model_gateway.Base.Int.{pos, ◌+ℤ◌, ◌-ℤ◌}
use kunlun_model_gateway.Base.Result.{ok, err, guard, require, ◌>>=◌, payment_domain}
use kunlun_model_gateway.Base.Table.{find, put}
use kunlun_model_gateway.Json.{codes}
use kunlun_model_gateway.Models.{
  Db, OrderStatus, PaymentRefund, RefundKey, RefundStatus, RiskReason,
}
use kunlun_model_gateway.Ledger.{nonzero, entries_sum, is_posted, post_transaction}
use kunlun_model_gateway.Ledger.Sums.{amount_in}
use kunlun_model_gateway.Billing.Invariant.{IsSound}
use kunlun_model_gateway.Payments.{find_refund, has_refund, refund_id_taken}
use kunlun_model_gateway.Payments.Money.{same_money}
use kunlun_model_gateway.Payments.Freeze.{
  apply_user_freeze, freeze_found, revoke_key, count_active_keys,
}
use kunlun_model_gateway.Payments.Refunds.{
  RefundCall, apply_refund, apply_found, complete_refund, open_refund, refund_short, refund_whole,
  RefundCommand, prepare_refund, prepare_found, prepare_new, new_refund,
}
use kunlun_model_gateway.Payments.Refunds.Sound.{apply_refund-IsSound}
use kunlun_model_gateway.Payments.Risk.{
  RiskAction, RiskCall, RiskResult, resolve_refund_risk, dispose, new_disposition, find_posted,
  risk_net, disposition_entries, entry_if,
}
use kunlun_model_gateway.Payments.Risk.Disposed.{Disposed, resolve_refund_risk-Disposed}
use kunlun_model_gateway.Tests.Data.{db, db-IsSound}
use kunlun_model_gateway.Tests.Orders.{db_of, order}

-- An order that is paid, whose credit is more than the balance.
abbrev spent : Db
spent = record db { orders = record order { status = OrderStatus.paid } ∷ [] }

spent-IsSound : IsSound spent
spent-IsSound = same_money db spent refl refl refl refl db-IsSound

abbrev take_back : RefundCall
take_back = record {
  order_id = 50;
  idempotency_key = RefundKey.client 66;
  provider_refund_id = 71;
  id = 61;
  now = 4_000;
}

abbrev short_refund : PaymentRefund
short_refund = record {
  id = 61;
  order_id = 50;
  user_id = 1;
  provider_refund_id = some 71;
  idempotency_key = RefundKey.client 66;
  payment_amount_minor = 1_000;
  payment_currency = codes "CNY";
  credit_amount_microusd = 1_500_000;
  status = RefundStatus.risk;
  risk_reason = some RiskReason.refund_balance_insufficient;
  claim_started_at = 4_000;
  completed_at = some 4_000;
}

abbrev short : Db
short = db_of (apply_refund take_back spent)

refund_runs : apply_refund take_back spent ≡ ok (short_refund, short)
unfolding apply_refund apply_found complete_refund open_refund refund_short refund_whole
    apply_user_freeze freeze_found revoke_key count_active_keys find_refund has_refund
    refund_id_taken post_transaction nonzero entries_sum is_posted find put guard require ◌>>=◌ ◌+ℤ◌
refund_runs = refl

short-IsSound : IsSound short
short-IsSound = apply_refund-IsSound take_back spent short_refund short spent-IsSound refund_runs

abbrev write_off : RiskCall
write_off = record { refund_id = 61; action = RiskAction.write_off; idempotency_key = 91 }

-- Half a dollar is outstanding, and the wallet is empty.
abbrev written_off : RiskResult
written_off = record {
  refund = record short_refund {
    status = RefundStatus.resolved;
    risk_reason = some RiskReason.resolved_written_off;
  };
  duplicate = false;
  outstanding = pos 500_000;
  recovered = pos 0;
  written_off = pos 500_000;
}

abbrev disposed : Db
disposed = db_of (resolve_refund_risk write_off short)

risk_runs : resolve_refund_risk write_off short ≡ ok (written_off, disposed)
unfolding resolve_refund_risk dispose new_disposition find_posted risk_net disposition_entries
    entry_if amount_in apply_refund apply_found complete_refund open_refund refund_short
    refund_whole apply_user_freeze freeze_found revoke_key count_active_keys find_refund has_refund
    refund_id_taken post_transaction nonzero entries_sum is_posted find put guard require ◌>>=◌ ◌+ℤ◌
    ◌-ℤ◌
risk_runs = refl

resolve_refund_risk-Disposed_example : Disposed write_off short written_off disposed
resolve_refund_risk-Disposed_example =
    resolve_refund_risk-Disposed write_off short written_off disposed refl risk_runs

abbrev command : RefundCommand
command = record { order_id = 50; idempotency_key = 66; lease = 300; id = 61; now = 4_000 }

abbrev command_row : PaymentRefund
command_row =
    new_refund 61 (record order { status = OrderStatus.paid }) (RefundKey.client 66) none 1_000
      (codes "CNY") 4_000

abbrev commanded : Db
commanded = record db {
  orders = record order { status = OrderStatus.refunding } ∷ [];
  refunds = command_row ∷ [];
}

command_runs : prepare_refund command spent ≡ ok ((command_row, true), commanded)
unfolding prepare_refund prepare_found prepare_new find_refund has_refund find put guard require
    ◌>>=◌
command_runs = refl

-- The money of others has moved meanwhile.
abbrev meanwhile : Db
meanwhile = record commanded { wallets = [] }

still_there : find_refund 50 (RefundKey.client 66) meanwhile.refunds ≡ some command_row
unfolding find_refund
still_there = refl

prepare_refund-once_example :
    prepare_refund (record command { now = 4_200 }) meanwhile ≡ err (payment_domain 409)
prepare_refund-once_example =
    prepare_refund-once command (record command { now = 4_200 }) spent command_row commanded
      meanwhile refl refl (omega arith) command_runs still_there
