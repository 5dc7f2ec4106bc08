-- ===== src/Tests/Gateway.antt =====
-- `chat_completions` of app/__init__.py, run on the small database with two providers: the first
-- refuses with a 429, the second answers.
use kunlun_model_gateway.Base.{ℕ, ◌+◌, ◌≡◌, refl, false, none, some, [], ◌∷◌, true}
use kunlun_model_gateway.Base.Int.{pos, ◌+ℤ◌}
use kunlun_model_gateway.Base.Result.{ok, guard, require, catch_integrity, ◌>>=◌}
use kunlun_model_gateway.Base.Table.{find, put, newest}
use kunlun_model_gateway.Json.{
  Fields, dict, str, int, list, nil, field, end, codes, digits, digits_from, dumps, get, escape_all,
  quote, count_items,
}
use kunlun_model_gateway.Models.{Db, Kind, AttemptStatus, LedgerKey}
use kunlun_model_gateway.Providers.{
  Answer, Client, ProviderError, new_error, provider_name, upstream_prices,
}
use kunlun_model_gateway.Gateway.{World, Phase, Serving}
use kunlun_model_gateway.Gateway.Payload.{ChatCall, Settings, max_output, upstream_payload}
use kunlun_model_gateway.Gateway.Route.{chat_completions}
use kunlun_model_gateway.Gateway.Route
use kunlun_model_gateway.Gateway.Turn
use kunlun_model_gateway.Providers
use kunlun_model_gateway.Billing.Reserve.{
  Reservation, reserve_model_request, admit, new_request, get_price, has_key, hold_budget,
  reserve_entries, insert_request,
}
use kunlun_model_gateway.Tests.Data.{budget, credit, db, db-IsSound, price, wallet}
use kunlun_model_gateway.Gateway.Closed.{LeavesNoHold, chat_completions-closes}
use kunlun_model_gateway.Services.{Reaches}
use kunlun_model_gateway.Gateway.Stream.{attempt}
use kunlun_model_gateway.Ledger.{is_posted, post_transaction, nonzero, entries_sum}
use kunlun_model_gateway.Gateway.Turn.{turn, round_of}
use kunlun_model_gateway.Gateway.Failover.{FailsOver, turn-FailsOver}
use kunlun_model_gateway.Gateway.History.{chat_completions-Reaches}
use kunlun_model_gateway.Billing.Release.{has_attempt, record_attempt}
use kunlun_model_gateway.Gateway.Answered.{IsUnused, after_reserve-answers, IsHandled}
use kunlun_model_gateway.Budgets.{active_budget}
use kunlun_model_gateway.Pricing.{
  token_cost, ceil_true_div, ceil_div, round_div, exponent, estimate_tokens, protocol_items,
  input_token_reservation_upper_bound,
}
use kunlun_model_gateway.Json.Size.{utf8_length, utf8_width, is_encodable}
use kunlun_model_gateway.Json.Edit.{assign, pop}

abbrev phase_id : Phase → ℕ
phase_id Phase.reserving = 40
phase_id _ = 41

abbrev world : World
world = record {
  loads = λ s. none;
  container_text = λ v. [];
  text_id = λ s. 5;
  uuid_hex = λ n. codes "28";
  renders = λ fields. true;
  new_uuid = λ i p. phase_id p;
  clock = λ i p. 2_000 + i;
  others = λ i p db. db;
}

abbrev too_many : ProviderError
too_many = new_error 429 none none none

abbrev busy : Client
busy = record {
  name = some (codes "busy");
  supports = none;
  prices = none;
  call = λ payload. Answer.refused too_many;
  open_stream = none;
}

abbrev usage : Fields
usage =
    field (codes "prompt_tokens") (int (pos 1_000))
      (field (codes "completion_tokens") (int (pos 5)) end)

abbrev fine : Client
fine = record busy {
  name = none;
  call = λ payload. Answer.result (field (codes "usage") (dict usage) end);
}

abbrev settings : Settings
settings = record {
  default_output_tokens = 10;
  max_output_tokens = 100;
  content_safety_policy_version = [];
  ordered_clients = busy ∷ fine ∷ [];
  content_safety = none;
}

abbrev call : ChatCall
call = record {
  request = record {
    model = codes "test-model";
    max_tokens = none;
    max_completion_tokens = none;
    stream = false;
    messages = list nil;
    dump = field (codes "model") (str (codes "test-model")) end;
  };
  principal = record { user_id = 1; api_key_id = some 2 };
  idempotency_key = some (codes "order-7");
}

abbrev reservation : Reservation
reservation = record {
  request_id = 40;
  amount = 4_168;
  estimated_input_tokens = 13;
  input_price = 1_000_000;
  output_price = 2_000_000;
}

abbrev reserved : Db
reserved = record db {
  wallets = record wallet { balance_microusd = 995_832; reserved_microusd = 4_168 } ∷ [];
  budgets = record budget { reserved_microusd = 4_168 } ∷ [];
  requests = new_request (Route.reserve_call world settings call) price 4_168 (some 3) ∷ [];
  ledger =
      record {
        user_id = 1;
        kind = Kind.reserve;
        reference = 40;
        idempotency_key = LedgerKey.model_reserve 40;
        entries = reserve_entries 4_168;
      }
      ∷ credit
      ∷ [];
}

granted :
    reserve_model_request (Route.reserve_call world settings call) db ≡ ok (reservation, reserved)
unfolding reserve_model_request is_encodable admit get_price has_key hold_budget insert_request
    active_budget post_transaction nonzero entries_sum is_posted token_cost ceil_true_div ceil_div
    round_div exponent estimate_tokens protocol_items input_token_reservation_upper_bound
    utf8_length utf8_width dumps get find put newest guard require catch_integrity ◌>>=◌ ◌+ℤ◌
    max_output upstream_payload assign pop digits escape_all quote count_items
granted = refl

-- The first provider refuses, the second is settled.
abbrev serving : Serving
serving = Route.serving world settings call reservation 2

abbrev noted : Db
noted = record reserved {
  attempts =
      attempt world serving (round_of world serving 0 busy) AttemptStatus.failed 429
        (some (codes "provider_http_429"))
      ∷ [];
}

unused : IsUnused 40 db
unfolding is_posted has_attempt
unused = record { no_release = refl; no_attempt = λ n. refl }

chat_completions-Reaches_example : Reaches db (chat_completions world settings call db).1
chat_completions-Reaches_example =
    chat_completions-Reaches world (λ i p db. Reaches.start) settings call db

chat_completions-closes_example : LeavesNoHold (chat_completions world settings call db)
chat_completions-closes_example = chat_completions-closes world settings call db

after_reserve-answers_example :
    IsHandled serving
      (busy ∷ fine ∷ [])
      (Route.after_reserve world settings call
        (busy ∷ fine ∷ [])
        none
        db
        (ok (reservation, reserved))).0
after_reserve-answers_example =
    after_reserve-answers world settings call (busy ∷ fine ∷ []) none db reservation reserved
      db-IsSound unused (λ i k p db ready. ready) granted

turn-FailsOver_example : FailsOver world serving busy 0 too_many reserved noted
unfolding turn Turn.ask Turn.answered Turn.refused Turn.after_refusal Turn.refusal_noted
    record_attempt has_attempt guard ◌>>=◌ new_error digits digits_from provider_name
    upstream_prices
turn-FailsOver_example =
    turn-FailsOver world serving (λ i p db. refl) 0 busy reserved too_many noted refl
