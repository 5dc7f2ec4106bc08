-- ===== src/Tests/Access.antt =====
-- app/auth.py and app/services/identity.py, run on small tables.
use kunlun_model_gateway.Base.{◌+◌, ◌≡◌, refl, true, false, none, some, List, [], ◌∷◌, arith, map}
use kunlun_model_gateway.Base.Result.{ok, guard, ◌>>=◌}
use kunlun_model_gateway.Base.Table.{find, put, sum_by}
use kunlun_model_gateway.Models.{
  AccessSession, Db, IdentityToken, RateLimitCounter, User, UserStatus,
}
use kunlun_model_gateway.Payments.Freeze.{revoke_key}
use kunlun_model_gateway.RateLimits.{
  bump_rows, delete_old, enforce_rate_limit, enforce_seen, has_row, in_window, row_count,
  update_counter, cleanup_rate_limit_counters,
}
use kunlun_model_gateway.RateLimits.Bound.{IsLimited, calls_in, rows_in, enforce_rate_limit-count}
use kunlun_model_gateway.Identity.{
  ResetCall, consume_email_verification, consume_row, count_unused, find_token, is_valid_token,
  reset_password, reset_token, reset_user, revoke_any_session, rotate, verify_token, verify_user,
}
use kunlun_model_gateway.Identity.Tokens.{
  IsRotated, reset_password-IsRotated, reset_password-once, with_digest,
}
use kunlun_model_gateway.Identity.Verify.{IsVerified, consume_email_verification-once}
use kunlun_model_gateway.Tests.Data.{customer, db}

-- One call of the limit of two is counted in the minute 100, and an old window is there too.
abbrev counters : List RateLimitCounter
counters =
    record { api_key_id = 2; window_epoch = 100; count = 1 }
    ∷ record { api_key_id = 2; window_epoch = 3; count = 2 }
    ∷ []

abbrev counted : List RateLimitCounter
counted =
    record { api_key_id = 2; window_epoch = 100; count = 2 }
    ∷ record { api_key_id = 2; window_epoch = 3; count = 2 }
    ∷ []

-- The SELECT saw no row, since another request inserted it meanwhile.
count_runs : enforce_rate_limit false 2 6_030 2 counters ≡ ok counted
unfolding enforce_rate_limit enforce_seen has_row update_counter bump_rows guard ◌>>=◌
count_runs = refl

counters-IsLimited : IsLimited (in_window 2 100) row_count 2 counters
unfolding sum_by rows_in calls_in
counters-IsLimited = record { one_row = omega arith; bounded = omega arith }

enforce_rate_limit-count_example :
    IsLimited (in_window 2 100) row_count 2 counted
    × (sum_by (calls_in (in_window 2 100) row_count) counted
        ≡ sum_by (calls_in (in_window 2 100) row_count) counters + 1)
enforce_rate_limit-count_example =
    enforce_rate_limit-count false 2 6_030 2 counters counted (omega arith) counters-IsLimited
      count_runs

-- The old window is past its seven days.
abbrev swept : List RateLimitCounter
swept = record { api_key_id = 2; window_epoch = 100; count = 1 } ∷ []

cleanup_runs : cleanup_rate_limit_counters 7 608_400 counters [] ≡ ok ((1, 0), (swept, []))
unfolding cleanup_rate_limit_counters delete_old guard ◌>>=◌
cleanup_runs = refl

abbrev reset_row : IdentityToken
reset_row = record {
  id = 11;
  user_id = 1;
  token_digest = 12;
  expires_at = 9_000;
  consumed_at = none;
}

abbrev session : AccessSession
session = record { user_id = 1; token_digest = 13; expires_at = 9_500; revoked = false }

abbrev before_reset : Db
before_reset = record db { reset_tokens = reset_row ∷ []; access_sessions = session ∷ [] }

abbrev reset : ResetCall
reset = record { digest = 12; password_length = 20; password_hash = 99; now = 8_000 }

abbrev after_reset : Db
after_reset = record before_reset {
  reset_tokens = record reset_row { consumed_at = some 8_000 } ∷ [];
  users = record customer { password_hash = 99 } ∷ [];
  access_sessions = record session { revoked = true } ∷ [];
  api_keys = map (revoke_key 1 8_000) db.api_keys;
}

reset_runs : reset_password reset before_reset ≡ ok (true, after_reset)
unfolding reset_password reset_token reset_user rotate find_token consume_row count_unused
    is_valid_token revoke_any_session revoke_key find put guard ◌>>=◌
reset_runs = refl

reset_password-IsRotated_example : IsRotated reset before_reset after_reset
reset_password-IsRotated_example =
    reset_password-IsRotated reset before_reset after_reset reset_runs

reset_password-once_example : reset_password reset after_reset ≡ ok (false, after_reset)
unfolding sum_by with_digest
reset_password-once_example =
    reset_password-once reset reset before_reset after_reset (omega arith) refl reset_runs

abbrev newcomer : User
newcomer = record customer { status = UserStatus.pending_email; email_verified_at = none }

abbrev before_verify : Db
before_verify = record db { users = newcomer ∷ []; email_tokens = reset_row ∷ [] }

abbrev after_verify : Db
after_verify = record db {
  users = record newcomer { status = UserStatus.active; email_verified_at = some 8_000 } ∷ [];
  email_tokens = record reset_row { consumed_at = some 8_000 } ∷ [];
}

verify_runs : consume_email_verification 12 8_000 before_verify ≡ (true, after_verify)
unfolding consume_email_verification verify_token verify_user find_token consume_row count_unused
    find put
verify_runs = refl

consume_email_verification-once_example :
    IsVerified 12 8_000 before_verify after_verify
    × (consume_email_verification 12 8_500 after_verify ≡ (false, after_verify))
unfolding sum_by with_digest
consume_email_verification-once_example =
    consume_email_verification-once 12 8_000 8_500 before_verify after_verify (omega arith)
      verify_runs
