-- ===== src/RateLimits.antt =====
-- The rate limits of app/auth.py (`_enforce_rate_limit`, `enforce_auth_rate_limit`) and their sweep in
-- app/services/rate_limit_maintenance.py.
pub mod Bound
use kunlun_model_gateway.Base.{
  ℕ, suc, ◌+◌, ◌*◌, ◌/◌, Bool, true, false, not, ◌&&◌, ◌||◌, List, [], ◌∷◌, ltb, leb, ◌==◌,
  if◌then◌else◌,
}
use kunlun_model_gateway.Base.Result.{
  Result, ok, guard, ◌>>=◌, ◌>>◌, http, runtime_error, value_error,
}
use kunlun_model_gateway.Models.{AuthRateLimitCounter, RateLimitCounter}

-- The two tables share their code: `here` is the WHERE clause of one window.
module _ {C : Type 0} (here : C → Bool) where
  unfoldable pub has_row : List C → Bool
  has_row [] = false
  has_row (c ∷ cs) = here c || has_row cs

module _ {C : Type 0} (here : C → Bool) (count : C → ℕ) (bump : C → C) where
  -- The UPDATE of the rows below the limit, with its row count.
  unfoldable pub bump_rows : ℕ → List C → ℕ × List C
  bump_rows limit [] = (0, [])
  bump_rows limit (c ∷ cs) =
      let rest = bump_rows limit cs in
      if here c && ltb (count c) limit then (suc rest.0, bump c ∷ rest.1) else (rest.0, c ∷ rest.1)

  unfoldable pub update_counter : ℕ → List C → Result (List C)
  update_counter limit rows = do
    let updated = bump_rows limit rows
    guard (updated.0 == 1) (http 429)
    ok updated.1

  -- `seen` is whether the SELECT found a row. Another request may have inserted it since: the unique
  -- constraint then fails the INSERT, and the UPDATE is made instead.
  unfoldable pub enforce_seen : Bool → C → ℕ → List C → Result (List C)
  enforce_seen true fresh limit rows = update_counter limit rows
  enforce_seen false fresh limit rows =
      if has_row here rows then update_counter limit rows else ok (fresh ∷ rows)

abbrev pub in_window : ℕ → ℕ → RateLimitCounter → Bool
in_window key window c = (c.api_key_id == key) && (c.window_epoch == window)

abbrev pub bump_counter : RateLimitCounter → RateLimitCounter
bump_counter c = record c { count = c.count + 1 }

abbrev pub row_count : RateLimitCounter → ℕ
row_count c = c.count

-- The limit of an API key in the minute of `now`, after a SELECT that has seen a row or not.
unfoldable pub enforce_rate_limit :
    Bool → ℕ → ℕ → ℕ → List RateLimitCounter → Result (List RateLimitCounter)
enforce_rate_limit seen key now limit rows =
    enforce_seen (in_window key (now / 60)) row_count bump_counter seen
      (record { api_key_id = key; window_epoch = now / 60; count = 1 }) limit rows

abbrev pub in_auth_window : ℕ → ℕ → ℕ → AuthRateLimitCounter → Bool
in_auth_window digest action window c =
    (c.subject_digest == digest) && ((c.action == action) && (c.window_epoch == window))

abbrev pub bump_auth_counter : AuthRateLimitCounter → AuthRateLimitCounter
bump_auth_counter c = record c { count = c.count + 1 }

abbrev pub auth_row_count : AuthRateLimitCounter → ℕ
auth_row_count c = c.count

unfoldable pub enforce_subject :
    Bool → ℕ → ℕ → ℕ → ℕ → List AuthRateLimitCounter → Result (List AuthRateLimitCounter)
enforce_subject seen digest action window limit rows =
    enforce_seen (in_auth_window digest action window) auth_row_count bump_auth_counter seen
      (record { subject_digest = digest; action = action; window_epoch = window; count = 1 }) limit
      rows

-- The count of the address, committed, and then that of the account: the second may be refused after
-- the first was counted.
unfoldable pub enforce_auth_rate_limit :
    Bool → Bool → ℕ → ℕ → ℕ → ℕ → ℕ → List AuthRateLimitCounter → Result (List AuthRateLimitCounter)
enforce_auth_rate_limit seen_ip seen_account action ip account now limit rows = do
  guard (leb 1 limit) runtime_error
  rows' ← enforce_subject seen_ip ip action (now / 60) limit rows
  enforce_subject seen_account account action (now / 60) limit rows'

-- `window_epoch < current // 60 - retention_days * 24 * 60`, on integers.
abbrev pub is_old : ℕ → ℕ → ℕ → Bool
is_old retention_days now window = ltb (window + retention_days * 1_440) (now / 60)

unfoldable pub delete_old : {C : Type 0} → (C → ℕ) → ℕ → ℕ → List C → ℕ × List C
delete_old window days now [] = (0, [])
delete_old window days now (c ∷ cs) =
    let rest = delete_old window days now cs in
    if is_old days now (window c) then (suc rest.0, rest.1) else (rest.0, c ∷ rest.1)

-- The two row counts, and the tables that the caller commits.
unfoldable pub cleanup_rate_limit_counters :
    ℕ
    → ℕ
    → List RateLimitCounter
    → List AuthRateLimitCounter
    → Result ((ℕ × ℕ) × (List RateLimitCounter × List AuthRateLimitCounter))
cleanup_rate_limit_counters retention_days now keys auths = do
  guard (leb 1 retention_days) value_error
  let k = delete_old (λ (c : RateLimitCounter). c.window_epoch) retention_days now keys
  let a = delete_old (λ (c : AuthRateLimitCounter). c.window_epoch) retention_days now auths
  ok ((k.0, a.0), (k.1, a.1))
