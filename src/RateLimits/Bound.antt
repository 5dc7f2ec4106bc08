-- ===== src/RateLimits/Bound.antt =====
-- No window admits more calls than its limit (app/auth.py).
use kunlun_model_gateway.Base.{
  ℕ, ◌+◌, ◌/◌, ◌≤◌, ◌<◌, ◌≡◌, refl, Bool, true, false, ◌&&◌, List, [], ◌∷◌, ◌==◌, arith,
  if◌then◌else◌,
}
use kunlun_model_gateway.Base.Result.{ok, Ensures, Ensures-ok, Ensures-guard, Ensures-if}
use kunlun_model_gateway.Base.Table.{sum_by}
use kunlun_model_gateway.Models.{RateLimitCounter, AuthRateLimitCounter}
use kunlun_model_gateway.RateLimits.{
  has_row, bump_rows, update_counter, enforce_seen, enforce_rate_limit, in_window, row_count,
  bump_counter, delete_old, is_old, cleanup_rate_limit_counters,
}

module _ {C : Type 0} (here : C → Bool) (count : C → ℕ) where
  -- How many rows a window has, and how many calls they have counted.
  unfoldable pub rows_in : C → ℕ
  rows_in c = if here c then 1 else 0

  unfoldable pub calls_in : C → ℕ
  calls_in c = if here c then count c else 0

  -- The table has at most one row of the window, and it counts at most `limit` calls.
  pub record IsLimited (limit : ℕ) (rows : List C) : Type 0 where
    pub one_row : sum_by rows_in rows ≤ 1
    pub bounded : sum_by calls_in rows ≤ limit

  no_calls : (cs : List C) → sum_by rows_in cs ≡ 0 → sum_by calls_in cs ≡ 0
  unfolding sum_by rows_in calls_in
  no_calls [] e = refl
  no_calls (c ∷ cs) e = ground (arith, no_calls cs)

  no_rows : (cs : List C) → has_row here cs ≡ false → sum_by rows_in cs ≡ 0
  unfolding sum_by rows_in has_row
  no_rows [] e = refl
  no_rows (c ∷ cs) e = ground (arith, no_rows cs)

module _ {C : Type 0} (here : C → Bool) (count : C → ℕ) (bump : C → C)
    (counts : (c : C) → count (bump c) ≡ count c + 1)
    (stays : (c : C) → here (bump c) ≡ here c) where
  -- The UPDATE counts one call for each row that it changes, and changes none that is full.
  bump_rows-sums :
      (limit : ℕ) (cs : List C)
      → ((bump_rows here count bump limit cs).0 ≤ sum_by (rows_in here count) cs)
        × (sum_by (rows_in here count) (bump_rows here count bump limit cs).1
            ≡ sum_by (rows_in here count) cs)
        × (sum_by (calls_in here count) (bump_rows here count bump limit cs).1
            ≡ sum_by (calls_in here count) cs + (bump_rows here count bump limit cs).0)
  unfolding sum_by rows_in calls_in bump_rows
  bump_rows-sums limit [] = (omega arith, refl, refl)
  bump_rows-sums limit (c ∷ cs) = (
    ground (arith, bump_rows-sums limit cs),
    ground (arith, stays c, bump_rows-sums limit cs),
    ground (arith, stays c, counts c, bump_rows-sums limit cs),
  )

  bump_rows-room :
      (limit : ℕ) (cs : List C)
      → sum_by (rows_in here count) cs ≤ 1
      → (bump_rows here count bump limit cs).0 ≡ 1
      → sum_by (calls_in here count) cs < limit
  unfolding sum_by rows_in calls_in bump_rows
  bump_rows-room limit [] one e = cc
  bump_rows-room limit (c ∷ cs) one e =
      ground (arith, bump_rows-room limit cs, no_calls here count cs, bump_rows-sums limit cs)

  -- One more call is counted, and the limit is kept.
  abbrev Counts : ℕ → List C → List C → Type 0
  Counts limit rows rows' =
      IsLimited here count limit rows'
      × (sum_by (calls_in here count) rows' ≡ sum_by (calls_in here count) rows + 1)

  update_counter-Counts :
      (limit : ℕ) (rows : List C)
      → IsLimited here count limit rows
      → Ensures (Counts limit rows) (update_counter here count bump limit rows)
  unfolding update_counter
  update_counter-Counts limit rows inv = Ensures-guard _ _ _ λ changed.
      let one : (bump_rows here count bump limit rows).0 ≡ 1 = ground arith in
      let sums = bump_rows-sums limit rows in
      let room = bump_rows-room limit rows inv.one_row one in
      Ensures-ok _ (
        record {
          one_row = omega (arith, sums.1, inv.one_row);
          bounded = omega (arith, sums.2, one, room);
        },
        omega (arith, sums.2, one),
      )

  pub enforce_seen-Counts :
      (seen : Bool) (fresh : C) (limit : ℕ) (rows : List C)
      → here fresh ≡ true
      → count fresh ≡ 1
      → 1 ≤ limit
      → IsLimited here count limit rows
      → Ensures (Counts limit rows) (enforce_seen here count bump seen fresh limit rows)
  unfolding enforce_seen
  enforce_seen-Counts true fresh limit rows mine first positive inv =
      update_counter-Counts limit rows inv
  enforce_seen-Counts false fresh limit rows mine first positive inv =
      Ensures-if _ _ _ (λ _. update_counter-Counts limit rows inv)
        (λ absent. Ensures-ok _ (fresh_row (no_rows here count rows absent)))
    where
      fresh_row : sum_by (rows_in here count) rows ≡ 0 → Counts limit rows (fresh ∷ rows)
      fresh_row none_there =
          let zero_calls = no_calls here count rows none_there in
          unfold sum_by rows_in calls_in in
          (record { one_row = ground arith; bounded = ground arith }, ground arith)

-- A call that passes the rate limit of a key has been counted: whatever its SELECT had seen, the
-- window of the key counts exactly one call more, in its one row, and no more calls than the limit.
pub enforce_rate_limit-count :
    (seen : Bool) (key now limit : ℕ) (rows rows' : List RateLimitCounter)
    → 1 ≤ limit
    → IsLimited (in_window key (now / 60)) row_count limit rows
    → enforce_rate_limit seen key now limit rows ≡ ok rows'
    → IsLimited (in_window key (now / 60)) row_count limit rows'
      × (sum_by (calls_in (in_window key (now / 60)) row_count) rows'
          ≡ sum_by (calls_in (in_window key (now / 60)) row_count) rows + 1)
unfolding enforce_rate_limit
enforce_rate_limit-count seen key now limit rows rows' positive inv e =
    (enforce_seen-Counts (in_window key (now / 60)) row_count bump_counter (λ c. refl) (λ c. refl)
        seen _ limit rows (same_window key (now / 60)) refl positive inv).returned
      rows' e
  where
    same_window : (k w : ℕ) → (k == k) && (w == w) ≡ true
    same_window k w = ground arith

delete_old-count :
    (retention_days now key window : ℕ) (rows : List RateLimitCounter)
    → is_old retention_days now window ≡ false
    → sum_by
        (calls_in (in_window key window) row_count)
        (delete_old (λ (c : RateLimitCounter). c.window_epoch) retention_days now rows).1
      ≡ sum_by (calls_in (in_window key window) row_count) rows
unfolding delete_old sum_by calls_in
delete_old-count retention_days now key window [] recent = refl
delete_old-count retention_days now key window (c ∷ rows) recent =
    ground (arith, delete_old-count retention_days now key window rows)

-- The sweep of old windows resets no limit: when it returns, the count of a window that is not past
-- the retention is what it was, for every key.
pub cleanup_rate_limit_counters-count :
    (retention_days now key window : ℕ) (keys keys' : List RateLimitCounter)
    (auths auths' : List AuthRateLimitCounter) (counts : ℕ × ℕ)
    → is_old retention_days now window ≡ false
    → cleanup_rate_limit_counters retention_days now keys auths ≡ ok (counts, (keys', auths'))
    → sum_by (calls_in (in_window key window) row_count) keys'
      ≡ sum_by (calls_in (in_window key window) row_count) keys
unfolding cleanup_rate_limit_counters
cleanup_rate_limit_counters-count retention_days now key window keys keys' auths auths' counts
      recent e =
    (Ensures-guard
        {P = λ (x : (ℕ × ℕ) × (List RateLimitCounter × List AuthRateLimitCounter)).
          sum_by (calls_in (in_window key window) row_count) x.1.0
          ≡ sum_by (calls_in (in_window key window) row_count) keys}
        _ _ _
        λ _. Ensures-ok _ (delete_old-count retention_days now key window keys recent)).returned
      (counts, (keys', auths')) e
