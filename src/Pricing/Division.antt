-- ===== src/Pricing/Division.antt =====
-- When the float division of app/services/gateway_billing.py agrees with the exact quotient.
use native.Mathlib.Nat.{pow-suc, div-add-mod, mod-lt, pow-le-pow_right, mul-le-mul_right}
use native.Mathlib.Decide.{dec_lt, dec_le}
use kunlun_model_gateway.Base.{
  ℕ, false, zero, suc, ◌+◌, ◌-◌, ◌*◌, ◌/◌, ◌%◌, ◌^◌, ◌≤◌, ◌<◌, ◌≡◌, sym, ap, ◌∙◌, ltb, leb, ◌==◌,
  arith, if_elim,
}
use kunlun_model_gateway.Pricing.{exponent_from, exponent, round_div, ceil_div, ceil_true_div}

exponent_from_le : (f q k : ℕ) → q < 2 ^ suc k → exponent_from f q ≤ k
unfolding exponent_from
exponent_from_le zero q k h = omega arith
exponent_from_le (suc f) q zero h = ground arith
exponent_from_le (suc f) q (suc k) h =
    ground (arith, exponent_from_le f (q / 2) k, pow-suc 2 (suc k))

suc-mul : (c s : ℕ) → suc c * s ≡ c * s + s
suc-mul c s = omega arith

div_unique : (x s c : ℕ) → c * s ≤ x → x < c * s + s → x / s ≡ c
div_unique x s c h k = grind arith

-- The exact ceiling, by its two bounds.
pub ceil_div_unique : (x s c : ℕ) → 0 < s → c * s < x → x ≤ c * s + s → ceil_div x s ≡ suc c
unfolding ceil_div
ceil_div_unique x s c p h k =
    div_unique (x + (s - 1)) s (suc c) (omega (arith, suc-mul c s)) (omega (arith, suc-mul c s))

-- `r` is n / d, up to half a unit.
abbrev IsNearest : ℕ → ℕ → ℕ → Type 0
IsNearest n d r = (2 * (r * d) ≤ 2 * n + d) × (2 * n ≤ 2 * (r * d) + d)

IsNearest-below : (n d q r : ℕ) → d * q + r ≡ n → 2 * r ≤ d → IsNearest n d q
IsNearest-below n d q r e h = omega arith

IsNearest-above : (n d q r : ℕ) → d * q + r ≡ n → r < d → d ≤ 2 * r → IsNearest n d (q + 1)
IsNearest-above n d q r e h k = omega arith

round_div-IsNearest : (n d : ℕ) → 0 < d → IsNearest n d (round_div n d)
unfolding round_div
round_div-IsNearest n d p =
    let e = div-add-mod n d in
    let m = mod-lt n p in
    let q = n / d in
    let r = n % d in
    if_elim (IsNearest n d) (ltb (2 * r) d) _ _ (λ h. IsNearest-below n d q r e (ground arith))
      λ h.
        if_elim (IsNearest n d) (ltb d (2 * r)) _ _
          (λ k. IsNearest-above n d q r e m (ground arith))
          λ k.
            if_elim (IsNearest n d) (q % 2 == 0) _ _ (λ _. IsNearest-below n d q r e (ground arith))
              (λ _. IsNearest-above n d q r e m (ground arith))

-- The rounded quotient of n * s lies in the same unit interval as n / d, when a half is less than s.
scaled_lower : (n d s c r : ℕ) → d < 2 * s → c * d < n → 2 * (n * s) ≤ 2 * (r * d) + d → c * s < r
scaled_lower n d s c r small below high = elim (dec_lt (c * s) r) [
  | yes h ↦ h
  | no h ↦ absurd (
      omega (
        arith,
        mul-le-mul_right {m = r} {n = c * s} d (omega arith),
        mul-le-mul_right {m = c * d + 1} {n = n} s (omega arith),
      ))
]

scaled_upper :
    (n d s c r : ℕ) → 0 < d → n ≤ c * d + d → 2 * (r * d) ≤ 2 * (n * s) + d → r ≤ c * s + s
scaled_upper n d s c r p above low = elim (dec_le r (c * s + s)) [
  | yes h ↦ h
  | no h ↦ absurd (
      omega (
        arith,
        mul-le-mul_right {m = c * s + s + 1} {n = r} d (omega arith),
        mul-le-mul_right {m = n} {n = c * d + d} s (omega arith),
      ))
]

ceil_div-zero : (d : ℕ) → 0 < d → ceil_div 0 d ≡ 0
unfolding ceil_div
ceil_div-zero d p = div_unique (0 + (d - 1)) d 0 (omega arith) (omega arith)

round_div-zero : (n d : ℕ) → 0 < d → n ≡ 0 → round_div n d ≡ 0
unfolding round_div
round_div-zero n d p e = grind arith

-- With a scale above half the divisor, rounding and then taking the ceiling is the exact ceiling.
scaled_exact : (n d s : ℕ) → 0 < d → d < 2 * s → ceil_div (round_div (n * s) d) s ≡ ceil_div n d
scaled_exact zero d s p small =
    ap (λ (x : ℕ). ceil_div x s) (round_div-zero (0 * s) d p (omega arith))
    ∙ ceil_div-zero s (omega arith)
    ∙ sym (ceil_div-zero d p)
scaled_exact (suc n) d s p small =
    let near = round_div-IsNearest (suc n * s) d p in
    let c = n / d in
    let e = div-add-mod n d in
    let m = mod-lt n p in
    ceil_div_unique (round_div (suc n * s) d) s c (omega arith)
      (scaled_lower (suc n) d s c _ small (omega arith) near.1)
      (scaled_upper (suc n) d s c _ p (omega arith) near.0)
    ∙ sym (ceil_div_unique (suc n) d c p (omega arith) (omega arith))

exponent_le : (q : ℕ) → q < 2 ^ 34 → exponent q ≤ 33
unfolding exponent
exponent_le q h = exponent_from_le 2048 q 33 h

scale_large : (e : ℕ) → e ≤ 33 → 1_000_000 < 2 * 2 ^ (52 - e)
scale_large e h =
    omega (arith, pow-le-pow_right {n = 2} (omega arith) {i = 19} {j = 52 - e} (omega arith))

leb-false : (e : ℕ) → e ≤ 33 → leb e 52 ≡ false → ⊥
leb-false e h k = ground arith

-- The float quotient rounds up to the exact ceiling while the cost is below 2 ^ 34 microUSD.
pub ceil_true_div-exact :
    (n : ℕ) → n / 1_000_000 < 2 ^ 34 → ceil_true_div n 1_000_000 ≡ ceil_div n 1_000_000
unfolding ceil_true_div
ceil_true_div-exact n h =
    let e = exponent (n / 1_000_000) in
    if_elim (λ x. x ≡ ceil_div n 1_000_000) (leb e 52) _ _
      (λ small.
        scaled_exact n 1_000_000 (2 ^ (52 - e)) (omega arith)
          (scale_large e (exponent_le (n / 1_000_000) h)))
      (λ large. absurd (leb-false e (exponent_le (n / 1_000_000) h) large))
