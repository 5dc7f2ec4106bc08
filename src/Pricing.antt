-- ===== src/Pricing.antt =====
-- app/services/gateway_billing.py: token estimates and token prices.
pub mod Division
pub mod Cost
use kunlun_model_gateway.Base.{
  ℕ, zero, suc, ◌+◌, ◌-◌, ◌*◌, ◌/◌, ◌%◌, ◌^◌, Bool, true, false, Option, none, some, ltb, leb, ◌==◌,
  ◌||◌, length, if◌then◌else◌,
}
use Prim.Native.Nat.{max}
use kunlun_model_gateway.Json.{Json, dict, codes, dumps, get, as_list, count_items}
use kunlun_model_gateway.Json.Size.{utf8_length}

-- `math.ceil(n / d)` of integers: `/` is the float nearest to the quotient, ties to even, with 53
-- significant bits. Below 2 ^ 53 its last place is 1 / 2 ^ s, with s = 52 - exponent.
unfoldable pub exponent_from : ℕ → ℕ → ℕ
exponent_from zero q = 0
exponent_from (suc f) q = let more = suc (exponent_from f (q / 2)) in if ltb q 2 then 0 else more

-- The exponent of the leading bit of `q`, up to 2048, where Python raises OverflowError.
unfoldable pub exponent : ℕ → ℕ
unfolding exponent_from
exponent q = exponent_from 2048 q

-- The integer nearest to n / d, ties to even.
unfoldable pub round_div : ℕ → ℕ → ℕ
round_div n d =
    let q = n / d in
    let r = n % d in
    if ltb (2 * r) d then q else if ltb d (2 * r) then q + 1 else if q % 2 == 0 then q else q + 1

unfoldable pub ceil_div : ℕ → ℕ → ℕ
ceil_div n d = (n + (d - 1)) / d

unfoldable pub ceil_true_div : ℕ → ℕ → ℕ
ceil_true_div n d =
    let e = exponent (n / d) in
    if leb e 52
    then ceil_div (round_div (n * 2 ^ (52 - e)) d) (2 ^ (52 - e))
    else round_div n (d * 2 ^ (e - 52)) * 2 ^ (e - 52)

unfoldable pub token_cost : ℕ → ℕ → ℕ
token_cost tokens price_per_million =
    if leb tokens 0 || leb price_per_million 0
    then 0
    else ceil_true_div (tokens * price_per_million) 1_000_000

-- `math.ceil(len(serialized) / 4)` is exact: a quarter is a float.
unfoldable pub estimate_tokens : Json → ℕ
estimate_tokens value = max 1 (ceil_div (length (dumps value)) 4)

unfoldable pub count_list : Option Json → ℕ
count_list v = elim (as_list v) [ none ↦ 0 | some xs ↦ count_items xs ]

unfoldable pub protocol_items : Json → ℕ
unfolding count_list
protocol_items (dict fs) =
    count_list (get (codes "messages") fs) + count_list (get (codes "tools") fs)
protocol_items _ = 0

-- Of a value whose text can be encoded; the caller refuses the others.
unfoldable pub input_token_reservation_upper_bound : Json → ℕ
input_token_reservation_upper_bound value =
    max 1 (utf8_length (dumps value) + 4096 + 32 * protocol_items value)
