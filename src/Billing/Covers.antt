-- ===== src/Billing/Covers.antt =====
-- What a reservation covers (app/services/gateway_billing.py): the amount that
-- `reserve_model_request` holds, against the cost that `settle_model_request` charges.
use native.Mathlib.Nat.{mul-le-mul_right}
use kunlun_model_gateway.Base.{ℕ, ◌*◌, ◌/◌, ◌^◌, ◌≤◌, ◌<◌, ◌≡◌, arith}
use kunlun_model_gateway.Models.{ModelPrice}
use kunlun_model_gateway.Pricing.{input_token_reservation_upper_bound, token_cost}
use kunlun_model_gateway.Pricing.Cost.{IsCost, token_cost-IsCost}
use kunlun_model_gateway.Billing.Reserve.{ReserveCall, reserve_amount}
use kunlun_model_gateway.Billing.Settle.{Usage, charge, usage_cost}

least_mono : (t t' p c c' : ℕ) → t * p ≤ t' * p → IsCost t p c → IsCost t' p c' → c ≤ c'
least_mono t t' p c c' more low high = omega (arith, more, low.least, high.covers)

-- More tokens cost no less.
token_cost_mono :
    (t t' p : ℕ) → t ≤ t' → t' * p / 1_000_000 < 2 ^ 34 → token_cost t p ≤ token_cost t' p
token_cost_mono t t' p more small =
    let products = mul-le-mul_right p more in
    least_mono t t' p (token_cost t p) (token_cost t' p) products
      (token_cost-IsCost t p (omega (arith, products, small))) (token_cost-IsCost t' p small)

-- A request whose metered usage stays within what was reserved for it, the input bound of its
-- payload and its output limit, costs no more than its reservation, so that it is charged its whole
-- cost; both parts of the reservation are below 2 ^ 34 microUSD.
pub usage_cost-le-reserve_amount :
    (q : ReserveCall) (price : ModelPrice) (u : Usage)
    → u.0 ≤ input_token_reservation_upper_bound q.billable_payload
    → u.1 ≤ q.max_output_tokens
    → input_token_reservation_upper_bound q.billable_payload
        * price.input_microusd_per_million
        / 1_000_000
      < 2 ^ 34
    → q.max_output_tokens * price.output_microusd_per_million / 1_000_000 < 2 ^ 34
    → (usage_cost price.input_microusd_per_million price.output_microusd_per_million u
        ≤ reserve_amount q price)
      × (charge
            (usage_cost price.input_microusd_per_million price.output_microusd_per_million u)
            (reserve_amount q price)
          ≡ usage_cost price.input_microusd_per_million price.output_microusd_per_million u)
unfolding usage_cost
usage_cost-le-reserve_amount q price u input output small_in small_out =
    let i = token_cost_mono u.0 _ price.input_microusd_per_million input small_in in
    let o = token_cost_mono u.1 _ price.output_microusd_per_million output small_out in
    (omega (arith, i, o), omega (arith, i, o))
