-- ===== src/Pricing/Cost.antt =====
-- `token_cost` of app/services/gateway_billing.py against the price that it stands for.
use kunlun_model_gateway.Base.{
  ℕ, zero, suc, ◌+◌, ◌*◌, ◌/◌, ◌^◌, ◌≤◌, ◌<◌, ◌≡◌, true, ◌||◌, leb, arith, if_elim,
}
use kunlun_model_gateway.Pricing.{ceil_div, token_cost}
use kunlun_model_gateway.Pricing.Division.{ceil_true_div-exact}

-- The cost is the least number of microUSD that pays for the tokens at the price per million.
pub record IsCost (tokens price cost : ℕ) : Type 0 where
  pub covers : tokens * price ≤ cost * 1_000_000
  pub least : cost * 1_000_000 < tokens * price + 1_000_000

nothing_due : (t p : ℕ) → leb t 0 || leb p 0 ≡ true → t * p ≡ 0
nothing_due zero p e = omega arith
nothing_due (suc t) zero e = omega arith
nothing_due (suc t) (suc p) e = ground arith

-- While the cost is below 2 ^ 34 microUSD, the float division of the code charges exactly the
-- least whole number of microUSD that covers the tokens.
pub token_cost-IsCost :
    (tokens price : ℕ)
    → tokens * price / 1_000_000 < 2 ^ 34
    → IsCost tokens price (token_cost tokens price)
unfolding token_cost ceil_div
token_cost-IsCost t p small =
    if_elim (IsCost t p) (leb t 0 || leb p 0) _ _
      (λ free. record {
        covers = omega (arith, nothing_due t p free);
        least = omega (arith, nothing_due t p free);
      })
      λ due. record {
        covers = omega (arith, ceil_true_div-exact (t * p) small);
        least = omega (arith, ceil_true_div-exact (t * p) small);
      }
