-- ===== src/Streaming/Usage.antt =====
-- A stream is settled by what its tracker counted (app/streaming.py, app/services/gateway_billing.py).
use kunlun_model_gateway.Base.{ℕ, ◌≡◌, refl, false, List}
use kunlun_model_gateway.Json.{get}
use kunlun_model_gateway.Billing.Settle.{usage_from_response, get_either}
use kunlun_model_gateway.Streaming.{SseUsageTracker, settlement_response, prompt_of, completion_of}

-- The settlement reads back from the tracker's response the tokens that the tracker reports, and does
-- not take them for estimates of its own.
pub usage_from_response-settlement_response :
    (model : List ℕ) (fallback input : ℕ) (s : SseUsageTracker)
    → usage_from_response (settlement_response model fallback s).0 input
      ≡ (prompt_of s fallback, completion_of s, false)
unfolding usage_from_response settlement_response get get_either
usage_from_response-settlement_response model fallback input s = refl
