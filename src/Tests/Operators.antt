-- ===== src/Tests/Operators.antt =====
-- app/auth.py and app/services/ops_tokens.py, run with small codes in place of HMAC-SHA256 and json.
use kunlun_model_gateway.Base.{ℕ, List, [], ◌∷◌, ◌≡◌, refl, some, false, arith}
use kunlun_model_gateway.Access.{
  AccessSettings, Credentials, operator_claims, require_api_key, bearer_credentials,
  catch_ops_token, parse_api_key, split_once, active_user,
}
use kunlun_model_gateway.Operators.Tokens.{
  Codec, MintCall, mint_operator_token, verify_operator_token, payload_of, all_allowed,
}
use kunlun_model_gateway.Access.Granted.{HoldsKey, require_api_key-HoldsKey}
use kunlun_model_gateway.Operators.Tokens.Round.{IsFaithful, claims_of, verify-mint}
use kunlun_model_gateway.Models.{RateLimitCounter}
use kunlun_model_gateway.Json.{codes, dict}
use kunlun_model_gateway.Providers.{contains_text}
use kunlun_model_gateway.Tests.Data.{db}
use kunlun_model_gateway.Base.Result.{guard, ok, ◌>>=◌, require}
use kunlun_model_gateway.Access.Operator.{Authority, operator_claims-Authority}
use kunlun_model_gateway.Operators.Base64.{b64encode}
use kunlun_model_gateway.Base.Table.{find}
use kunlun_model_gateway.RateLimits.{
  enforce_rate_limit, enforce_seen, has_row, update_counter, bump_rows,
}
use kunlun_model_gateway.Streaming.{after_prefix}

abbrev mint : MintCall
mint = record {
  subject = codes "ann";
  scopes = codes "payments:read" ∷ codes "payments:write" ∷ [];
  ttl_seconds = 300;
  issued_at = 1_000;
  token_id = codes "t1";
}

abbrev codec : Codec
codec = record {
  hmac = λ code text. 1 ∷ 2 ∷ [];
  utf8 = λ s. s;
  dumps = λ v. codes "{}";
  loads = λ s. some (dict (payload_of mint));
}

abbrev signing_secret : List ℕ
signing_secret = codes "0123456789abcdef0123456789abcdef"

abbrev token : List ℕ
token = codes "ops1.e30.AQI"

-- What these stand-ins do is bytes that are read back.
codec-IsFaithful : IsFaithful codec (dict (payload_of mint))
codec-IsFaithful = record {
  hmac_bytes = λ code text. (omega arith, (omega arith, tt));
  text_bytes = (omega arith, (omega arith, tt));
  loads-dumps = refl;
}

minted : mint_operator_token codec signing_secret mint ≡ ok token
unfolding mint_operator_token guard ◌>>=◌ all_allowed b64encode contains_text
minted = refl

verify-mint_example :
    verify_operator_token codec token signing_secret (codes "payments:read") 1_100
    ≡ ok (claims_of mint)
unfolding contains_text
verify-mint_example =
    verify-mint codec signing_secret mint token (codes "payments:read") 1_100 codec-IsFaithful
      minted refl (omega arith) refl (omega arith) (omega arith)

abbrev access : AccessSettings
access = record {
  session_pepper = codes "s";
  api_key_pepper = codes "k";
  rate_limit_per_minute = 2;
  operator_signing_secret = signing_secret;
  operator_token = [];
  environment = codes "production";
  token_digest = λ secret pepper. 7;
  text_id = λ s. 2;
}

operator_claims-Authority_example :
    Authority access codec token (codes "payments:read") 1_100 (claims_of mint)
unfolding operator_claims catch_ops_token guard ◌>>=◌
operator_claims-Authority_example =
    operator_claims-Authority access codec token (codes "payments:read") 1_100 (claims_of mint)
      (rw verify-mint_example refl)

abbrev bearer : Credentials
bearer = record {
  scheme = codes "bearer";
  credentials = codes "gw_abcd.0123456789abcdef0123456789abcdef";
}

abbrev one_call : List RateLimitCounter
one_call = record { api_key_id = 2; window_epoch = 18; count = 1 } ∷ []

let_in :
    require_api_key access (some bearer) false 1_100 db []
    ≡ ok (record { user_id = 1; api_key_id = some 2 }, one_call)
unfolding require_api_key bearer_credentials parse_api_key split_once active_user find
    enforce_rate_limit enforce_seen has_row update_counter bump_rows guard require ◌>>=◌
    after_prefix
let_in = refl

require_api_key-HoldsKey_example :
    HoldsKey access bearer.credentials false 1_100 db []
      (record { user_id = 1; api_key_id = some 2 })
      one_call
require_api_key-HoldsKey_example =
    require_api_key-HoldsKey access bearer false 1_100 db []
      (record { user_id = 1; api_key_id = some 2 }) one_call let_in
