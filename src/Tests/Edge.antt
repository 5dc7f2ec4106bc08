-- ===== src/Tests/Edge.antt =====
-- The middleware of app/middleware.py and the adapter of app/services/content_safety.py, run on short
-- messages.
use kunlun_model_gateway.Base.{ℕ, ◌≡◌, refl, true, false, some, none, List, [], ◌∷◌, arith, Option}
use kunlun_model_gateway.Providers.{Exchange, contains_text}
use kunlun_model_gateway.ContentSafety.Closed.{IsAnswered, check-IsAnswered}
use kunlun_model_gateway.Edge.BodyLimit.{
  Limits, Message, Scope, limit_body, limit_of, check_length, Passage, gather,
}
use kunlun_model_gateway.Edge.BodyLimit.Whole.{
  IsWhole, limit_body-IsWhole, whole_body, limit_body-passes,
}
use kunlun_model_gateway.Json.{Json, codes, dict, field, bool, end}
use kunlun_model_gateway.ContentSafety.{check}
use kunlun_model_gateway.Base.Int.{pos}
use kunlun_model_gateway.Streaming.{after_prefix}

abbrev limits : Limits
limits = record { default_limit = 1_048_576; webhook_limit = 65_536; auth_limit = 4 }

abbrev login : Scope
login = record {
  method = codes "POST";
  path = codes "/auth/login";
  content_length = some (some (pos 3));
}

abbrev two_parts : List Message
two_parts =
    Message.request (codes "ab") true ∷ Message.request (codes "c") false ∷ Message.disconnect ∷ []

abbrev at_once : List Message
at_once = Message.request (codes "abc") false ∷ Message.disconnect ∷ []

passed_on : limit_body limits login two_parts ≡ Passage.passed at_once
unfolding limit_body limit_of check_length gather contains_text after_prefix
passed_on = refl

limit_body-IsWhole_example : IsWhole (limit_of limits login.path) [] two_parts at_once
unfolding contains_text
limit_body-IsWhole_example = limit_body-IsWhole limits login two_parts at_once refl passed_on

limit_body-passes_example : limit_body limits login two_parts ≡ Passage.passed at_once
unfolding contains_text limit_of whole_body after_prefix
limit_body-passes_example =
    limit_body-passes limits login two_parts (codes "abc") (Message.disconnect ∷ []) refl refl refl
      (omega arith)

abbrev allowing : List ℕ → Option Json
allowing content = some (dict (field (codes "allowed") (bool true) end))

abbrev safe : Exchange
safe = Exchange.response 200 (codes "{}" ∷ []) none

check-IsAnswered_example :
    IsAnswered allowing safe (check allowing 262_144 (codes "test-model") (some (codes "[]")) safe)
check-IsAnswered_example =
    check-IsAnswered allowing 262_144 (codes "test-model") (some (codes "[]")) safe
