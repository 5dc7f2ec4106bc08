-- ===== src/ContentSafety.antt =====
-- app/services/content_safety.py: `SafetyDecision` and `HttpContentSafetyAdapter.check`.
pub mod Closed
use kunlun_model_gateway.Base.{
  ℕ, Bool, Option, List, some, none, true, false, ◌&&◌, ◌||◌, [], ◌∷◌, ◌++◌, leb, ltb, ◌==◌, length,
  if◌then◌else◌, ◌+◌,
}
use kunlun_model_gateway.Json.{Fields, Json, codes, str, bool, dict, null, get}
use kunlun_model_gateway.Providers.{Interrupt, Exchange, lost, response}

pub record SafetyDecision : Type 0 where
  pub allowed : Bool
  pub reason_code : List ℕ
  pub decision_id : Option (List ℕ)

-- A decision, a `ContentSafetyError`, a cancellation, or any other exception.
pub data SafetyAnswer : Type 0 where
  decided : SafetyDecision → SafetyAnswer
  unavailable cancelled failed : SafetyAnswer

-- `^[a-z0-9_.-]{1,64}$`.
abbrev is_reason_character : ℕ → Bool
is_reason_character c =
    (leb b'a' c && leb c b'z')
    || ((leb b'0' c && leb c b'9') || ((c == b'_') || ((c == b'.') || (c == b'-'))))

unfoldable pub all_reason_characters : List ℕ → Bool
all_reason_characters [] = true
all_reason_characters (c ∷ text) = is_reason_character c && all_reason_characters text

abbrev pub is_reason : List ℕ → Bool
is_reason text = leb 1 (length text) && (leb (length text) 64 && all_reason_characters text)

-- The code that the answer gives, or the default of a decision without one.
abbrev reason_of : Bool → Option Json → Option (List ℕ)
reason_of allowed none = some (if allowed then codes "ok" else codes "policy_disallowed")
reason_of allowed (some (str text)) = some text
reason_of allowed (some _) = none

-- The id of the decision: missing or null, a text, or something else.
unfoldable pub decision_of : Option Json → Option (Option (List ℕ))
decision_of none = some none
decision_of (some null) = some none
decision_of (some (str text)) = if leb (length text) 128 then some (some text) else none
decision_of (some _) = none

unfoldable pub decide_with : Bool → Option (List ℕ) → Option (Option (List ℕ)) → SafetyAnswer
decide_with allowed (some reason) (some decision) =
    if is_reason reason
    then SafetyAnswer.decided
        (record { allowed = allowed; reason_code = reason; decision_id = decision })
    else SafetyAnswer.unavailable
decide_with allowed none decision = SafetyAnswer.unavailable
decide_with allowed (some reason) none = SafetyAnswer.unavailable

unfoldable pub read_fields : Fields → Option Json → SafetyAnswer
read_fields fields (some (bool allowed)) =
    decide_with allowed (reason_of allowed (get (codes "reason_code") fields))
      (decision_of (get (codes "decision_id") fields))
read_fields fields _ = SafetyAnswer.unavailable

-- The decoded answer of the service.
unfoldable pub read_decision : Option Json → SafetyAnswer
read_decision (some (dict fields)) = read_fields fields (get (codes "allowed") fields)
read_decision _ = SafetyAnswer.unavailable

-- `except (httpx.HTTPError, OSError)`.
abbrev pub lost_answer : Interrupt → SafetyAnswer
lost_answer Interrupt.cancelled = SafetyAnswer.cancelled
lost_answer Interrupt.other = SafetyAnswer.failed
lost_answer _ = SafetyAnswer.unavailable

-- json.loads, which gives `none` where it raises, is a parameter.
module _ (loads : List ℕ → Option Json) where
  unfoldable pub collect : List ℕ → List (List ℕ) → Option Interrupt → SafetyAnswer
  collect content [] none = read_decision (loads content)
  collect content [] (some i) = lost_answer i
  collect content (chunk ∷ chunks) i = elim (ltb 65_536 (length content + length chunk)) [
    | true ↦ SafetyAnswer.unavailable
    | false ↦ collect (content ++ chunk) chunks i
  ]

  unfoldable pub receive_decision : Exchange → SafetyAnswer
  receive_decision (lost i) = lost_answer i
  receive_decision (response status chunks i) =
      if status == 200 then collect [] chunks i else SafetyAnswer.unavailable

  -- `check`: the kind is a constructor, and `content_bytes` the content as json.dumps writes it, with
  -- `none` where it raises.
  unfoldable pub check : ℕ → List ℕ → Option (List ℕ) → Exchange → SafetyAnswer
  check max_content_bytes model none exchange = SafetyAnswer.unavailable
  check max_content_bytes model (some content_bytes) exchange =
      if (leb 1 (length model) && leb (length model) 120)
        && leb (length content_bytes) max_content_bytes
      then receive_decision exchange
      else SafetyAnswer.unavailable
