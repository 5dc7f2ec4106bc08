-- ===== src/Gateway/Payload.antt =====
-- What `chat_completions` of app/__init__.py reads of its call and its configuration, and the checks
-- and payloads that it makes of them.
use kunlun_model_gateway.Base.{
  ℕ, Bool, true, false, ◌&&◌, ◌||◌, Option, none, some, List, [], ◌∷◌, leb, ◌==◌, length,
  if◌then◌else◌,
}
use kunlun_model_gateway.Base.Int.{pos}
use kunlun_model_gateway.Json.{Json, Fields, dict, bool, int, field, end, codes}
use kunlun_model_gateway.Json.Edit.{assign, pop}
use kunlun_model_gateway.Providers.{Client, supports_model}
use kunlun_model_gateway.Access.{Principal}
use kunlun_model_gateway.Gateway.{SafetyCheck}

-- app/schemas.py, the fields that the handler reads, and what `model_dump(exclude_none=True)` gives
-- for the request and for its messages.
pub record ChatCompletionRequest : Type 0 where
  pub model : List ℕ
  pub max_tokens : Option ℕ
  pub max_completion_tokens : Option ℕ
  pub stream : Bool
  pub messages : Json
  pub dump : Fields

-- The configuration that the handler reads: app/config.py and `app.state`.
pub record Settings : Type 0 where
  pub default_output_tokens : ℕ
  pub max_output_tokens : ℕ
  pub content_safety_policy_version : List ℕ
  pub ordered_clients : List Client
  pub content_safety : Option SafetyCheck

pub record ChatCall : Type 0 where
  pub request : ChatCompletionRequest
  pub principal : Principal
  pub idempotency_key : Option (List ℕ)

abbrev is_alphanumeric : ℕ → Bool
is_alphanumeric c =
    (leb b'A' c && leb c b'Z') || ((leb b'a' c && leb c b'z') || (leb b'0' c && leb c b'9'))

abbrev is_key_character : ℕ → Bool
is_key_character c =
    is_alphanumeric c || ((c == b'.') || ((c == b'_') || ((c == b':') || (c == b'-'))))

unfoldable pub all_key_characters : List ℕ → Bool
all_key_characters [] = true
all_key_characters (c ∷ cs) = is_key_character c && all_key_characters cs

-- `re.fullmatch(r"[A-Za-z0-9][A-Za-z0-9._:-]{0,119}", key)`.
unfoldable pub fits_key : List ℕ → Bool
fits_key [] = false
fits_key (c ∷ cs) = is_alphanumeric c && (leb (length cs) 119 && all_key_characters cs)

abbrev pub key_fits : Option (List ℕ) → Bool
key_fits none = true
key_fits (some key) = fits_key key

-- `a or b`, where zero is false.
abbrev or_count : Option ℕ → ℕ → ℕ
or_count none other = other
or_count (some n) other = if n == 0 then other else n

unfoldable pub max_output : Settings → ChatCompletionRequest → ℕ
max_output settings q =
    or_count q.max_completion_tokens (or_count q.max_tokens settings.default_output_tokens)

unfoldable pub eligible : List ℕ → List Client → List Client
eligible model [] = []
eligible model (client ∷ clients) =
    let rest = eligible model clients in if supports_model client model then client ∷ rest else rest

abbrev pub option_text : List ℕ → Option (List ℕ)
option_text [] = none
option_text (c ∷ s) = some (c ∷ s)

abbrev pub or_empty : Option ℕ → ℕ
or_empty none = 0
or_empty (some id) = id

-- `payload.stream and app.state.content_safety is None`.
abbrev pub direct_upstream_stream : Bool → Option SafetyCheck → Bool
direct_upstream_stream stream none = stream
direct_upstream_stream stream (some check) = false

abbrev stream_options : Bool → Fields → Fields
stream_options true fields =
    assign (codes "stream_options") (dict (field (codes "include_usage") (bool true) end)) fields
stream_options false fields = pop (codes "stream_options") fields

unfoldable pub upstream_payload : ChatCompletionRequest → Bool → ℕ → Fields
upstream_payload q direct limit = stream_options direct (
    assign (codes "max_tokens") (int (pos limit)) (
      pop (codes "max_completion_tokens")
        (assign (codes "stream") (bool direct) (assign (codes "messages") q.messages q.dump))))

-- The payload without `stream` and `stream_options`.
abbrev pub billable_payload : Fields → Json
billable_payload payload = dict (pop (codes "stream_options") (pop (codes "stream") payload))
