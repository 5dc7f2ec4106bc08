-- ===== src/Streaming.antt =====
-- `SSEUsageTracker` of app/streaming.py: it counts the usage in a stream of server-sent events, chunk
-- by chunk. A byte is a number. `json.loads` is the parameter `loads`, which is `none` where it
-- raises.
pub mod Chunks
pub mod Usage
use kunlun_model_gateway.Base.{
  ℕ, suc, ◌+◌, Bool, true, false, not, ◌&&◌, ◌||◌, Option, none, some, List, [], ◌∷◌, ◌++◌, ltb,
  ◌==◌, length, is_some, if◌then◌else◌,
}
use kunlun_model_gateway.Base.Int.{pos}
use kunlun_model_gateway.Base.Result.{
  Result, ok, err, guard, ◌>>=◌, ◌>>◌, stream_too_large, stream_line_too_large, stream_invalid_json,
  stream_invalid_event,
}
use kunlun_model_gateway.Json.{
  Json, Items, Fields, dict, list, str, int, nil, cons, end, field, codes, get, as_dict, as_list,
  as_count, as_str,
}
use kunlun_model_gateway.Models.{same_text}
use kunlun_model_gateway.Pricing.{ceil_div}
use kunlun_model_gateway.Billing.Settle.{get_either}

-- What has been counted.
pub record Counters : Type 0 where
  pub output_characters : ℕ
  pub prompt_tokens : Option ℕ
  pub completion_tokens : Option ℕ
  pub done : Bool

pub record SseUsageTracker : Type 0 where
  pub max_bytes : ℕ
  pub total_bytes : ℕ
  pub counters : Counters
  pub buffer : List ℕ

abbrev pub new_tracker : ℕ → SseUsageTracker
new_tracker max_bytes = record {
  max_bytes = max_bytes;
  total_bytes = 0;
  counters = record {
    output_characters = 0;
    prompt_tokens = none;
    completion_tokens = none;
    done = false;
  };
  buffer = [];
}

-- The bytes that `strip` removes.
abbrev is_space : ℕ → Bool
is_space c = (c == 32) || (not (ltb c 9) && ltb c 14)

unfoldable pub lstrip : List ℕ → List ℕ
lstrip [] = []
lstrip (c ∷ cs) = elim (is_space c) [ true ↦ lstrip cs | false ↦ c ∷ cs ]

unfoldable pub rstrip : (ℕ → Bool) → List ℕ → List ℕ
rstrip p [] = []
rstrip p (c ∷ cs) = elim (rstrip p cs) [ [] ↦ if p c then [] else c ∷ [] | d ∷ ds ↦ c ∷ (d ∷ ds) ]

abbrev pub is_return : ℕ → Bool
is_return c = c == 13

unfoldable pub strip : List ℕ → List ℕ
strip cs = rstrip is_space (lstrip cs)

-- `line[len(prefix):]` where `line.startswith(prefix)`.
unfoldable pub after_prefix : List ℕ → List ℕ → Option (List ℕ)
after_prefix [] line = some line
after_prefix (p ∷ ps) [] = none
after_prefix (p ∷ ps) (c ∷ cs) = elim (p == c) [ true ↦ after_prefix ps cs | false ↦ none ]

abbrev or_old : Option ℕ → Option ℕ → Option ℕ
or_old none old = old
or_old (some n) old = some n

-- `usage` where it is a dict.
unfoldable pub read_usage : Option Fields → Counters → Counters
read_usage none u = u
read_usage (some usage) u = record u {
  prompt_tokens =
      or_old (as_count (get_either (codes "prompt_tokens") (codes "input_tokens") usage))
        u.prompt_tokens;
  completion_tokens =
      or_old (as_count (get_either (codes "completion_tokens") (codes "output_tokens") usage))
        u.completion_tokens;
}

abbrev text_length : Option (List ℕ) → ℕ
text_length none = 0
text_length (some s) = length s

-- `value.get(key)` where `value` is a dict.
abbrev get_in : List ℕ → Option Fields → Option Json
get_in key none = none
get_in key (some fs) = get key fs

abbrev arguments_length : Json → ℕ
arguments_length call = text_length (
    as_str (get_in (codes "arguments") (as_dict (get_in (codes "function") (as_dict (some call))))))

unfoldable pub tool_calls_length : Items → ℕ
tool_calls_length nil = 0
tool_calls_length (cons call calls) = arguments_length call + tool_calls_length calls

abbrev items_length : Option Items → ℕ
items_length none = 0
items_length (some calls) = tool_calls_length calls

unfoldable pub delta_length : Option Fields → ℕ
delta_length none = 0
delta_length (some delta) =
    text_length (as_str (get (codes "content") delta))
    + items_length (as_list (get (codes "tool_calls") delta))

unfoldable pub choices_length : Items → ℕ
choices_length nil = 0
choices_length (cons choice choices) =
    delta_length (as_dict (get_in (codes "delta") (as_dict (some choice)))) + choices_length choices

unfoldable pub read_choices : Option Items → Counters → Counters
read_choices none u = u
read_choices (some choices) u = record u {
  output_characters = u.output_characters + choices_length choices;
}

unfoldable pub read_event : Option Json → Counters → Result Counters
read_event none u = err stream_invalid_json
read_event (some (dict event)) u = ok (
    read_choices (as_list (get (codes "choices") event))
      (read_usage (as_dict (get (codes "usage") event)) u))
read_event (some other) u = err stream_invalid_event

abbrev is_empty : List ℕ → Bool
is_empty [] = true
is_empty (c ∷ cs) = false

unfoldable pub has_newline : List ℕ → Bool
has_newline [] = false
has_newline (c ∷ cs) = (c == 10) || has_newline cs

module _ (loads : List ℕ → Option Json) where
  unfoldable pub read_data : List ℕ → Counters → Result Counters
  read_data body u =
      if same_text body (codes "[DONE]")
      then ok (record u { done = true })
      else if is_empty body
      then ok u
      else read_event (loads body) u

  unfoldable pub parse_found : Option (List ℕ) → Counters → Result Counters
  parse_found none u = ok u
  parse_found (some body) u = read_data (strip body) u

  unfoldable pub parse_line : List ℕ → Counters → Result Counters
  parse_line line u = parse_found (after_prefix (codes "data:") line) u

  -- The loop of `feed`: the first line is split off while there is one. `line` is what was read of it.
  unfoldable pub drain : List ℕ → List ℕ → Counters → Result (Counters × List ℕ)
  drain line [] u = ok (u, line)
  drain line (c ∷ cs) u = elim (c == 10) [
    | true ↦ parse_line (rstrip is_return line) u >>= drain [] cs
    | false ↦ drain (line ++ (c ∷ [])) cs u
  ]

  unfoldable pub feed : List ℕ → SseUsageTracker → Result SseUsageTracker
  feed chunk s = do
    let total = s.total_bytes + length chunk
    let buffer = s.buffer ++ chunk
    guard (not (ltb s.max_bytes total)) stream_too_large
    guard (not (ltb 1_048_576 (length buffer) && not (has_newline buffer))) stream_line_too_large
    (u, rest) ← drain [] buffer s.counters
    ok (record { max_bytes = s.max_bytes; total_bytes = total; counters = u; buffer = rest })

  unfoldable pub finish : SseUsageTracker → Result SseUsageTracker
  finish s = do
    u ←
        if is_empty (strip s.buffer)
        then ok s.counters
        else parse_line (rstrip is_return s.buffer) s.counters
    ok (record s { counters = u; buffer = [] })

abbrev or_zero : Option ℕ → ℕ → ℕ
or_zero none n = n
or_zero (some m) n = m

abbrev pub prompt_of : SseUsageTracker → ℕ → ℕ
prompt_of s fallback = or_zero s.counters.prompt_tokens fallback

abbrev pub completion_of : SseUsageTracker → ℕ
completion_of s = or_zero s.counters.completion_tokens (ceil_div s.counters.output_characters 4)

-- The response that is settled, and whether its usage is an estimate.
unfoldable pub settlement_response : List ℕ → ℕ → SseUsageTracker → Fields × Bool
settlement_response model fallback s = (
  field (codes "model") (str model) (
      field (codes "choices") (list nil) (
        field (codes "usage")
          (dict (
            field (codes "prompt_tokens") (int (pos (prompt_of s fallback))) (
              field (codes "completion_tokens") (int (pos (completion_of s))) (
                field (codes "total_tokens") (int (pos (prompt_of s fallback + completion_of s)))
                  end))))
          end)),
  not (is_some s.counters.prompt_tokens && is_some s.counters.completion_tokens),
)
