-- ===== src/Tests/Stream.antt =====
-- app/streaming.py, run on a stream that is cut inside a line. Every event is read as one usage.
use kunlun_model_gateway.Base.{ℕ, ◌≡◌, refl, false, Option, some, List, ◌∷◌, ◌++◌}
use kunlun_model_gateway.Base.Int.{pos}
use kunlun_model_gateway.Base.Result.{ok, guard, ◌>>=◌}
use kunlun_model_gateway.Json.{Json, codes, dict, end, field, get, int}
use kunlun_model_gateway.Billing.Settle.{usage_from_response, get_either}
use kunlun_model_gateway.Streaming.{
  SseUsageTracker, after_prefix, drain, feed, has_newline, lstrip, new_tracker, parse_found,
  parse_line, read_choices, read_data, read_event, read_usage, rstrip, settlement_response, strip,
}
use kunlun_model_gateway.Streaming.Chunks.{feed-append}
use kunlun_model_gateway.Streaming.Usage.{usage_from_response-settlement_response}

abbrev loads : List ℕ → Option Json
loads body = some (
    dict (
      field (codes "usage")
        (dict (
          field (codes "prompt_tokens") (int (pos 7))
            (field (codes "completion_tokens") (int (pos 3)) end)))
        end))

abbrev first : List ℕ
first = codes "data: {"

abbrev second : List ℕ
second = codes "}" ++ (10 ∷ codes "data: [DO")

abbrev halfway : SseUsageTracker
halfway = record (new_tracker 1_000) { total_bytes = 7; buffer = first }

abbrev later : SseUsageTracker
later = record {
  max_bytes = 1_000;
  total_bytes = 18;
  counters = record {
    output_characters = 0;
    prompt_tokens = some 7;
    completion_tokens = some 3;
    done = false;
  };
  buffer = codes "data: [DO";
}

first_runs : feed loads first (new_tracker 1_000) ≡ ok halfway
unfolding feed drain has_newline guard ◌>>=◌
first_runs = refl

second_runs : feed loads second halfway ≡ ok later
unfolding feed drain has_newline parse_line parse_found read_data read_event read_usage read_choices
    after_prefix strip lstrip rstrip get_either get guard ◌>>=◌
second_runs = refl

feed-append_example : feed loads (first ++ second) (new_tracker 1_000) ≡ ok later
unfolding has_newline
feed-append_example =
    feed-append loads first second (new_tracker 1_000) halfway later refl first_runs second_runs

usage_from_response-settlement_response_example :
    usage_from_response (settlement_response (codes "test-model") 5 later).0 5 ≡ (7, 3, false)
usage_from_response-settlement_response_example =
    usage_from_response-settlement_response (codes "test-model") 5 5 later
