-- ===== src/Collector/Decode/Examples.antt =====
-- A list with a repeated key and with an entry that has no value, and a request of two resources.
use tracewell.Prelude.{pos, List, [], ◌∷◌, none, some, ◌≡◌}
use tracewell.Value.{int64, lookup}
use tracewell.Collector.Decode.{
  KeyValues, no_key_values, key_value, string_value, int_value, unset_value, decode_value,
  decode_attributes,
}
use tracewell.Semconv.Extract.{Outside}
use tracewell.Collector.Decode.{status_code_ok}
use tracewell.Collector.Decode.Spans.{ProtoSpan, ResourceSpans, decode_spans}
use tracewell.Collector.Decode.Flattened.{flattened, decode_spans-flattened}
use tracewell.Collector.Decode.LastWins.{last_value, lookup-decode_attributes}

abbrev repeated : KeyValues
repeated = key_value "a" (string_value "old") (
    key_value "b" unset_value
      (key_value "a" (int_value (pos 7)) (key_value "a" unset_value no_key_values)))

lookup-decode_attributes_example : lookup "a" (decode_attributes repeated) ≡ some (int64 (pos 7))
unfolding last_value decode_value
lookup-decode_attributes_example = lookup-decode_attributes repeated "a"

abbrev no_json : Outside
no_json = record { marshal_json = λ v. none; truncate = λ x. pos x }

abbrev greeting : ProtoSpan
greeting = record {
  name = "greet";
  trace_id = 10 ∷ [];
  span_id = 255 ∷ [];
  parent_span_id = [];
  start_time_unix_nano = 1;
  end_time_unix_nano = 2;
  attributes = key_value "input.value" (string_value "hello") no_key_values;
  status_code = status_code_ok;
  status_message = "";
  events = [];
}

abbrev two_resources : List ResourceSpans
two_resources =
    record { attributes = no_key_values; scope_spans = (greeting ∷ []) ∷ (greeting ∷ []) ∷ [] }
    ∷ record {
      attributes = key_value "openinference.project.name" (string_value "mine") no_key_values;
      scope_spans = (greeting ∷ []) ∷ [];
    }
    ∷ []

decode_spans-flattened_example :
    decode_spans no_json (λ s. none) two_resources ≡ flattened no_json (λ s. none) two_resources
decode_spans-flattened_example = decode_spans-flattened no_json (λ s. none) two_resources
