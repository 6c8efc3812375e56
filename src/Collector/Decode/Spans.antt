-- ===== src/Collector/Decode/Spans.antt =====
-- decodeSpan and DecodeSpans of internal/collector/decode.go.
use Prim.Native.String.{◌++◌ as string_append}
use tracewell.Prelude.{ℕ, zero, suc, ◌/◌, ◌%◌, String, List, [], ◌∷◌, ◌++◌, map, Option, none, some}
use tracewell.Value.{Value, Fields, end, field, lookup}
use tracewell.Trace.{Event, Span, span_kind_from_attribute}
use tracewell.Attrs.Unflatten.{Kv, load_json_strings, unflatten}
use tracewell.Semconv.Extract.{MimeType, text, json, Extracted}
use tracewell.Semconv.Extract as Extract
use tracewell.Semconv.Merge.{merge}
use tracewell.Collector.Batcher.{SpanWithProject}
use tracewell.Collector.Decode.{
  KeyValues, ProtoStatus, decode_attributes, project_name, unix_nano, decode_status,
}

-- What the code reads of the messages of an export request.
pub record ProtoEvent : Type 0 where
  pub name : String
  pub time_unix_nano : ℕ
  pub attributes : KeyValues

pub record ProtoSpan : Type 0 where
  pub name : String
  pub trace_id : List ℕ
  pub span_id : List ℕ
  pub parent_span_id : List ℕ
  pub start_time_unix_nano : ℕ
  pub end_time_unix_nano : ℕ
  pub attributes : KeyValues
  pub status_code : ProtoStatus
  pub status_message : String
  pub events : List ProtoEvent

pub record ResourceSpans : Type 0 where
  pub attributes : KeyValues
  pub scope_spans : List (List ProtoSpan)

abbrev hex_texts : List String
hex_texts =
    "0" ∷ "1" ∷ "2" ∷ "3" ∷ "4" ∷ "5" ∷ "6" ∷ "7" ∷ "8" ∷ "9" ∷ "a" ∷ "b" ∷ "c" ∷ "d" ∷ "e" ∷ "f"
    ∷ []

hex_text : ℕ → List String → String
hex_text n [] = ""
hex_text zero (t ∷ ts) = t
hex_text (suc n) (t ∷ ts) = hex_text n ts

-- hex.EncodeToString
unfoldable pub encode_hex : List ℕ → String
unfolding hex_text
encode_hex [] = ""
encode_hex (b ∷ bs) =
    string_append (hex_text (b / 16) hex_texts)
      (string_append (hex_text (b % 16) hex_texts) (encode_hex bs))

-- the pairs of the flat map, in the order of the association list
unfoldable pub pairs_of : Fields → List Kv
pairs_of end = []
pairs_of (field k v m) = record { key = k; value = v } ∷ pairs_of m

-- string(mimeType)
abbrev pub mime_text : MimeType → String
mime_text text = "text/plain"
mime_text json = "application/json"

io_value : Option Extract.IoValue → Option tracewell.Trace.IoValue
io_value none = none
io_value (some io) = some (record { value = io.value; mime_type = mime_text io.mime_type })

token_usage_of : Option Extract.TokenUsage → Option tracewell.Trace.TokenUsage
token_usage_of none = none
token_usage_of (some u) = some (record {
  prompt = u.prompt;
  completion = u.completion;
  total = u.total;
  cache_read = u.cache_read;
  cache_write = u.cache_write;
})

decode_event : ProtoEvent → Event
decode_event e = record {
  name = e.name;
  timestamp = unix_nano e.time_unix_nano;
  attributes = decode_attributes e.attributes;
}

module _ (o : Extract.Outside) (unmarshal : String → Option Value) where
  -- decodeSpan, with applyExtracted, from the flat and the nested attributes on
  unfoldable pub span_of : ProtoSpan → Fields → Fields → Extracted → Span
  unfolding io_value token_usage_of decode_event
  span_of s flat nested ex = record {
    name = s.name;
    trace_id = encode_hex s.trace_id;
    span_id = encode_hex s.span_id;
    parent_id = encode_hex s.parent_span_id;
    start_time = unix_nano s.start_time_unix_nano;
    end_time = unix_nano s.end_time_unix_nano;
    attributes = nested;
    span_kind = span_kind_from_attribute (lookup "openinference.span.kind" flat);
    status_code = decode_status s.status_code;
    status_message = s.status_message;
    events = map decode_event s.events;
    input = io_value ex.input;
    output = io_value ex.output;
    token_usage = token_usage_of ex.token_usage;
    model_name = ex.model_name;
    session_id = ex.session_id;
    user_id = ex.user_id;
    invocation_params = ex.invocation_params;
  }

  -- decodeSpan
  unfoldable pub decode_span : ProtoSpan → Span
  unfolding span_of
  decode_span s =
      let flat = decode_attributes s.attributes in
      let nested = unflatten (load_json_strings unmarshal (pairs_of flat)) in
      span_of s flat nested (merge o nested flat)

  unfoldable pub tagged : String → ProtoSpan → SpanWithProject
  tagged project s = record { project = project; span = decode_span s }

  -- the two inner loops of DecodeSpans, on the spans so far
  unfoldable pub append_scopes :
      String → List (List ProtoSpan) → List SpanWithProject → List SpanWithProject
  append_scopes project [] out = out
  append_scopes project (spans ∷ scopes) out =
      append_scopes project scopes (out ++ map (tagged project) spans)

  unfoldable pub append_resources : List ResourceSpans → List SpanWithProject → List SpanWithProject
  append_resources [] out = out
  append_resources (r ∷ rs) out =
      append_resources rs (append_scopes (project_name r.attributes) r.scope_spans out)

  -- DecodeSpans
  unfoldable pub decode_spans : List ResourceSpans → List SpanWithProject
  unfolding append_resources
  decode_spans rs = append_resources rs []
