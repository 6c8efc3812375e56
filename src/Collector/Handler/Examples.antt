-- ===== src/Collector/Handler/Examples.antt =====
-- An upload in gzip, a request that is no upload, and a body that fails.
use tracewell.Prelude.{ℕ, pos, true, List, [], ◌∷◌, none, some, codes, ◌≡◌, ◌⊎◌, ◌↔◌}
use tracewell.Collector.Decode.{no_key_values, status_code_ok}
use tracewell.Collector.Decode.Spans.{ProtoSpan, ResourceSpans, decode_spans}
use tracewell.Collector.Batcher.{SpanWithProject}
use tracewell.Collector.Handler.{
  Stream, Request, refused, no_reader, reader, Outside, content_type_proto_buf, read_body, handle,
}
use tracewell.Collector.Handler.Bodies.{read_body_lem, whole}
use tracewell.Collector.Handler.Outcomes.{Uploads, handle-status, handle_iff}

abbrev pub greeting : ProtoSpan
greeting = record {
  name = "greet";
  trace_id = 10 ∷ [];
  span_id = 255 ∷ [];
  parent_span_id = [];
  start_time_unix_nano = 1;
  end_time_unix_nano = 2;
  attributes = no_key_values;
  status_code = status_code_ok;
  status_message = "";
  events = [];
}

abbrev pub resources_of : List ℕ → List ResourceSpans
resources_of [] = []
resources_of (c ∷ cs) =
    record { attributes = no_key_values; scope_spans = (greeting ∷ []) ∷ [] } ∷ []

-- Every body is a message, and gzip adds one byte in front.
abbrev pub wire : Outside
wire = record {
  gunzip = λ s. elim s.bytes [
    | [] ↦ no_reader (codes "EOF")
    | c ∷ cs ↦ reader (record { bytes = cs; failure = s.failure })
  ];
  inflate = λ s. s;
  unmarshal_request = λ b. some (resources_of b);
  marshal_response = some [];
  semconv = record { marshal_json = λ v. none; truncate = λ x. pos x };
  unmarshal_json = λ s. none;
}

abbrev pub upload : Request
upload = record {
  method = "POST";
  content_type = content_type_proto_buf;
  content_encoding = "gzip";
  body = record { bytes = 31 ∷ 7 ∷ []; failure = none };
}

abbrev broken : Stream
broken = record { bytes = 1 ∷ 2 ∷ []; failure = some (codes "unexpected EOF") }

read_body_lem_example : read_body broken ≡ refused (codes "unexpected EOF")
unfolding whole
read_body_lem_example = read_body_lem broken

handle-status_example :
    ((s : List SpanWithProject) × ((handle wire true upload).sunk ≡ some s)
      × (((handle wire true upload).response.status ≡ 200)
          ⊎ ((handle wire true upload).response.status ≡ 500)))
    ⊎ (((handle wire true upload).sunk ≡ none)
        × (((handle wire true upload).response.status ≡ 405)
            ⊎ ((handle wire true upload).response.status ≡ 415)
            ⊎ ((handle wire true upload).response.status ≡ 422)))
handle-status_example = handle-status wire upload

handle_iff_example :
    ((handle wire true upload).sunk
      ≡ some (decode_spans wire.semconv wire.unmarshal_json (resources_of (7 ∷ []))))
    ↔ Uploads wire upload (decode_spans wire.semconv wire.unmarshal_json (resources_of (7 ∷ [])))
handle_iff_example =
    handle_iff wire upload (decode_spans wire.semconv wire.unmarshal_json (resources_of (7 ∷ [])))
