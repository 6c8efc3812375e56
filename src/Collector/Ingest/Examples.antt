-- ===== src/Collector/Ingest/Examples.antt =====
-- An upload to a batcher with nothing in it.
use tracewell.Prelude.{ℕ, String, List, [], ◌∷◌, ◌++◌, some, ◌≡◌, refl, arith}
use tracewell.Store.Session.{Session}
use tracewell.Store.Columns.{null_string}
use tracewell.Store.Correct.{Fits}
use tracewell.Store.Sound.{IsSound}
use tracewell.Store.Examples.{plain, plain-FreshRowids}
use tracewell.Collector.Decode.Spans.{
  decode_spans, decode_span, append_resources, append_scopes, tagged, encode_hex, span_of,
}
use tracewell.Collector.Batcher.{
  SpanWithProject, Batcher, new_batcher, accepted, close, flush, Runs,
}
use tracewell.Collector.Batcher.Drain.{finished}
use tracewell.Collector.Handler.{decode_body, read_opened, read_body, copy_limited, check_size}
use tracewell.Collector.Handler.Outcomes.{Uploads}
use tracewell.Collector.Handler.Examples.{wire, upload, resources_of, greeting}
use tracewell.Collector.Ingest.{ingest, ingest-stored}

abbrev nothing_stored : Session
nothing_stored = record {
  db = record { projects = []; traces = []; spans = [] };
  cache = [];
  faults = [];
}

abbrev idle : Batcher
idle = new_batcher nothing_stored

abbrev uploaded : List SpanWithProject
uploaded = decode_spans wire.semconv wire.unmarshal_json (resources_of (7 ∷ []))

upload-Uploads : Uploads wire upload uploaded
unfolding decode_body read_opened read_body copy_limited check_size
upload-Uploads = record {
  body = 7 ∷ [];
  resources = resources_of (7 ∷ []);
  posted = refl;
  typed = refl;
  readable = refl;
  unmarshalled = refl;
  decodes = refl;
}

abbrev no_rank : String → ℕ
no_rank s = 0

greeting-Fits : Fits no_rank 1 (decode_span wire.semconv wire.unmarshal_json greeting)
unfolding null_string decode_span span_of encode_hex
greeting-Fits = record { below = λ p h. absurd (ground (arith, h)); within = omega arith }

empty-IsSound : IsSound no_rank []
empty-IsSound = record { keyed = tt; consistent = λ r i. absurd i; ranked = λ r i. absurd i }

ingest-stored_example :
    (b' : Batcher) × (s : Session) × ((ingest wire upload idle).1 ≡ accepted b')
    × Runs plain 1 "t" idle b' uploaded
    × (flush plain 1 "t" ([] ++ ([] ++ uploaded)) nothing_stored ≡ some s)
    × Runs plain 1 "t" (close b') (finished (close b') s) []
    × IsSound no_rank s.db.spans
unfolding decode_spans append_resources append_scopes tagged
ingest-stored_example =
    ingest-stored plain 1 "t" no_rank wire upload uploaded idle upload-Uploads refl refl
      (omega arith) plain-FreshRowids (greeting-Fits, tt) empty-IsSound
