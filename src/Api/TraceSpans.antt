-- ===== src/Api/TraceSpans.antt =====
-- ListTraceSpans of internal/api/span_queries.go. Its latency column is left out, as in ListSpans.
pub mod Listing
use tracewell.Prelude.{
  ℕ, String, Bool, true, false, not, ◌&&◌, ◌||◌, List, [], ◌∷◌, Option, none, some, str_eq, codes,
  codes_ltb, ltb, leb, ◌==◌, if◌then◌else◌,
}
use tracewell.Value.{Fields, end}
use tracewell.Store.Tables.{TraceRow, SpanRow}
use tracewell.Api.Queries.{Span, SpanRead, scan_span, trace_of}
use tracewell.Api.Page.{scan_rows}
use tracewell.Api.Traces.Sql.{keep, order_by}

-- A map of Go, or nil.
abbrev pub Object : Type 0
Object = Option Fields

-- json.Unmarshal into a map[string]any and into a []map[string]any; `none` is its error.
pub record Json : Type 0 where
  pub unmarshal_map : String → Option Object
  pub unmarshal_maps : String → Option (List Object)

-- A span with its JSON columns.
pub record FullSpan : Type 0 where
  pub span : Span
  pub attributes : Object
  pub events : List Object

-- unicode.IsSpace
unfoldable pub is_unicode_space : ℕ → Bool
is_unicode_space c =
    (leb 9 c && leb c 13)
    || c == 32
    || c == 0x85
    || c == 0xA0
    || c == 0x1680
    || (leb 0x2000 c && leb c 0x200A)
    || c == 0x2028
    || c == 0x2029
    || c == 0x202F
    || c == 0x205F
    || c == 0x3000

-- strings.TrimSpace(s) == ""
unfoldable pub all_space : List ℕ → Bool
unfolding is_unicode_space
all_space [] = true
all_space (c ∷ cs) = is_unicode_space c && all_space cs

module _ (j : Json) where
  -- unmarshalObject
  unfoldable pub unmarshal_object : String → Option Object
  unmarshal_object s = if all_space (codes s) then some (some end) else j.unmarshal_map s

  -- unmarshalArray
  unfoldable pub unmarshal_array : String → Option (List Object)
  unmarshal_array s = if all_space (codes s) then some [] else j.unmarshal_maps s

  unfoldable pub with_json : Option Span → Option Object → Option (List Object) → Option FullSpan
  with_json (some s) (some a) (some e) = some (record { span = s; attributes = a; events = e })
  with_json _ _ _ = none

  -- scanSpan with withJSON
  unfoldable pub scan_full_span : SpanRead → Option FullSpan
  unfolding with_json unmarshal_object unmarshal_array
  scan_full_span r =
      with_json (scan_span r) (unmarshal_object r.row.attributes) (unmarshal_array r.row.events)

-- one row of the join, under the WHERE
unfoldable pub joined_if : ℕ → String → SpanRow → Option TraceRow → List SpanRead → List SpanRead
joined_if project trace_id s none rest = rest
joined_if project trace_id s (some t) rest =
    if t.project_rowid == project && str_eq t.trace_id trace_id
    then record { trace = t; row = s } ∷ rest
    else rest

-- FROM spans s JOIN traces t … WHERE …
unfoldable pub spans_of_trace : ℕ → String → List TraceRow → List SpanRow → List SpanRead
unfolding joined_if
spans_of_trace project trace_id ts [] = []
spans_of_trace project trace_id ts (s ∷ ss) =
    joined_if project trace_id s (trace_of s ts) (spans_of_trace project trace_id ts ss)

-- ORDER BY s.start_time ASC, s.id ASC
unfoldable pub starts_before : SpanRead → SpanRead → Bool
starts_before a b =
    codes_ltb (codes a.row.start_time) (codes b.row.start_time)
    || (not (codes_ltb (codes b.row.start_time) (codes a.row.start_time)) && ltb a.row.id b.row.id)

-- ListTraceSpans; `none` is the error of a row
unfoldable pub list_trace_spans :
    Json → ℕ → String → List TraceRow → List SpanRow → Option (List FullSpan)
list_trace_spans j project trace_id ts ss =
    scan_rows (scan_full_span j) (order_by starts_before (spans_of_trace project trace_id ts ss))
