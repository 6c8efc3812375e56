-- ===== src/Api/Examples.antt =====
-- The read API's theorems at concrete tables.
use tracewell.Prelude.{
  ℕ, pos, String, [], ◌∷◌, none, some, ◌≡◌, refl, arith, codes, List, In, inl, inr, ◌≢◌, ap, sym,
  ◌∙◌, eq_iff, str_eq, true,
}
use tracewell.Strconv.{parse_int, parse_nat, format_int, digits}
use tracewell.Store.Tables.{ProjectRow, TraceRow, SpanRow}
use tracewell.Store.Int64.{int64, value}
use tracewell.Store.Totals.{no_totals}
use tracewell.Api.Cursor.{encode_trace_cursor, decode_trace_cursor, cursor, decode-encode}
use tracewell.Api.Page.{order_desc, from_cursor, scan_rows, scan_page, list_page}
use tracewell.Api.Repeats.{last?, head?}
use tracewell.Api.Queries.{
  Project, ParseTime, scan_project, list_projects, SpanFilter, any_parent, Span, scan_span,
  matching_spans, trace_of, list_spans,
}
use tracewell.Api.FindProject.{
  found, not_found, find_by_identifier, find_by_identifier-id, find_by_identifier-name,
  find_by_identifier_shadowed,
}
use mathlib.Core.List.{Perm}
use tracewell.Prelude.Tests.{codes_ltb}
use tracewell.Prelude.{map}
use tracewell.Value.{end}
use tracewell.Api.Traces.Sql.{order_by}
use tracewell.Api.Traces.Order.{IsSorted}
use tracewell.Api.TraceSpans.{
  Json, FullSpan, unmarshal_object, unmarshal_array, all_space, scan_full_span, spans_of_trace,
  starts_before, list_trace_spans,
}
use tracewell.Api.TraceSpans.Listing.{only_trace, earlier, list_trace_spans_lem}
use tracewell.Api.Overlap.{list_projects_repeats, list_spans_repeats}

decode-encode_example :
    decode_trace_cursor
      (encode_trace_cursor (record { sort_value = codes "T10:00:00Z"; row_id = pos 42 }))
    ≡ cursor (codes "T10:00:00Z") (pos 42)
decode-encode_example =
    decode-encode (record { sort_value = codes "T10:00:00Z"; row_id = pos 42 }) (omega arith)

abbrev any_time : ParseTime
any_time t = some (pos 0)

abbrev project : ℕ → ProjectRow
project n = record { id = n; name = "p"; created_at = "t"; updated_at = "t" }

abbrev read : ℕ → Project
read n = record { id = n; name = "p"; created_at = pos 0; updated_at = pos 0 }

list_projects_repeats_example : head? (read 2 ∷ []) ≡ some (read 2)
unfolding list_projects scan_project list_page scan_page scan_rows order_desc from_cursor last?
list_projects_repeats_example =
    list_projects_repeats any_time (pos 0) (project 1 ∷ project 2 ∷ [])
      ((omega arith, tt), (tt, tt)) 0 0 (read 2 ∷ []) (read 2 ∷ []) 1 1 (read 2) refl refl
      (omega arith) refl

abbrev all_spans : SpanFilter
all_spans = record {
  trace_ids = [];
  span_ids = [];
  parent_id = any_parent;
  names = [];
  span_kinds = [];
  status_codes = [];
}

abbrev trace : TraceRow
trace = record {
  id = 1;
  project_rowid = 1;
  trace_id = "t";
  session_id = none;
  start_time = "a";
  end_time = "b";
}

abbrev span : ℕ → String → SpanRow
span n name = record {
  id = n;
  trace_rowid = 1;
  span_id = name;
  parent_id = none;
  name = name;
  span_kind = "LLM";
  start_time = "a";
  end_time = "b";
  attributes = "{}";
  events = "null";
  status_code = "OK";
  status_message = "";
  cumulative = no_totals;
  llm_tokens_prompt = none;
  llm_tokens_completion = none;
}

abbrev seen : ℕ → String → Span
seen n name = record {
  id = n;
  trace_id = "t";
  span_id = name;
  parent_id = none;
  name = name;
  span_kind = "LLM";
  start_time = "a";
  end_time = "b";
  status_code = "OK";
  status_message = "";
  cum_error = pos 0;
  cum_tok_p = pos 0;
  cum_tok_c = pos 0;
  self_tok_p = none;
  self_tok_c = none;
}

list_spans_repeats_example :
    (p : Span) × (last? (seen 2 "y" ∷ []) ≡ some p) × (head? (seen 2 "y" ∷ []) ≡ some p)
unfolding list_spans matching_spans trace_of scan_span list_page scan_page scan_rows order_desc
    from_cursor value int64
list_spans_repeats_example =
    list_spans_repeats 1 all_spans (trace ∷ []) (span 1 "x" ∷ span 2 "y" ∷ [])
      ((omega arith, tt), (tt, tt)) 0 0 2 2 (seen 2 "y" ∷ []) (seen 2 "y" ∷ []) refl (omega arith)
      refl

abbrev named : ℕ → String → ProjectRow
named n name = record { id = n; name = name; created_at = "t"; updated_at = "t" }

abbrev projects : List ProjectRow
projects = named 1 "default" ∷ named 2 "7" ∷ []

abbrev read_named : ℕ → String → Project
read_named n name = record { id = n; name = name; created_at = pos 0; updated_at = pos 0 }

find_by_identifier-id_example :
    find_by_identifier any_time (pos 0) "2" projects ≡ found (read_named 2 "7")
unfolding scan_project format_int digits
find_by_identifier-id_example =
    find_by_identifier-id any_time (pos 0) "2" (named 2 "7") (read_named 2 "7") projects
      ((omega arith, tt), (tt, tt)) (inr (inl refl)) refl (omega arith) refl

only_default : (q : ProjectRow) → In q projects → q.name ≡ "default" → q ≡ named 1 "default"
only_default q (inl e) h = e
only_default q (inr (inl e)) h =
    let same : "7" ≡ "default" = ap (λ (r : ProjectRow). r.name) (sym e) ∙ h in
    let clash : str_eq "7" "default" ≡ true = (eq_iff "7" "default").1 same in
    absurd (ground (arith, clash))
only_default q (inr (inr i)) h = absurd i

find_by_identifier-name_example :
    find_by_identifier any_time (pos 0) "default" projects ≡ found (read_named 1 "default")
unfolding scan_project parse_int parse_nat
find_by_identifier-name_example =
    find_by_identifier-name any_time (pos 0) (named 1 "default") (read_named 1 "default") projects
      only_default (inl refl) refl refl

no_seven : (r : ProjectRow) → In r projects → r.id ≢ 7
no_seven r (inl e) h = ground (arith, e, h)
no_seven r (inr (inl e)) h = ground (arith, e, h)
no_seven r (inr (inr i)) h = absurd i

-- the project named "7" is not found by its name
find_by_identifier_shadowed_example : find_by_identifier any_time (pos 0) "7" projects ≡ not_found
unfolding format_int digits
find_by_identifier_shadowed_example =
    find_by_identifier_shadowed any_time (pos 0) "7" 7 projects refl (omega arith) no_seven

abbrev full : ℕ → String → FullSpan
full n name = record { span = seen n name; attributes = some end; events = [] }

abbrev plain_json : Json
plain_json = record { unmarshal_map = λ s. some (some end); unmarshal_maps = λ s. some [] }

list_trace_spans_lem_example :
    IsSorted earlier (full 1 "x" ∷ full 2 "y" ∷ [])
    × Perm (map (λ v. some v.span) (full 1 "x" ∷ full 2 "y" ∷ [])) (
        map scan_span
          (matching_spans 1 (only_trace "t") (trace ∷ []) (span 2 "y" ∷ span 1 "x" ∷ [])))
unfolding list_trace_spans spans_of_trace trace_of order_by starts_before scan_rows scan_full_span
    scan_span unmarshal_object unmarshal_array all_space codes_ltb value int64
list_trace_spans_lem_example =
    list_trace_spans_lem plain_json 1 "t" (trace ∷ []) (span 2 "y" ∷ span 1 "x" ∷ [])
      (full 1 "x" ∷ full 2 "y" ∷ []) ((omega arith, tt), (tt, tt)) refl
