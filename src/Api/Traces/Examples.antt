-- ===== src/Api/Traces/Examples.antt =====
-- The theorems of the trace list at concrete tables.
use tracewell.Prelude.{
  ℕ, ◌<◌, ◌^◌, ℤ, pos, String, false, List, [], ◌∷◌, none, some, codes, ltb, ◌≡◌, refl, arith, In,
  inl, inr,
}
use tracewell.Prelude.Tests.{codes_ltb}
use tracewell.Strconv.{parse_int, parse_nat, parse_digits, format_int, digits}
use tracewell.Store.Tables.{TraceRow}
use tracewell.Api.Cursor.{encode_trace_cursor, decode_trace_cursor, split_last}
use tracewell.Api.Page.{scan_rows, scan_page, page_of}
use tracewell.Api.Repeats.{last?}
use tracewell.Api.Traces.Sql.{
  key_lt, sql_lt, sql_eq, int_lt, row_lt, order_lt, is_null, keep, order_by,
}
use tracewell.Api.Traces.{
  Outside, Trace, TraceFilter, page, scan_trace, scanned, has_error_span, trace_cursor, finish_page,
  fill_token_counts, token_sums, fill_one, sort_expr, row_key, trace_matches, past, sorted_rows,
  trace_rows, list_from, list_decoded, list_traces,
}
use tracewell.Api.Traces.Follows.{list_traces_follows}
use tracewell.Api.Traces.Latency.{list_traces_latency}

abbrev o : Outside
o = record {
  parse_time = λ t. some (pos 0);
  format_time = λ t. codes "a";
  format_float = λ x. codes "5";
  latency = λ s t. some 5;
  reals = ltb;
}

abbrev row : ℕ → TraceRow
row n = record {
  id = n;
  project_rowid = 1;
  trace_id = "t";
  session_id = none;
  start_time = "a";
  end_time = "b";
}

abbrev read : ℕ → Trace
read n = record {
  id = n;
  trace_id = "t";
  session_id = none;
  start_time = pos 0;
  end_time = pos 0;
  latency_ms = 5;
  token_prompt = pos 0;
  token_completion = pos 0;
  token_total = pos 0;
  has_error = false;
}

abbrev filter : String → TraceFilter
filter sort = record {
  start_time = none;
  end_time = none;
  sort = sort;
  order = "asc";
  has_error = none;
  limit = 1;
  cursor = [];
}

abbrev rows : List TraceRow
rows = row 1 ∷ row 2 ∷ row 3 ∷ []

small : (t : TraceRow) → In t rows → t.id < 2 ^ 63
small t (inl e) = rw e (omega arith)
small t (inr (inl e)) = rw e (omega arith)
small t (inr (inr (inl e))) = rw e (omega arith)
small t (inr (inr (inr i))) = absurd i

stored :
    (t : TraceRow)
    → In t rows
    → (z : ℤ) → o.parse_time t.start_time ≡ some z
    → o.format_time z ≡ codes t.start_time
stored t (inl e) z h = rw e refl
stored t (inr (inl e)) z h = rw e refl
stored t (inr (inr (inl e))) z h = rw e refl
stored t (inr (inr (inr i))) z h = absurd i

list_traces_follows_example :
    list_traces o 1 (record (filter "") { limit = 2; cursor = [] }) rows []
    ≡ page (read 1 ∷ read 2 ∷ []) (codes "a:2")
unfolding list_traces list_decoded list_from trace_rows sorted_rows trace_matches past row_key
    sort_expr keep order_by row_lt key_lt order_lt is_null sql_lt sql_eq int_lt scan_page scan_rows
    page_of scan_trace scanned has_error_span finish_page trace_cursor fill_token_counts token_sums
    fill_one last? encode_trace_cursor format_int digits decode_trace_cursor split_last parse_int
    parse_nat parse_digits codes_ltb
list_traces_follows_example =
    list_traces_follows o 1 (filter "") rows [] 1 0 [] (read 1 ∷ []) (read 2 ∷ []) (codes "a:1")
      (codes "a:2") refl ((omega arith, (omega arith, tt)), ((omega arith, tt), (tt, tt))) small
      stored refl (λ e. absurd (ground arith)) refl

list_traces_latency_example :
    list_traces o 1 (record (filter "latency_ms") { cursor = codes "5:1" }) rows [] ≡ page [] []
unfolding decode_trace_cursor split_last parse_int parse_nat parse_digits
list_traces_latency_example =
    list_traces_latency o 1 (filter "latency_ms") rows [] (codes "5:1") (codes "5") (pos 1) refl
      (λ t i e. absurd (ground arith)) (λ e. absurd (ground arith)) refl
