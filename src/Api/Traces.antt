-- ===== src/Api/Traces.antt =====
-- ListTraces of internal/api/queries.go. A query that the driver refuses, which fails the call, is left out.
pub mod Sql
pub mod Order
pub mod Keys
pub mod Rows
pub mod Scanned
pub mod Pages
pub mod Follows
pub mod Latency
mod Examples
use tracewell.Prelude.{
  ℕ, zero, suc, ◌+◌, ℤ, pos, negsuc, String, Bool, true, false, not, ◌&&◌, ◌||◌, List, [], ◌∷◌,
  Option, none, some, str_eq, ltb, ◌==◌, codes, codes_ltb, if◌then◌else◌, take, map, ◌+ℤ◌,
}
use tracewell.Store.Tables.{TraceRow, SpanRow, or_zero}
use tracewell.Semconv.Extract.{add_int}
use tracewell.Api.Cursor.{
  TraceCursor, encode_trace_cursor, Decoded, bad_cursor, cursor, decode_trace_cursor,
}
use tracewell.Api.Page.{scan_page}
use tracewell.Api.Repeats.{last?}
use tracewell.Api.Traces.Sql.{
  SqlValue, null, real, text, Reals, Key, key_lt, row_lt, keep, order_by,
}

pub record TraceFilter : Type 0 where
  pub start_time : Option ℤ
  pub end_time : Option ℤ
  pub sort : String
  pub order : String
  pub has_error : Option Bool
  pub limit : ℕ
  pub cursor : List ℕ

pub record Trace : Type 0 where
  pub id : ℕ
  pub trace_id : String
  pub session_id : Option String
  pub start_time : ℤ
  pub end_time : ℤ
  pub latency_ms : ℕ
  pub token_prompt : ℤ
  pub token_completion : ℤ
  pub token_total : ℤ
  pub has_error : Bool

-- Code that the query relies on: time.Parse and Format with RFC3339Nano in UTC, FormatFloat, and SQLite's
-- latencyExpr on two texts, NULL where julianday does not read one. A float64 is its bit pattern.
pub record Outside : Type 0 where
  pub parse_time : String → Option ℤ
  pub format_time : ℤ → List ℕ
  pub format_float : ℕ → List ℕ
  pub latency : String → String → Option ℕ
  pub reals : Reals

-- EXISTS(SELECT 1 FROM spans s WHERE s.trace_rowid = t.id AND s.status_code = 'ERROR')
unfoldable pub has_error_span : ℕ → List SpanRow → Bool
has_error_span id [] = false
has_error_span id (s ∷ ss) =
    (s.trace_rowid == id && str_eq s.status_code "ERROR") || has_error_span id ss

at_least : Option (List ℕ) → String → Bool
at_least none s = true
at_least (some t) s = not (codes_ltb (codes s) t)

below : Option (List ℕ) → String → Bool
below none s = true
below (some t) s = codes_ltb (codes s) t

bool_eq : Bool → Bool → Bool
bool_eq true b = b
bool_eq false b = not b

error_allowed : Option Bool → Bool → Bool
error_allowed none e = true
error_allowed (some want) e = bool_eq want e

format_arg : (ℤ → List ℕ) → Option ℤ → Option (List ℕ)
format_arg format none = none
format_arg format (some t) = some (format t)

abbrev pub is_asc : TraceFilter → Bool
is_asc f = str_eq f.order "asc"

abbrev pub by_latency : TraceFilter → Bool
by_latency f = str_eq f.sort "latency_ms"

-- SUM over the LLM spans of one trace: none where the GROUP BY has no group
add_tokens : SpanRow → Option (ℤ × ℤ) → Option (ℤ × ℤ)
add_tokens s none = some (or_zero s.llm_tokens_prompt, or_zero s.llm_tokens_completion)
add_tokens s (some (p, c)) =
    some (or_zero s.llm_tokens_prompt +ℤ p, or_zero s.llm_tokens_completion +ℤ c)

unfoldable pub token_sums : ℕ → List SpanRow → Option (ℤ × ℤ)
unfolding add_tokens
token_sums id [] = none
token_sums id (s ∷ ss) =
    let rest = token_sums id ss in
    if str_eq s.span_kind "LLM" && s.trace_rowid == id then add_tokens s rest else rest

unfoldable pub fill_one : Option (ℤ × ℤ) → Trace → Trace
unfolding add_int
fill_one none t = t
fill_one (some (p, c)) t = record t {
  token_prompt = p;
  token_completion = c;
  token_total = add_int p c;
}

-- fillTokenCounts
unfoldable pub fill_token_counts : List SpanRow → List Trace → List Trace
unfolding fill_one
fill_token_counts spans traces = map (λ t. fill_one (token_sums t.id spans) t) traces

-- errBadCursor, another error, or a page with the next cursor
pub data Listed : Type 0 where
  rejected failed : Listed
  page : List Trace → List ℕ → Listed

module _ (o : Outside) where
  -- sortExpr
  unfoldable pub sort_expr : Bool → TraceRow → SqlValue
  sort_expr true t = elim (o.latency t.start_time t.end_time) [ none ↦ null | some x ↦ real x ]
  sort_expr false t = text (codes t.start_time)

  unfoldable pub row_key : Bool → TraceRow → Key
  unfolding sort_expr
  row_key latency t = record { sort_value = sort_expr latency t; row_id = pos t.id }

  -- the WHERE of ListTraces, less its cursor
  unfoldable pub trace_matches : ℕ → TraceFilter → List SpanRow → TraceRow → Bool
  unfolding at_least below error_allowed format_arg bool_eq
  trace_matches project f spans t =
      t.project_rowid == project
      && (at_least (format_arg o.format_time f.start_time) t.start_time
          && (below (format_arg o.format_time f.end_time) t.start_time
              && error_allowed f.has_error (has_error_span t.id spans)))

  -- the condition on the cursor, whose sort value is bound as a text
  unfoldable pub past : Bool → Bool → Option (List ℕ × ℤ) → TraceRow → Bool
  unfolding row_key
  past latency asc none t = true
  past latency asc (some (value, row)) t =
      key_lt o.reals asc (record { sort_value = text value; row_id = row }) (row_key latency t)

  -- SELECT … WHERE … ORDER BY …, for one sort expression and direction
  unfoldable pub sorted_rows :
      Bool → Bool → (TraceRow → Bool) → Option (List ℕ × ℤ) → List TraceRow → List TraceRow
  unfolding past
  sorted_rows latency asc matches k traces =
      keep (λ t. matches t && past latency asc k t)
        (order_by (λ s t. row_lt o.reals asc (row_key latency s) (row_key latency t)) traces)

  -- the rows of the query, without its LIMIT
  unfoldable pub trace_rows :
      ℕ → TraceFilter → Option (List ℕ × ℤ) → List TraceRow → List SpanRow → List TraceRow
  trace_rows project f k traces spans =
      sorted_rows (by_latency f) (is_asc f) (trace_matches project f spans) k traces

  unfoldable pub scanned : TraceRow → Bool → Option ℕ → Option ℤ → Option ℤ → Option Trace
  scanned t e (some x) (some start) (some finish) = some (record {
    id = t.id;
    trace_id = t.trace_id;
    session_id = t.session_id;
    start_time = start;
    end_time = finish;
    latency_ms = x;
    token_prompt = pos 0;
    token_completion = pos 0;
    token_total = pos 0;
    has_error = e;
  })
  scanned t e _ _ _ = none

  -- the scan function of ListTraces; a NULL latency does not scan into a float64
  unfoldable pub scan_trace : List SpanRow → TraceRow → Option Trace
  unfolding scanned
  scan_trace spans t =
      scanned t (has_error_span t.id spans) (o.latency t.start_time t.end_time)
        (o.parse_time t.start_time) (o.parse_time t.end_time)

  unfoldable pub trace_cursor : Bool → Option Trace → List ℕ
  trace_cursor latency none = []
  trace_cursor latency (some t) = encode_trace_cursor (record {
    sort_value = if latency then o.format_float t.latency_ms else o.format_time t.start_time;
    row_id = pos t.id;
  })

  -- from the scanned page on, with traces[len(traces)-1] for the cursor
  unfoldable pub finish_page : Bool → List SpanRow → Option (List Trace × ℕ) → Listed
  unfolding trace_cursor last?
  finish_page latency spans none = failed
  finish_page latency spans (some (traces, zero)) = page (fill_token_counts spans traces) []
  finish_page latency spans (some (traces, suc n)) =
      page (fill_token_counts spans traces)
        (trace_cursor latency (last? (fill_token_counts spans traces)))

  unfoldable pub list_from :
      ℕ → TraceFilter → List TraceRow → List SpanRow → Option (List ℕ × ℤ) → Listed
  unfolding finish_page trace_rows
  list_from project f traces spans k = finish_page (by_latency f) spans (
      scan_page (scan_trace spans) f.limit
        (take (f.limit + 1) (trace_rows project f k traces spans)))

  -- with the cursor decoded
  unfoldable pub list_decoded : ℕ → TraceFilter → List TraceRow → List SpanRow → Decoded → Listed
  list_decoded project f traces spans bad_cursor = rejected
  list_decoded project f traces spans (cursor value row) =
      list_from project f traces spans (some (value, row))

  -- ListTraces
  unfoldable pub list_traces : ℕ → TraceFilter → List TraceRow → List SpanRow → Listed
  list_traces project f traces spans = elim f.cursor [
    | [] ↦ list_from project f traces spans none
    | c ∷ cs ↦ list_decoded project f traces spans (decode_trace_cursor (c ∷ cs))
  ]
