-- ===== src/Store/Tables.antt =====
-- The rows of internal/store/schema.sql, and the statements of span_insert.go that read or write
-- them, each as a function of the tables. A new row goes to the head of its table.
use tracewell.Prelude.{
  ℕ, ℤ, pos, String, Bool, false, ◌&&◌, ◌||◌, List, [], ◌∷◌, map, Option, none, some, str_eq, ◌==◌,
  if◌then◌else◌,
}
use tracewell.Store.Int64.{int64}
use tracewell.Store.Totals.{Totals, ◌⊕◌}

pub record ProjectRow : Type 0 where
  pub id : ℕ
  pub name : String
  pub created_at : String
  pub updated_at : String

pub record TraceRow : Type 0 where
  pub id : ℕ
  pub project_rowid : ℕ
  pub trace_id : String
  pub session_id : Option String
  pub start_time : String
  pub end_time : String

pub record SpanRow : Type 0 where
  pub id : ℕ
  pub trace_rowid : ℕ
  pub span_id : String
  pub parent_id : Option String
  pub name : String
  pub span_kind : String
  pub start_time : String
  pub end_time : String
  pub attributes : String
  pub events : String
  pub status_code : String
  pub status_message : String
  pub cumulative : Totals
  pub llm_tokens_prompt : Option ℤ
  pub llm_tokens_completion : Option ℤ

pub record Db : Type 0 where
  pub projects : List ProjectRow
  pub traces : List TraceRow
  pub spans : List SpanRow

-- SELECT id FROM projects WHERE name = ?
unfoldable pub find_project : String → List ProjectRow → Option ProjectRow
find_project name [] = none
find_project name (p ∷ ps) = if str_eq p.name name then some p else find_project name ps

-- SELECT id, start_time, end_time FROM traces WHERE trace_id = ?
unfoldable pub find_trace : String → List TraceRow → Option TraceRow
find_trace tid [] = none
find_trace tid (t ∷ ts) = if str_eq t.trace_id tid then some t else find_trace tid ts

-- UPDATE traces SET start_time = ? WHERE id = ?
unfoldable pub set_trace_start : ℕ → String → List TraceRow → List TraceRow
set_trace_start id time = map λ t. if t.id == id then record t { start_time = time } else t

-- UPDATE traces SET end_time = ? WHERE id = ?
unfoldable pub set_trace_end : ℕ → String → List TraceRow → List TraceRow
set_trace_end id time = map λ t. if t.id == id then record t { end_time = time } else t

-- parent_id = ?, which NULL never satisfies
unfoldable pub has_parent : String → Option String → Bool
has_parent sid none = false
has_parent sid (some p) = str_eq p sid

-- WHERE trace_rowid = ? AND parent_id = ?
unfoldable pub is_child : ℕ → String → SpanRow → Bool
unfolding has_parent
is_child t sid r = r.trace_rowid == t && has_parent sid r.parent_id

-- SUM over the rows that are there: NULL if there is none
unfoldable pub add_row : Totals → Option Totals → Option Totals
add_row a none = some a
add_row a (some b) = some (a ⊕ b)

-- SELECT SUM(cumulative…) FROM spans WHERE trace_rowid = ? AND parent_id = ?
unfoldable pub sum_children : ℕ → String → List SpanRow → Option Totals
unfolding is_child add_row
sum_children t sid [] = none
sum_children t sid (r ∷ rs) =
    let rest = sum_children t sid rs in if is_child t sid r then add_row r.cumulative rest else rest

-- WHERE trace_rowid = ? AND span_id = ?
unfoldable pub find_span : ℕ → String → List SpanRow → Option SpanRow
find_span t sid [] = none
find_span t sid (r ∷ rs) =
    if r.trace_rowid == t && str_eq r.span_id sid then some r else find_span t sid rs

-- ON CONFLICT(span_id)
unfoldable pub has_span : String → List SpanRow → Bool
has_span sid [] = false
has_span sid (r ∷ rs) = str_eq r.span_id sid || has_span sid rs

-- WHERE id IN (…)
unfoldable pub id_in : ℕ → List ℕ → Bool
id_in i [] = false
id_in i (j ∷ js) = i == j || id_in i js

-- cumulative… = cumulative… + ?, where the id is in the list
unfoldable pub credit : List ℕ → Totals → SpanRow → SpanRow
credit ids d r = if id_in r.id ids then record r { cumulative = r.cumulative ⊕ d } else r

-- UPDATE spans SET cumulative… = cumulative… + ? WHERE id IN (…)
unfoldable pub add_to_spans : List ℕ → Totals → List SpanRow → List SpanRow
add_to_spans ids d = map (credit ids d)

-- What a row contributes itself, read back from its columns.
abbrev pub or_zero : Option ℤ → ℤ
or_zero none = pos 0
or_zero (some n) = n

unfoldable pub stored_self : SpanRow → Totals
stored_self r = record {
  errors = int64 (if str_eq r.status_code "ERROR" then pos 1 else pos 0);
  tokens_prompt = int64 (or_zero r.llm_tokens_prompt);
  tokens_completion = int64 (or_zero r.llm_tokens_completion);
}
