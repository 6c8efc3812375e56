-- ===== src/Api/Queries.antt =====
-- ListProjects and ListSpans of internal/api/queries.go and span_queries.go, and the parameters of
-- their handlers.
use tracewell.Prelude.{
  ℕ, ◌≤◌, ℤ, pos, negsuc, String, Bool, true, false, ◌&&◌, ◌||◌, List, [], ◌∷◌, Option, none, some,
  ◌≡◌, arith, str_eq, ltb, ◌==◌, if◌then◌else◌,
}
use tracewell.Strconv.{parse_int}
use tracewell.Store.Int64.{value}
use tracewell.Store.Tables.{ProjectRow, TraceRow, SpanRow}
use tracewell.Api.Page.{list_page}

pub record Project : Type 0 where
  pub id : ℕ
  pub name : String
  pub created_at : ℤ
  pub updated_at : ℤ

-- time.Parse(time.RFC3339Nano, s); `none` is its error. The zero time stands for a failed one whose
-- error is dropped.
abbrev pub ParseTime : Type 0
ParseTime = String → Option ℤ

or_zero_time : ℤ → Option ℤ → ℤ
or_zero_time zero_time none = zero_time
or_zero_time zero_time (some t) = t

module _ (parse_time : ParseTime) (zero_time : ℤ) where
  -- the scan function of ListProjects
  unfoldable pub scan_project : ProjectRow → Option Project
  unfolding or_zero_time
  scan_project r = elim (parse_time r.created_at) [
    | none ↦ none
    | some created ↦ some (record {
      id = r.id;
      name = r.name;
      created_at = created;
      updated_at = or_zero_time zero_time (parse_time r.updated_at);
    })
  ]

  -- ListProjects
  unfoldable pub list_projects : ℕ → ℕ → List ProjectRow → Option (List Project × ℕ)
  list_projects limit cursor rows = list_page (λ r. r.id) scan_project limit cursor rows

-- "null" stands for the roots, and an absent parameter for all spans
pub data ParentFilter : Type 0 where
  any_parent : ParentFilter
  parent : String → ParentFilter

pub record SpanFilter : Type 0 where
  pub trace_ids : List String
  pub span_ids : List String
  pub parent_id : ParentFilter
  pub names : List String
  pub span_kinds : List String
  pub status_codes : List String

is_listed : String → List String → Bool
is_listed x [] = false
is_listed x (y ∷ ys) = str_eq x y || is_listed x ys

-- x IN (?, …), which is left out where the list is empty
unfoldable pub allowed : String → List String → Bool
unfolding is_listed
allowed x [] = true
allowed x (y ∷ ys) = is_listed x (y ∷ ys)

parent_is : String → Option String → Bool
parent_is p none = false
parent_is p (some q) = str_eq q p

is_root : Option String → Bool
is_root none = true
is_root (some q) = false

unfoldable pub parent_allowed : ParentFilter → Option String → Bool
unfolding parent_is is_root
parent_allowed any_parent q = true
parent_allowed (parent p) q = if str_eq p "null" then is_root q else parent_is p q

-- JOIN traces t ON t.id = s.trace_rowid
unfoldable pub trace_of : SpanRow → List TraceRow → Option TraceRow
trace_of s [] = none
trace_of s (t ∷ ts) = if t.id == s.trace_rowid then some t else trace_of s ts

-- the WHERE of ListSpans, less its cursor
unfoldable pub span_matches : ℕ → SpanFilter → TraceRow → SpanRow → Bool
unfolding allowed parent_allowed
span_matches project f t s =
    t.project_rowid == project
    && (allowed t.trace_id f.trace_ids
        && (allowed s.span_id f.span_ids
            && (parent_allowed f.parent_id s.parent_id
                && (allowed s.name f.names
                    && (allowed s.span_kind f.span_kinds
                        && allowed s.status_code f.status_codes)))))

-- A row of the join.
pub record SpanRead : Type 0 where
  pub trace : TraceRow
  pub row : SpanRow

unfoldable pub joined : ℕ → SpanFilter → SpanRow → Option TraceRow → List SpanRead → List SpanRead
unfolding span_matches
joined project f s none rest = rest
joined project f s (some t) rest =
    if span_matches project f t s then record { trace = t; row = s } ∷ rest else rest

-- FROM spans s JOIN traces t … WHERE …
unfoldable pub matching_spans : ℕ → SpanFilter → List TraceRow → List SpanRow → List SpanRead
unfolding joined
matching_spans project f ts [] = []
matching_spans project f ts (s ∷ ss) =
    joined project f s (trace_of s ts) (matching_spans project f ts ss)

-- scanSpan without the JSON columns; the latency is computed by SQLite and is left out
pub record Span : Type 0 where
  pub id : ℕ
  pub trace_id : String
  pub span_id : String
  pub parent_id : Option String
  pub name : String
  pub span_kind : String
  pub start_time : String
  pub end_time : String
  pub status_code : String
  pub status_message : String
  pub cum_error : ℤ
  pub cum_tok_p : ℤ
  pub cum_tok_c : ℤ
  pub self_tok_p : Option ℤ
  pub self_tok_c : Option ℤ

unfoldable pub scan_span : SpanRead → Option Span
scan_span r = some (record {
  id = r.row.id;
  trace_id = r.trace.trace_id;
  span_id = r.row.span_id;
  parent_id = r.row.parent_id;
  name = r.row.name;
  span_kind = r.row.span_kind;
  start_time = r.row.start_time;
  end_time = r.row.end_time;
  status_code = r.row.status_code;
  status_message = r.row.status_message;
  cum_error = value r.row.cumulative.errors;
  cum_tok_p = value r.row.cumulative.tokens_prompt;
  cum_tok_c = value r.row.cumulative.tokens_completion;
  self_tok_p = r.row.llm_tokens_prompt;
  self_tok_c = r.row.llm_tokens_completion;
})

unfoldable pub last_id : List Span → ℕ
last_id [] = 0
last_id (s ∷ []) = s.id
last_id (s ∷ t ∷ ts) = last_id (t ∷ ts)

-- ListSpans, with the cursor that it returns
unfoldable pub list_spans :
    ℕ → SpanFilter → ℕ → ℕ → List TraceRow → List SpanRow → Option (List Span × ℕ)
unfolding last_id
list_spans project f limit cursor ts ss =
    elim (list_page (λ r. r.row.id) scan_span limit cursor (matching_spans project f ts ss)) [
      | none ↦ none
      | some (spans, more) ↦ some (spans, if more == 0 then 0 else last_id spans)
    ]

-- pageLimit; `none` is errBadParam
within_limit : Option ℤ → Option ℕ
within_limit none = none
within_limit (some (negsuc n)) = none
within_limit (some (pos n)) = if ltb n 1 || ltb 1000 n then none else some n

unfoldable pub page_limit : List ℕ → Option ℕ
unfolding within_limit
page_limit [] = some 100
page_limit (c ∷ cs) = within_limit (parse_int (c ∷ cs))

-- Every limit that pageLimit accepts is at least 1 and at most 1000.
pub page_limit_bounds : (raw : List ℕ) (n : ℕ) → page_limit raw ≡ some n → (1 ≤ n) × (n ≤ 1000)
unfolding page_limit
page_limit_bounds [] n h = ground arith
page_limit_bounds (c ∷ cs) n h = ground arith
