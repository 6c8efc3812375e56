-- ===== src/Api/Handlers.antt =====
-- The handlers of internal/api/handlers.go, on a request that the mux has routed. Response headers and the log are
-- left out.
pub mod Status
pub mod Limits
pub mod Params
pub mod Examples
use tracewell.Prelude.{
  ℕ, zero, suc, ℤ, pos, negsuc, String, Bool, true, false, not, ◌&&◌, List, [], ◌∷◌, Option, none,
  some, codes, str_eq, if◌then◌else◌,
}
use tracewell.Strconv.{format_int, parse_int}
use tracewell.Strconv.Lenient.{parse_int_value, parse_bool}
use tracewell.Store.Tables.{Db, ProjectRow}
use tracewell.Api.Queries.{
  Project, Span, SpanFilter, ParentFilter, any_parent, parent, list_projects, list_spans,
  page_limit,
}
use tracewell.Api.FindProject.{Found, not_found, scan_failed, found, find_by_identifier}
use tracewell.Api.Traces.{Trace, TraceFilter, Listed, rejected, failed, page, list_traces}
use tracewell.Api.Traces as Traces
use tracewell.Api.TraceSpans.{FullSpan, Json, list_trace_spans}

-- What the handlers use besides the tables: time.Parse with RFC3339, and the zero time.
pub record Outside : Type 0 where
  pub queries : Traces.Outside
  pub parse_rfc3339 : String → Option ℤ
  pub zero_time : ℤ
  pub json : Json

-- url.Values: the values of a key, in order
abbrev pub Values : Type 0
Values = String → List String

-- Get
unfoldable pub get : String → Values → String
get key params = elim (params key) [ [] ↦ "" | v ∷ vs ↦ v ]

pub data ApiError : Type 0 where
  err_not_found err_bad_cursor err_bad_param other_error : ApiError

-- What writeJSON encodes, with the next cursor of a listing.
pub data Content : Type 0 where
  error_content : String → Content
  project_content : Project → Content
  projects_content : List Project → List ℕ → Content
  traces_content : List Trace → List ℕ → Content
  spans_content : List Span → List ℕ → Content
  trace_spans_content : List FullSpan → Content

pub record Reply : Type 0 where
  pub status : ℕ
  pub content : Content

-- writeError
unfoldable pub write_error : ApiError → Reply
write_error err_not_found = record { status = 404; content = error_content "not found" }
write_error err_bad_cursor = record { status = 422; content = error_content "invalid cursor" }
write_error err_bad_param = record {
  status = 422;
  content = error_content "invalid query parameter";
}
write_error other_error = record { status = 500; content = error_content "internal error" }

-- writeJSON with http.StatusOK
unfoldable pub write_ok : Content → Reply
write_ok c = record { status = 200; content = c }

-- The cursor of ListProjects is an int64: no id is at most a negative one.
unfoldable pub list_projects_from : Outside → ℕ → ℤ → List ProjectRow → Option (List Project × ℕ)
list_projects_from o limit (pos n) rows =
    list_projects o.queries.parse_time o.zero_time limit n rows
list_projects_from o limit (negsuc n) rows = some ([], 0)

-- projects[len(projects)-1].ID, in decimal; a page before another one is not empty
unfoldable pub last_project : List Project → List ℕ
last_project [] = []
last_project (p ∷ []) = format_int (pos p.id)
last_project (p ∷ q ∷ ps) = last_project (q ∷ ps)

unfoldable pub projects_reply : Option (List Project × ℕ) → Reply
unfolding write_error write_ok last_project
projects_reply none = write_error other_error
projects_reply (some (projects, zero)) = write_ok (projects_content projects [])
projects_reply (some (projects, suc n)) =
    write_ok (projects_content projects (last_project projects))

-- with the limit parsed
unfoldable pub project_list_within : Outside → Db → Values → Option ℕ → Reply
unfolding projects_reply list_projects_from write_error
project_list_within o db params none = write_error err_bad_param
project_list_within o db params (some limit) =
    projects_reply
      (list_projects_from o limit (parse_int_value (codes (get "cursor" params))) db.projects)

-- projectList
unfoldable pub project_list : Outside → Db → Values → Reply
unfolding project_list_within
project_list o db params = project_list_within o db params (page_limit (codes (get "limit" params)))

-- parseTimeParam: an error, or nil, or a time
unfoldable pub parse_time_param : Outside → String → Option (Option ℤ)
parse_time_param o raw =
    if str_eq raw ""
    then some none
    else elim (o.parse_rfc3339 raw) [ none ↦ none | some t ↦ some (some t) ]

-- the parameter "error": an error, or nil, or its value
unfoldable pub parse_error_param : String → Option (Option Bool)
parse_error_param raw =
    if str_eq raw ""
    then some none
    else elim (parse_bool raw) [ none ↦ none | some e ↦ some (some e) ]

unfoldable pub is_sort : String → Bool
is_sort s = not (not (str_eq s "") && (not (str_eq s "start_time") && not (str_eq s "latency_ms")))

unfoldable pub is_order : String → Bool
is_order s = not (not (str_eq s "") && (not (str_eq s "asc") && not (str_eq s "desc")))

infixl 1 ◌>>=◌
abbrev ◌>>=◌ : {A B : Type 0} → Option A → (A → Option B) → Option B
none >>= f = none
some a >>= f = f a

-- The filter of traceList, or errBadParam: limit, start_time, end_time, sort, order and error, in this order.
unfoldable pub trace_filter : Outside → Values → Option TraceFilter
unfolding is_sort is_order parse_time_param parse_error_param
trace_filter o params = do
  limit ← page_limit (codes (get "limit" params))
  start ← parse_time_param o (get "start_time" params)
  finish ← parse_time_param o (get "end_time" params)
  if not (is_sort (get "sort" params))
      then none
      else if not (is_order (get "order" params))
      then none
      else do
        has_error ← parse_error_param (get "error" params)
        some (record {
          start_time = start;
          end_time = finish;
          sort = get "sort" params;
          order = get "order" params;
          has_error = has_error;
          limit = limit;
          cursor = codes (get "cursor" params);
        })

unfoldable pub traces_reply : Listed → Reply
unfolding write_error write_ok
traces_reply rejected = write_error err_bad_cursor
traces_reply failed = write_error other_error
traces_reply (page traces next) = write_ok (traces_content traces next)

unfoldable pub trace_list_filtered : Outside → Db → ℕ → Option TraceFilter → Reply
unfolding traces_reply write_error
trace_list_filtered o db project none = write_error err_bad_param
trace_list_filtered o db project (some f) =
    traces_reply (list_traces o.queries project f db.traces db.spans)

-- traceList, for a project that is found
unfoldable pub trace_list_of : Outside → Db → Values → Project → Reply
unfolding trace_list_filtered trace_filter
trace_list_of o db params p = trace_list_filtered o db p.id (trace_filter o params)

-- params.Has: a key that is there has a value
unfoldable pub has : String → Values → Bool
has key params = elim (params key) [ [] ↦ false | v ∷ vs ↦ true ]

-- spanListParams
unfoldable pub span_list_params : Values → SpanFilter
unfolding has
span_list_params params = record {
  trace_ids = params "trace_id";
  span_ids = params "span_id";
  parent_id = if has "parent_id" params then parent (get "parent_id" params) else any_parent;
  names = params "name";
  span_kinds = params "span_kind";
  status_codes = params "status_code";
}

-- a cursor that ParseInt reads and that is not negative
unfoldable pub not_negative : Option ℤ → Option ℕ
not_negative none = none
not_negative (some (pos n)) = some n
not_negative (some (negsuc n)) = none

unfoldable pub span_cursor : List ℕ → Option ℕ
unfolding not_negative
span_cursor [] = some 0
span_cursor (c ∷ cs) = not_negative (parse_int (c ∷ cs))

-- the next cursor in decimal, and "" for 0
unfoldable pub next_span_cursor : ℕ → List ℕ
next_span_cursor zero = []
next_span_cursor (suc n) = format_int (pos (suc n))

unfoldable pub spans_reply : Option (List Span × ℕ) → Reply
unfolding write_error write_ok next_span_cursor
spans_reply none = write_error other_error
spans_reply (some (spans, next)) = write_ok (spans_content spans (next_span_cursor next))

unfoldable pub span_list_from : Db → ℕ → Values → ℕ → Option ℕ → Reply
unfolding spans_reply write_error span_list_params
span_list_from db project params limit none = write_error err_bad_cursor
span_list_from db project params limit (some cursor) =
    spans_reply (list_spans project (span_list_params params) limit cursor db.traces db.spans)

unfoldable pub span_list_within : Db → ℕ → Values → Option ℕ → Reply
unfolding span_list_from write_error span_cursor
span_list_within db project params none = write_error err_bad_param
span_list_within db project params (some limit) =
    span_list_from db project params limit (span_cursor (codes (get "cursor" params)))

-- spanList, for a project that is found
unfoldable pub span_list_of : Db → Values → Project → Reply
unfolding span_list_within
span_list_of db params p = span_list_within db p.id params (page_limit (codes (get "limit" params)))

unfoldable pub trace_spans_reply : Option (List FullSpan) → Reply
unfolding write_error write_ok
trace_spans_reply none = write_error other_error
trace_spans_reply (some spans) = write_ok (trace_spans_content spans)

-- traceSpanList, for a project that is found
unfoldable pub trace_span_list_of : Outside → Db → String → Project → Reply
unfolding trace_spans_reply
trace_span_list_of o db trace_id p =
    trace_spans_reply (list_trace_spans o.json p.id trace_id db.traces db.spans)

-- FindProject, with its errors answered
unfoldable pub with_project : (Project → Reply) → Found → Reply
unfolding write_error
with_project answer not_found = write_error err_not_found
with_project answer scan_failed = write_error other_error
with_project answer (found p) = answer p

-- The four routes below one project.
pub data ProjectRoute : Type 0 where
  project_get trace_list span_list : ProjectRoute
  trace_span_list : String → ProjectRoute

-- projectGet, traceList, spanList and traceSpanList, with a project
unfoldable pub serve_project : Outside → Db → Values → ProjectRoute → Project → Reply
unfolding trace_list_of span_list_of trace_span_list_of write_ok
serve_project o db params project_get p = write_ok (project_content p)
serve_project o db params trace_list p = trace_list_of o db params p
serve_project o db params span_list p = span_list_of db params p
serve_project o db params (trace_span_list trace_id) p = trace_span_list_of o db trace_id p

-- the routes of Handler below GET /v1/projects/{identifier}
unfoldable pub serve : Outside → Db → String → Values → ProjectRoute → Reply
unfolding with_project serve_project
serve o db identifier params route =
    with_project (serve_project o db params route)
      (find_by_identifier o.queries.parse_time o.zero_time identifier db.projects)
