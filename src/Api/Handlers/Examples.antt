-- ===== src/Api/Handlers/Examples.antt =====
-- The handlers' theorems at concrete tables and requests.
use tracewell.Prelude.{
  arith, ◌≤◌, pos, String, [], ◌∷◌, none, some, codes, str_eq, ltb, ◌≡◌, refl, if◌then◌else◌, ◌↔◌,
}
use tracewell.Strconv.{parse_int, parse_nat, parse_digits}
use tracewell.Value.{end}
use tracewell.Store.Tables.{Db}
use tracewell.Api.Queries.{page_limit}
use tracewell.Api.FindProject.{not_found, find_by_identifier}
use tracewell.Api.Traces.{TraceFilter}
use tracewell.Api.Handlers.{
  Outside, Values, get, trace_list, span_list, serve, project_list, trace_filter, parse_time_param,
  parse_error_param, is_sort, is_order,
}
use tracewell.Api.Handlers.Status.{serve-not_found}
use tracewell.Api.Handlers.Limits.{size, is_paged, serve-limit}
use tracewell.Api.Handlers.Params.{
  without, after_sign, project_list_bad_cursor, IsChecked, trace_filter-IsChecked,
}

abbrev pub o : Outside
o = record {
  queries = record {
    parse_time = λ t. some (pos 0);
    format_time = λ t. codes "a";
    format_float = λ x. codes "5";
    latency = λ s t. some 5;
    reals = ltb;
  };
  parse_rfc3339 = λ t. none;
  zero_time = pos 0;
  json = record { unmarshal_map = λ s. some (some end); unmarshal_maps = λ s. none };
}

abbrev pub one_project : Db
one_project = record {
  projects = record { id = 1; name = "mine"; created_at = "t"; updated_at = "t" } ∷ [];
  traces = [];
  spans = [];
}

abbrev pub ask : String → String → Values
ask key value k = if str_eq k key then value ∷ [] else []

serve-not_found_example :
    ((serve o one_project "other" (ask "limit" "zero") trace_list).status ≡ 404)
    ↔ (find_by_identifier o.queries.parse_time o.zero_time "other" one_project.projects ≡ not_found)
serve-not_found_example = serve-not_found o one_project "other" (ask "limit" "zero") trace_list

serve-limit_example :
    (size (project_list o one_project (ask "limit" "7")).content ≤ 7)
    × (size (serve o one_project "mine" (ask "limit" "7") span_list).content ≤ 7)
unfolding page_limit get parse_int parse_nat parse_digits is_paged
serve-limit_example = serve-limit o one_project (ask "limit" "7") 7 "mine" span_list refl refl

project_list_bad_cursor_example :
    project_list o one_project (ask "cursor" "12x")
    ≡ project_list o one_project (without "cursor" (ask "cursor" "12x"))
unfolding get after_sign parse_digits
project_list_bad_cursor_example =
    project_list_bad_cursor o one_project (ask "cursor" "12x") (codes "12") 12 b'x' [] refl refl
      (omega arith) refl

abbrev newest : TraceFilter
newest = record {
  start_time = none;
  end_time = none;
  sort = "";
  order = "desc";
  has_error = none;
  limit = 100;
  cursor = [];
}

trace_filter-IsChecked_example : IsChecked newest
unfolding trace_filter page_limit get parse_time_param parse_error_param is_sort is_order
trace_filter-IsChecked_example = trace_filter-IsChecked o (ask "order" "desc") newest refl
