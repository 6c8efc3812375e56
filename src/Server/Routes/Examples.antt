-- ===== src/Server/Routes/Examples.antt =====
-- The theorems on the routes at concrete requests.
use tracewell.Prelude.{true, false, [], ◌∷◌, ◌≡◌, ◌↔◌, refl}
use tracewell.Api.FindProject.{not_found, find_by_identifier}
use tracewell.Api.Handlers.{trace_list, trace_span_list}
use tracewell.Api.Handlers.Examples.{o, one_project, ask}
use tracewell.Server.Mux.{UrlPath, takes_method, reached, not_allowed}
use tracewell.Server.Routes.{all_projects, below, dispatch, answer}
use tracewell.Server.Routes.Reached.{method_of, path_of, IsFor}
use tracewell.Server.Routes.Taken.{is_upload, dispatch_iff, dispatch_wrong_method}
use tracewell.Server.Routes.Answers.{is_not_found, answer-not_found}

abbrev one_request : UrlPath
one_request = record {
  path_segments = "v1" ∷ "projects" ∷ "mine" ∷ "traces" ∷ "t1" ∷ "spans" ∷ [];
  final_slash = false;
}

dispatch_iff_example :
    (dispatch true "HEAD" one_request ≡ reached (below "mine" (trace_span_list "t1")))
    ↔ IsFor true "HEAD" one_request (below "mine" (trace_span_list "t1"))
dispatch_iff_example = dispatch_iff true "HEAD" one_request (below "mine" (trace_span_list "t1"))

dispatch_wrong_method_example : dispatch true "POST" (path_of all_projects) ≡ not_allowed
unfolding takes_method method_of is_upload
dispatch_wrong_method_example = dispatch_wrong_method "POST" all_projects refl

answer-not_found_example :
    (is_not_found
        (answer o one_project "GET" (path_of (below "other" trace_list)) (ask "limit" "5"))
      ≡ true)
    ↔ ((takes_method "GET" "GET" ≡ true)
        × (find_by_identifier o.queries.parse_time o.zero_time "other" one_project.projects
            ≡ not_found))
answer-not_found_example = answer-not_found o one_project "GET" "other" (ask "limit" "5") trace_list
