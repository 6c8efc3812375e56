-- ===== src/Server/Routes/Taken.antt =====
-- The paths of the program with the right and the wrong methods: internal/server/handler.go and internal/api/handlers.go.
use tracewell.Prelude.{
  String, Bool, true, false, ◌&&◌, if◌then◌else◌, ◌≡◌, ◌↔◌, ap, ◌∙◌, arith, eq_iff,
}
use tracewell.Api.Handlers.{project_get, trace_list, span_list, trace_span_list}
use tracewell.Server.Mux.{
  UrlPath, path_value, takes_method, match_parts, ends, match_path, match_entry, reached,
  not_allowed, missing, find_entry, is_path_of, unmatched, route, bound_to, with_slash,
}
use tracewell.Server.Routes.{
  Target, healthz, uploads, all_projects, below, target_of, api_target, top_target, dispatch,
}
use tracewell.Server.Routes.Reached.{
  method_of, path_of, segments_of, project_path, is_served, IsFor, dispatch_sound,
}

pub served_complete :
    (has_db : Bool) (m : String) (t : Target)
    → takes_method (method_of t) m ≡ true
    → is_served has_db t ≡ true
    → dispatch has_db m (path_of t) ≡ reached t
unfolding dispatch top_target route find_entry match_entry match_path match_parts ends bound_to
    takes_method api_target target_of path_value path_of segments_of project_path method_of
    is_served
served_complete has_db m healthz k s = ground (arith, k)
served_complete has_db m uploads k s = ground (arith, k, eq_iff "POST" m)
served_complete true m all_projects k s = ground (arith, k)
served_complete true m (below i project_get) k s = ground (arith, k)
served_complete true m (below i trace_list) k s = ground (arith, k)
served_complete true m (below i span_list) k s = ground (arith, k)
served_complete true m (below i (trace_span_list t)) k s = ground (arith, k)
served_complete false m all_projects k s = absurd (ground (arith, s))
served_complete false m (below i r) k s = absurd (ground (arith, s))

-- A request reaches a target exactly if it has the target's path and its method, or HEAD for GET, and a database is there
-- where the target needs one: no route hides another one, and the values of the wildcards come back.
pub dispatch_iff :
    (has_db : Bool) (m : String) (u : UrlPath) (t : Target)
    → (dispatch has_db m u ≡ reached t) ↔ IsFor has_db m u t
dispatch_iff has_db m u t = (
  dispatch_sound has_db m u t,
  λ (takes, path, served). ap (dispatch has_db m) path ∙ served_complete has_db m t takes served,
)

unfoldable pub is_upload : Target → Bool
is_upload uploads = true
is_upload _ = false

-- A request at the path of a target with a method that the target does not take is answered 405, except that a GET or a HEAD
-- at the path for uploads falls to the query API, which answers 404.
pub dispatch_wrong_method :
    (m : String) (t : Target)
    → takes_method (method_of t) m ≡ false
    → dispatch true m (path_of t)
      ≡ (if is_upload t && takes_method "GET" m then missing else not_allowed)
unfolding dispatch top_target route unmatched is_path_of with_slash find_entry match_entry
    match_path match_parts ends bound_to api_target path_of segments_of project_path method_of
    is_upload
dispatch_wrong_method m healthz k = ground (arith, k)
dispatch_wrong_method m uploads k = ground (arith, k)
dispatch_wrong_method m all_projects k = ground (arith, k)
dispatch_wrong_method m (below i project_get) k = ground (arith, k)
dispatch_wrong_method m (below i trace_list) k = ground (arith, k)
dispatch_wrong_method m (below i span_list) k = ground (arith, k)
dispatch_wrong_method m (below i (trace_span_list t)) k = ground (arith, k)
