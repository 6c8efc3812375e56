-- ===== src/Server/Routes.antt =====
-- The routes of NewHandler in internal/server/handler.go and of Handler in internal/api/handlers.go, with the answer of
-- internal/server/health/health.go.
pub mod Reached
pub mod Taken
pub mod Answers
mod Examples
use tracewell.Prelude.{
  ℕ, String, Bool, true, false, List, [], ◌∷◌, Option, none, some, str_eq, if◌then◌else◌,
}
use tracewell.Store.Tables.{Db}
use tracewell.Api.Handlers.{
  Outside, Reply, ProjectRoute, project_get, trace_list, span_list, trace_span_list, project_list,
  serve,
}
use tracewell.Api.Handlers as Handlers
use tracewell.Server.Mux.{
  Part, literal, wildcard, Pattern, UrlPath, Values, path_value, Entry, Routed, reached, redirected,
  not_allowed, missing, route,
}

pub data TopHandler : Type 0 where
  health : TopHandler
  ingestion : TopHandler
  query_api : TopHandler

-- NewHandler, with the query API if there is a database
abbrev pub new_handler : Bool → List (Entry TopHandler)
new_handler has_db =
    record {
      pattern = record { method = "GET"; parts = literal "healthz" ∷ []; subtree = false };
      handler = health;
    }
    ∷ record {
      pattern = record {
        method = "POST";
        parts = literal "v1" ∷ literal "traces" ∷ [];
        subtree = false;
      };
      handler = ingestion;
    }
    ∷ (if has_db
        then record {
          pattern = record { method = "GET"; parts = literal "v1" ∷ []; subtree = true };
          handler = query_api;
        }
          ∷ []
        else [])

pub data ApiHandler : Type 0 where
  projects_handler project_handler traces_handler spans_handler trace_spans_handler : ApiHandler

-- the parts of a path below one project
abbrev pub below_project : List Part → List Part
below_project ps = literal "v1" ∷ literal "projects" ∷ wildcard "identifier" ∷ ps

abbrev pub get_entry : List Part → ApiHandler → Entry ApiHandler
get_entry ps h = record {
  pattern = record { method = "GET"; parts = ps; subtree = false };
  handler = h;
}

-- Handler
abbrev pub api_handler : List (Entry ApiHandler)
api_handler =
    get_entry (literal "v1" ∷ literal "projects" ∷ []) projects_handler
    ∷ get_entry (below_project []) project_handler
    ∷ get_entry (below_project (literal "traces" ∷ [])) traces_handler
    ∷ get_entry (below_project (literal "spans" ∷ [])) spans_handler
    ∷ get_entry (below_project (literal "traces" ∷ wildcard "trace_id" ∷ literal "spans" ∷ []))
        trace_spans_handler
    ∷ []

-- What a request is for.
pub data Target : Type 0 where
  healthz : Target
  uploads : Target
  all_projects : Target
  below : String → ProjectRoute → Target

-- a handler of the API with r.PathValue
unfoldable pub target_of : ApiHandler → Values → Target
unfolding path_value
target_of projects_handler vs = all_projects
target_of project_handler vs = below (path_value "identifier" vs) project_get
target_of traces_handler vs = below (path_value "identifier" vs) trace_list
target_of spans_handler vs = below (path_value "identifier" vs) span_list
target_of trace_spans_handler vs =
    below (path_value "identifier" vs) (trace_span_list (path_value "trace_id" vs))

unfoldable pub api_target : Routed (ApiHandler × Values) → Routed Target
unfolding target_of
api_target (reached (h, vs)) = reached (target_of h vs)
api_target redirected = redirected
api_target not_allowed = not_allowed
api_target missing = missing

unfoldable pub top_target : String → UrlPath → Routed (TopHandler × Values) → Routed Target
unfolding api_target
top_target m u (reached (health, vs)) = reached healthz
top_target m u (reached (ingestion, vs)) = reached uploads
top_target m u (reached (query_api, vs)) = api_target (route api_handler m u)
top_target m u redirected = redirected
top_target m u not_allowed = not_allowed
top_target m u missing = missing

-- the mux of NewHandler, and that of Handler below it
unfoldable pub dispatch : Bool → String → UrlPath → Routed Target
unfolding top_target
dispatch has_db m u = top_target m u (route (new_handler has_db) m u)

-- What the program answers, the body of an upload apart.
pub data Answer : Type 0 where
  -- a status, a content type and a body
  written : ℕ → String → String → Answer
  uploaded : Answer
  replied : Reply → Answer
  -- the mux itself: a redirect, 405 or 404
  moved : Answer
  refused : ℕ → Answer

-- the handler of health.go
abbrev health_answer : Answer
health_answer = written 200 "application/json" "{\"status\":\"ok\"}\n"

unfoldable pub answer_target : Outside → Db → Handlers.Values → Routed Target → Answer
answer_target o db params (reached healthz) = health_answer
answer_target o db params (reached uploads) = uploaded
answer_target o db params (reached all_projects) = replied (project_list o db params)
answer_target o db params (reached (below identifier r)) = replied (serve o db identifier params r)
answer_target o db params redirected = moved
answer_target o db params not_allowed = refused 405
answer_target o db params missing = refused 404

-- A request, from its method, its path and its query parameters.
unfoldable pub answer : Outside → Db → String → UrlPath → Handlers.Values → Answer
unfolding dispatch answer_target
answer o db m u params = answer_target o db params (dispatch true m u)
