-- ===== src/Api/Handlers/Status.antt =====
-- When the handlers of internal/api/handlers.go answer 404.
use tracewell.Prelude.{
  ℕ, String, Option, none, some, codes, ◌≡◌, ◌≢◌, refl, arith, ◌↔◌, Option-cases, inl, inr,
}
use tracewell.Store.Tables.{Db}
use tracewell.Api.Queries.{Project, page_limit, list_spans}
use tracewell.Api.FindProject.{Found, not_found, scan_failed, found, find_by_identifier}
use tracewell.Api.Traces.{TraceFilter, Listed, rejected, failed, page, list_traces}
use tracewell.Api.TraceSpans.{list_trace_spans}
use tracewell.Api.Handlers.{
  Outside, Values, get, write_error, write_ok, traces_reply, trace_list_filtered, trace_list_of,
  trace_filter, spans_reply, span_list_from, span_list_within, span_list_of, span_cursor,
  span_list_params, trace_spans_reply, trace_span_list_of, with_project, ProjectRoute, project_get,
  trace_list, span_list, trace_span_list, serve_project, serve,
}

module _ (o : Outside) (db : Db) (params : Values) where
  traces_reply-status : (l : Listed) → (traces_reply l).status ≢ 404
  unfolding traces_reply write_error write_ok
  traces_reply-status rejected h = absurd (omega arith)
  traces_reply-status failed h = absurd (omega arith)
  traces_reply-status (page traces next) h = absurd (omega arith)

  trace_list-status :
      (project : ℕ) (f : Option TraceFilter) → (trace_list_filtered o db project f).status ≢ 404
  unfolding trace_list_filtered write_error
  trace_list-status project none h = absurd (omega arith)
  trace_list-status project (some f) h =
      traces_reply-status (list_traces o.queries project f db.traces db.spans) h

  span_list-status :
      (project limit : ℕ) (c : Option ℕ) → (span_list_from db project params limit c).status ≢ 404
  unfolding span_list_from spans_reply write_error write_ok
  span_list-status project limit none h = absurd (omega arith)
  span_list-status project limit (some c) h =
      elim (Option-cases
        (list_spans project (span_list_params params) limit c db.traces db.spans)) [
          | inl e ↦ absurd (ground (arith, e))
          | inr (spans, e) ↦ absurd (ground (arith, e))
        ]

  span_list_within-status :
      (project : ℕ) (l : Option ℕ) → (span_list_within db project params l).status ≢ 404
  unfolding span_list_within write_error
  span_list_within-status project none h = absurd (omega arith)
  span_list_within-status project (some l) h =
      span_list-status project l (span_cursor (codes (get "cursor" params))) h

  serve_project-status :
      (route : ProjectRoute) (p : Project) → (serve_project o db params route p).status ≢ 404
  unfolding serve_project trace_list_of span_list_of trace_span_list_of trace_spans_reply write_ok
      write_error
  serve_project-status project_get p h = absurd (omega arith)
  serve_project-status trace_list p h = trace_list-status p.id (trace_filter o params) h
  serve_project-status span_list p h =
      span_list_within-status p.id (page_limit (codes (get "limit" params))) h
  serve_project-status (trace_span_list t) p h =
      elim (Option-cases (list_trace_spans o.json p.id t db.traces db.spans)) [
        | inl e ↦ absurd (ground (arith, e))
        | inr (spans, e) ↦ absurd (ground (arith, e))
      ]

-- A route below a project answers 404 exactly if FindProject does not find the project: it does not for a trace
-- that is not there, nor ahead of a bad parameter, and no parameter hides an unknown project.
pub serve-not_found :
    (o : Outside) (db : Db) (identifier : String) (params : Values) (route : ProjectRoute)
    → ((serve o db identifier params route).status ≡ 404)
      ↔ (find_by_identifier o.queries.parse_time o.zero_time identifier db.projects ≡ not_found)
unfolding serve with_project write_error
serve-not_found o db identifier params route = (
  unknown (find_by_identifier o.queries.parse_time o.zero_time identifier db.projects),
  λ e. rw e refl,
)
  where
    unknown :
        (f : Found)
        → (with_project (serve_project o db params route) f).status ≡ 404
        → f ≡ not_found
    unknown not_found h = refl
    unknown scan_failed h = absurd (omega arith)
    unknown (found p) h = absurd (serve_project-status o db params route p h)
