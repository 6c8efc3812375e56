-- ===== src/Api/Handlers/Limits.antt =====
-- How much one answer of internal/api/handlers.go holds.
use tracewell.Prelude.{
  ℕ, zero, suc, ◌+◌, ◌≤◌, ℤ, pos, negsuc, String, Bool, true, false, List, [], ◌∷◌, Option, none,
  some, codes, length, take, leb, map, ◌≡◌, refl, sym, ap, ◌∙◌, subst, arith, Bool-cases,
  Option-cases, inl, inr,
}
use tracewell.Store.Tables.{Db, SpanRow, TraceRow}
use tracewell.Api.Page.{page_of, scan_page, scan_rows, list_page}
use tracewell.Api.Queries.{
  Project, Span, SpanFilter, page_limit, page_limit_bounds, list_projects, list_spans,
  matching_spans, scan_span, scan_project,
}
use tracewell.Api.FindProject.{Found, not_found, scan_failed, found, find_by_identifier}
use tracewell.Api.Traces.{
  Trace, TraceFilter, Listed, rejected, failed, page, list_traces, list_from, list_decoded,
  finish_page, fill_token_counts, fill_one, token_sums, scan_trace, trace_rows, by_latency,
}
use tracewell.Api.Traces as Traces
use tracewell.Api.Cursor.{Decoded, bad_cursor, cursor, decode_trace_cursor}
use tracewell.Api.Handlers.{
  Outside, Values, get, Content, error_content, project_content, projects_content, traces_content,
  spans_content, trace_spans_content, write_error, write_ok, projects_reply, list_projects_from,
  project_list, project_list_within, traces_reply, trace_list_filtered, trace_list_of, trace_filter,
  spans_reply, span_list_from, span_list_within, span_list_of, span_cursor, span_list_params,
  with_project, ProjectRoute, project_get, trace_list, span_list, trace_span_list, serve_project,
  serve,
}
use tracewell.Api.Handlers.Params.{trace_filter-Parsed}

-- The entries of an answer.
unfoldable pub size : Content → ℕ
size (error_content e) = 0
size (project_content p) = 1
size (projects_content ps next) = length ps
size (traces_content ts next) = length ts
size (spans_content ss next) = length ss
size (trace_spans_content ss) = length ss

length-take-le : {A : Type 0} (n : ℕ) (xs : List A) → length (take n xs) ≤ n
length-take-le zero xs = omega arith
length-take-le (suc n) [] = omega arith
length-take-le (suc n) (x ∷ xs) = omega (arith, length-take-le n xs)

page_of-short : {A : Type 0} (limit : ℕ) (rows : List A) → length (page_of limit rows).0 ≤ limit
unfolding page_of
page_of-short limit rows = elim (Bool-cases (leb (length rows) limit)) [
  | inl e ↦ ground (arith, e)
  | inr e ↦ rw e (length-take-le limit rows)
]

scan_page-short :
    {R A : Type 0} (scan : R → Option A) (limit : ℕ) (rows : List R) (out : List A) (n : ℕ)
    → scan_page scan limit rows ≡ some (out, n)
    → length out ≤ limit
unfolding scan_page
scan_page-short scan limit rows out n h = elim (Option-cases (scan_rows scan rows)) [
  | inl e ↦ absurd (ground (arith, e))
  | inr (all, e) ↦
      let same : page_of limit all ≡ (out, n) = ground (arith, e) in
      subst (λ p. length p.0 ≤ limit) same (page_of-short limit all)
]

length-map : {A B : Type 0} (f : A → B) (xs : List A) → length (map f xs) ≡ length xs
length-map f [] = refl
length-map f (x ∷ xs) = ap suc (length-map f xs)

finish_page-short :
    (o : Traces.Outside) (latency : Bool) (spans : List SpanRow) (limit : ℕ) (rows : List TraceRow)
    → size
        (traces_reply
          (finish_page o latency spans (scan_page (scan_trace o spans) limit rows))).content
      ≤ limit
unfolding size traces_reply write_error write_ok finish_page fill_token_counts
finish_page-short o latency spans limit rows =
    elim (Option-cases (scan_page (scan_trace o spans) limit rows)) [
      | inl e ↦ rw (e, finish_page) (omega arith)
      | inr ((out, zero), e) ↦
          rw (e, finish_page, length-map) (scan_page-short (scan_trace o spans) limit rows out 0 e)
      | inr ((out, suc n), e) ↦
          rw (e, finish_page, length-map)
            (scan_page-short (scan_trace o spans) limit rows out (suc n) e)
    ]

list_traces-short :
    (o : Traces.Outside) (project : ℕ) (f : TraceFilter) (traces : List TraceRow)
    (spans : List SpanRow)
    → size (traces_reply (list_traces o project f traces spans)).content ≤ f.limit
unfolding list_traces list_from Traces.trace_matches
list_traces-short o project f traces spans = by_cursor f.cursor
  where
    by_cursor :
        (cs : List ℕ)
        → size
            (traces_reply (list_traces o project (record f { cursor = cs }) traces spans)).content
          ≤ f.limit
    by_cursor [] =
        finish_page-short o (by_latency f) spans f.limit
          (take (f.limit + 1) (trace_rows o project f none traces spans))
    by_cursor (c ∷ cs) = with_cursor (decode_trace_cursor (c ∷ cs))
      where
        with_cursor :
            (d : Decoded)
            → size
                (traces_reply
                  (list_decoded o project (record f { cursor = c ∷ cs }) traces spans d)).content
              ≤ f.limit
        with_cursor bad_cursor = unfold list_decoded traces_reply write_error size in omega arith
        with_cursor (cursor value row) =
            unfold list_decoded in
            finish_page-short o (by_latency f) spans f.limit (
              take (f.limit + 1) (
                trace_rows o project (record f { cursor = c ∷ cs }) (some (value, row)) traces
                  spans))

list_spans-short :
    (project : ℕ) (f : SpanFilter) (limit c : ℕ) (ts : List TraceRow) (ss : List SpanRow)
    (out : List Span) (n : ℕ)
    → list_spans project f limit c ts ss ≡ some (out, n)
    → length out ≤ limit
unfolding list_spans list_page
list_spans-short project f limit c ts ss out n h =
    elim (Option-cases
      (list_page (λ r. r.row.id) scan_span limit c (matching_spans project f ts ss))) [
        | inl e ↦ absurd (ground (arith, e))
        | inr ((out', k), e) ↦
            let same : out' ≡ out = ground (arith, e) in
            subst (λ l. length l ≤ limit) same (scan_page-short scan_span limit _ out' k e)
      ]

-- All routes but the spans of one trace are answered by pages.
unfoldable pub is_paged : ProjectRoute → Bool
is_paged (trace_span_list t) = false
is_paged _ = true

module _ (o : Outside) (db : Db) (params : Values) (limit : ℕ) where
  trace_list-short :
      (project : ℕ)
      → page_limit (codes (get "limit" params)) ≡ some limit
      → (f : Option TraceFilter) → trace_filter o params ≡ f
      → size (trace_list_filtered o db project f).content ≤ limit
  unfolding trace_list_filtered write_error size
  trace_list-short project l none e = omega arith
  trace_list-short project l (some f) e =
      let p = trace_filter-Parsed o params f e in
      let given : some limit ≡ some f.limit = sym l ∙ p.limited in
      let same : f.limit ≡ limit = ground (arith, given) in
      subst
        (λ n. size (traces_reply (list_traces o.queries project f db.traces db.spans)).content ≤ n)
        same (list_traces-short o.queries project f db.traces db.spans)

  span_list-short :
      (project : ℕ) (c : Option ℕ) → size (span_list_from db project params limit c).content ≤ limit
  unfolding span_list_from write_error size
  span_list-short project none = omega arith
  span_list-short project (some c) =
      spans_reply-short (list_spans project (span_list_params params) limit c db.traces db.spans)
        refl
    where
      spans_reply-short :
          (r : Option (List Span × ℕ))
          → list_spans project (span_list_params params) limit c db.traces db.spans ≡ r
          → size (spans_reply r).content ≤ limit
      spans_reply-short none e = unfold spans_reply write_error size in omega arith
      spans_reply-short (some (out, n)) e =
          unfold spans_reply write_ok size in
          list_spans-short project (span_list_params params) limit c db.traces db.spans out n e

  projects-short :
      (c : ℤ) → size (projects_reply (list_projects_from o limit c db.projects)).content ≤ limit
  unfolding projects_reply list_projects_from write_error write_ok size list_projects list_page
  projects-short (negsuc n) = omega arith
  projects-short (pos c) =
      elim (Option-cases (list_projects o.queries.parse_time o.zero_time limit c db.projects)) [
        | inl e ↦ rw (e, projects_reply) (omega arith)
        | inr ((out, zero), e) ↦
            rw (e, projects_reply)
              (scan_page-short (scan_project o.queries.parse_time o.zero_time) limit _ out 0 e)
        | inr ((out, suc n), e) ↦
            rw (e, projects_reply)
              (scan_page-short (scan_project o.queries.parse_time o.zero_time) limit _ out (suc n)
                e)
      ]

  serve_project-short :
      page_limit (codes (get "limit" params)) ≡ some limit
      → (route : ProjectRoute) (p : Project) → is_paged route ≡ true
      → size (serve_project o db params route p).content ≤ limit
  unfolding serve_project trace_list_of span_list_of span_list_within is_paged write_ok size
  serve_project-short l project_get p e = (page_limit_bounds (codes (get "limit" params)) limit l).0
  serve_project-short l trace_list p e = trace_list-short p.id l (trace_filter o params) refl
  serve_project-short l span_list p e =
      rw (l, span_list_within) (span_list-short p.id (span_cursor (codes (get "cursor" params))))
  serve_project-short l (trace_span_list t) p e = absurd (ground (arith, e))

-- Where the limit is accepted, no answer of the project list, of a project, its traces or its spans has more
-- entries than the limit, errors and last pages included; the spans of one trace come without a limit.
pub serve-limit :
    (o : Outside) (db : Db) (params : Values) (limit : ℕ) (identifier : String)
    (route : ProjectRoute)
    → page_limit (codes (get "limit" params)) ≡ some limit
    → is_paged route ≡ true
    → (size (project_list o db params).content ≤ limit)
      × (size (serve o db identifier params route).content ≤ limit)
unfolding project_list project_list_within serve
serve-limit o db params limit identifier route l e = (
  rw (l, project_list_within) (projects-short o db params limit _),
  by_project (find_by_identifier o.queries.parse_time o.zero_time identifier db.projects),
)
  where
    by_project :
        (f : Found) → size (with_project (serve_project o db params route) f).content ≤ limit
    by_project not_found = unfold with_project write_error size in omega arith
    by_project scan_failed = unfold with_project write_error size in omega arith
    by_project (found p) = unfold with_project in serve_project-short o db params limit l route p e
