-- ===== src/Store/Insert.antt =====
-- internal/store/span_insert.go: the insertion of one span.
use mathlib.Core.Option
use tracewell.Prelude.{
  ℕ, zero, suc, String, List, [], ◌∷◌, map, Option, none, some, str_eq, str_ltb, if◌then◌else◌,
}
use tracewell.Trace.{Span, kind_text, status_text}
use tracewell.Store.Tables.{
  ProjectRow, TraceRow, SpanRow, Db, find_project, find_trace, set_trace_start, set_trace_end,
  sum_children, find_span, has_span, add_to_spans,
}
use tracewell.Store.Totals.{Totals, ◌⊕◌}
use tracewell.Store.Session.{
  Result, ok, Session, Tx, ◌>>=◌, ◌>>◌, pure, gets, wrap, statement, query, exec, when, cache_get,
  cache_put,
}
use tracewell.Store.Columns.{
  Outside, SpanColumns, span_to_columns, self_totals, null_string, null_sum,
}

-- The recursive CTE of propagateToAncestors: the rowids that the walk from `pid` along `parent_id`
-- finds within a trace. UNION ALL keeps no record of what it found, so a cycle has no end: `none`
-- is a walk that takes more than the given steps.
unfoldable pub ancestors : ℕ → ℕ → Option String → List SpanRow → Option (List ℕ)
ancestors steps t none rows = some []
ancestors zero t (some pid) rows = none
ancestors (suc steps) t (some pid) rows = elim (find_span t pid rows) [
  | none ↦ some []
  | some r ↦ Option.map (λ ids. r.id ∷ ids) (ancestors steps t r.parent_id rows)
]

-- the UPDATE of propagateToAncestors, with the walk that it reads its ids from
unfoldable pub update_ancestors : ℕ → ℕ → String → Totals → Db → Option (Unit {0} × Db)
update_ancestors steps t parent d db =
    Option.map (λ ids. (tt, record db { spans = add_to_spans ids d db.spans }))
      (ancestors steps t (some parent) db.spans)

-- propagateToAncestors
unfoldable pub propagate_to_ancestors : ℕ → ℕ → String → Totals → Tx (Unit {0})
unfolding update_ancestors
propagate_to_ancestors steps t parent d =
    if str_eq parent "" then pure tt else statement (update_ancestors steps t parent d)

unfoldable pub after_insert : ℕ → Span → ℕ → Totals → ℕ → Tx (Unit {0})
unfolding propagate_to_ancestors
after_insert steps span t cum zero = pure tt
after_insert steps span t cum (suc n) =
    wrap "propagate to ancestors" (propagate_to_ancestors steps t span.parent_id cum)

-- The tables as they were before, unless the transaction ends well. After an error of insertSpanTx that is the
-- deferred tx.Rollback; after a COMMIT that fails tx.Rollback does nothing, and it is SQLite that is taken to
-- roll the transaction back.
unfoldable pub restored : Db → Result (Unit {0}) → Session → Result (Unit {0}) × Session
restored before (ok tt) s = (ok tt, s)
restored before r s = (r, record s { db = before })

unfoldable pub restore_unless_ok : Db → Tx (Unit {0}) → Tx (Unit {0})
unfolding restored
restore_unless_ok before m s = restored before (m s).0 (m s).1

module _ (o : Outside) where
  -- res.LastInsertId, which may fail too
  unfoldable pub last_insert_id : ℕ → Tx ℕ
  last_insert_id id = query λ _. id

  unfoldable pub insert_project : String → String → Db → ℕ × Db
  insert_project now name db =
      let id = o.next_rowid (map (λ p. p.id) db.projects) in
      (
        id,
        record db {
          projects =
              record { id = id; name = name; created_at = now; updated_at = now } ∷ db.projects;
        },
      )

  unfoldable pub insert_trace : Span → ℕ → Db → ℕ × Db
  insert_trace span project db =
      let id = o.next_rowid (map (λ t. t.id) db.traces) in
      (
        id,
        record db {
          traces =
              record {
                id = id;
                project_rowid = project;
                trace_id = span.trace_id;
                session_id = null_string span.session_id;
                start_time = o.format_time span.start_time;
                end_time = o.format_time span.end_time;
              }
              ∷ db.traces;
        },
      )

  unfoldable pub found_project : String → String → Option ProjectRow → Tx ℕ
  unfolding insert_project last_insert_id
  found_project now name (some p) = pure p.id
  found_project now name none = do
    id ← statement λ db. some (insert_project now name db)
    last_insert_id id

  unfoldable pub cached_project : String → String → Option ℕ → Tx ℕ
  unfolding found_project
  cached_project now name (some id) = pure id
  cached_project now name none = do
    found ← query λ db. find_project name db.projects
    id ← found_project now name found
    cache_put name id
    pure id

  -- ensureProject
  unfoldable pub ensure_project : String → String → Tx ℕ
  unfolding cached_project
  ensure_project now name = do
    cached ← gets λ s. cache_get name s.cache
    cached_project now name cached

  unfoldable pub found_trace : Span → ℕ → Option TraceRow → Tx ℕ
  unfolding insert_trace last_insert_id
  found_trace span project (some t) = do
    when (str_ltb (o.format_time span.start_time) t.start_time) (
        exec λ db. record db {
          traces = set_trace_start t.id (o.format_time span.start_time) db.traces;
        })
    when (str_ltb t.end_time (o.format_time span.end_time)) (
        exec
          λ db. record db { traces = set_trace_end t.id (o.format_time span.end_time) db.traces })
    pure t.id
  found_trace span project none = do
    id ← statement λ db. some (insert_trace span project db)
    last_insert_id id

  -- upsertTrace
  unfoldable pub upsert_trace : Span → ℕ → Tx ℕ
  unfolding found_trace
  upsert_trace span project = do
    found ← query λ db. find_trace span.trace_id db.traces
    found_trace span project found

  -- the row that the INSERT of insertSpanTx writes
  unfoldable pub new_row : Span → SpanColumns → ℕ → Totals → List SpanRow → SpanRow
  new_row span cols t cum rows = record {
    id = o.next_rowid (map (λ r. r.id) rows);
    trace_rowid = t;
    span_id = span.span_id;
    parent_id = null_string span.parent_id;
    name = span.name;
    span_kind = kind_text span.span_kind;
    start_time = o.format_time span.start_time;
    end_time = o.format_time span.end_time;
    attributes = cols.attributes_json;
    events = cols.events_json;
    status_code = status_text span.status_code;
    status_message = span.status_message;
    cumulative = cum;
    llm_tokens_prompt = cols.token_prompt;
    llm_tokens_completion = cols.token_comp;
  }

  -- INSERT … ON CONFLICT(span_id) DO NOTHING, with the number of rows affected
  unfoldable pub insert_row : Span → SpanColumns → ℕ → Totals → Db → ℕ × Db
  unfolding new_row
  insert_row span cols t cum db =
      if has_span span.span_id db.spans
      then (0, db)
      else (1, record db { spans = new_row span cols t cum db.spans ∷ db.spans })

  -- insertSpanTx
  unfoldable pub insert_span_tx : ℕ → String → Span → String → Tx (Unit {0})
  unfolding span_to_columns insert_row after_insert
  insert_span_tx steps now span project = do
    cols ← wrap "serialize span" (span_to_columns o span)
    p ← wrap "ensure project" (ensure_project now project)
    t ← wrap "upsert trace" (upsert_trace span p)
    children ← wrap "sum children" (query λ db. sum_children t span.span_id db.spans)
    let cum = self_totals span ⊕ null_sum children
    affected ← wrap "insert span" (statement λ db. some (insert_row span cols t cum db))
    after_insert steps span t cum affected

  -- InsertSpan: BeginTx, insertSpanTx, tx.Commit
  unfoldable pub insert_span : ℕ → String → Span → String → Tx (Unit {0})
  unfolding restore_unless_ok
  insert_span steps now span project = do
    before ← query λ db. db
    restore_unless_ok before (insert_span_tx steps now span project >> exec λ db. db)
