-- ===== src/Store/Batch.antt =====
-- internal/store/span_batch.go: many spans under one transaction.
pub mod Calm
pub mod Loop
pub mod Stored
pub mod Returns
use tracewell.Prelude.{ℕ, String, List, [], ◌∷◌, map, Option, none, some}
use tracewell.Trace.{Span}
use tracewell.Store.Tables.{Db}
use tracewell.Store.Session.{
  Error, wrapped, Result, ok, err, hangs, Session, Tx, ◌>>=◌, wrap, query, exec,
}
use tracewell.Store.Columns.{Outside}
use tracewell.Store.Insert.{insert_span_tx}

pub record Ingest : Type 0 where
  pub span : Span
  pub project : String

-- a result dropped by `_, _ =`
unfoldable pub ignore : Tx (Unit {0}) → Session → Session
ignore m s = (m s).1

-- ROLLBACK TO insert_span, RELEASE insert_span, with their own errors ignored
unfoldable pub abandon : Db → Session → Session
unfolding ignore
abandon before s = ignore (exec λ db. db) (ignore (exec λ db. before) s)

unfoldable pub close_savepoint : Db → Result (Unit {0}) → Session → Result (Unit {0}) × Session
unfolding abandon
close_savepoint before (ok tt) s = wrap "release savepoint" (exec λ db. db) s
close_savepoint before (err e) s = (err e, abandon before s)
close_savepoint before hangs s = (hangs, s)

-- the result of one span, before those of the spans after it
unfoldable pub continue_with :
    Result (Unit {0})
    → Option (List (Result (Unit {0})) × Session)
    → Option (List (Result (Unit {0})) × Session)
continue_with hangs rest = none
continue_with r none = none
continue_with r (some (rs, s)) = some (r ∷ rs, s)

-- fmt.Errorf("commit: %w", err), where there is no error yet
unfoldable pub commit_error : Error → Result (Unit {0}) → Result (Unit {0})
commit_error e (ok tt) = err (wrapped "commit" e)
commit_error e r = r

-- tx.Commit; where it fails, SQLite is taken to roll the transaction back
unfoldable pub committed :
    Db → List (Result (Unit {0})) → Result (Unit {0}) → Session → List (Result (Unit {0})) × Session
unfolding commit_error
committed before rs (err e) s = (map (commit_error e) rs, record s { db = before })
committed before rs r s = (rs, s)

unfoldable pub finish_batch :
    Db → Option (List (Result (Unit {0})) × Session) → Option (List (Result (Unit {0})) × Session)
unfolding committed
finish_batch before none = none
finish_batch before (some (rs, s)) =
    some (committed before rs (exec (λ db. db) s).0 (exec (λ db. db) s).1)

module _ (o : Outside) where
  -- insertSpanSavepoint
  unfoldable pub insert_span_savepoint : ℕ → String → Span → String → Tx (Unit {0})
  unfolding close_savepoint
  insert_span_savepoint steps now span project = do
    before ← wrap "savepoint" (query λ db. db)
    λ s.
        close_savepoint before (insert_span_tx o steps now span project s).0
          (insert_span_tx o steps now span project s).1

  -- the loop of InsertSpans, with the result of each span; `none` if an insert never ends
  unfoldable pub insert_all :
      ℕ → String → List Ingest → Session → Option (List (Result (Unit {0})) × Session)
  unfolding insert_span_savepoint continue_with
  insert_all steps now [] s = some ([], s)
  insert_all steps now (item ∷ items) s =
      let (r, s') = insert_span_savepoint steps now item.span item.project s in
      continue_with r (insert_all steps now items s')

  -- from the result of BeginTx on, which reads the tables that a rollback restores
  unfoldable pub begun :
      ℕ → String → List Ingest → Result Db → Session → Option (List (Result (Unit {0})) × Session)
  unfolding insert_all finish_batch
  begun steps now items (ok before) s = finish_batch before (insert_all steps now items s)
  begun steps now items (err e) s = some (map (λ i. err (wrapped "begin transaction" e)) items, s)
  begun steps now items hangs s = none

  -- InsertSpans, with nil and error entries as results; `none` if an insert never ends
  unfoldable pub insert_spans :
      ℕ → String → List Ingest → Session → Option (List (Result (Unit {0})) × Session)
  unfolding begun
  insert_spans steps now items s =
      begun steps now items (query (λ db. db) s).0 (query (λ db. db) s).1
