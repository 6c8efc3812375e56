-- ===== src/Store/Keeps/Whole.antt =====
-- What InsertSpan of internal/store/span_insert.go, with its rollback, leaves in the table.
use tracewell.Prelude.{ℕ, String, true, some, ◌≡◌, sym, subst, arith}
use tracewell.Trace.{Span}
use tracewell.Store.Tables.{Db, has_span}
use tracewell.Store.Session.{Result, ok, err, hangs, Session, Tx, ◌>>◌, exec}
use tracewell.Store.Columns.{Outside}
use tracewell.Store.Insert.{restored, restore_unless_ok, insert_span_tx, insert_span}
use tracewell.Store.Insertion.{begin_cases}
use tracewell.Store.Keeps.{Has, Keeps, Keeps-bind, Adds-first, Keeps-statement}
use tracewell.Store.Keeps.Inserting.{insert_span_tx-Keeps, insert_span_tx-Adds}

commit-Keeps : (x : String) → Keeps x (exec λ db. db)
commit-Keeps x =
    Keeps-statement (λ db. some (tt, db))
      λ db db' a e i.
        let same : db ≡ db' = ground (arith, e) in subst (λ d. has_span x d.spans ≡ true) same i

restored-Has :
    (x : String) (before : Db) (p : Result (Unit {0}) × Session)
    → has_span x before.spans ≡ true
    → Has x p.1
    → Has x (restored before p.0 p.1).1
unfolding restored
restored-Has x before (ok tt, s) b i = i
restored-Has x before (err e, s) b i = b
restored-Has x before (hangs, s) b i = b

restored-ok :
    (x : String) (before : Db) (p : Result (Unit {0}) × Session)
    → (p.0 ≡ ok tt → Has x p.1)
    → (restored before p.0 p.1).0 ≡ ok tt
    → Has x (restored before p.0 p.1).1
unfolding restored
restored-ok x before (ok tt, s) h e = h e
restored-ok x before (err y, s) h e = absurd (ground (arith, e))
restored-ok x before (hangs, s) h e = absurd (ground (arith, e))

module _ (o : Outside) (steps : ℕ) (now : String) (span : Span) (project : String) where
  abbrev tx : Tx (Unit {0})
  tx = insert_span_tx o steps now span project >> exec λ db. db

  pub insert_span-Keeps : (x : String) → Keeps x (insert_span o steps now span project)
  unfolding insert_span restore_unless_ok
  insert_span-Keeps x = record {
    keeps = λ s i.
        begin_cases (λ p. Has x p.1) (λ before. restore_unless_ok before tx) s
          (λ s' e. restored-Has x s.db (tx s') i (
            (Keeps-bind (insert_span_tx-Keeps o steps x now span project)
                (λ a. commit-Keeps x)).keeps
              s' (subst (λ (d : Db). has_span x d.spans ≡ true) (sym e) i)))
          (λ s' e. subst (λ (d : Db). has_span x d.spans ≡ true) (sym e) i);
  }

  pub insert_span-Adds :
      (s : Session)
      → (insert_span o steps now span project s).0 ≡ ok tt
      → Has span.span_id (insert_span o steps now span project s).1
  unfolding insert_span restore_unless_ok
  insert_span-Adds s =
      begin_cases (λ p. p.0 ≡ ok tt → Has span.span_id p.1) (λ before. restore_unless_ok before tx)
        s
        (λ s' e q.
          restored-ok span.span_id s.db (tx s')
            (λ h.
              (Adds-first (insert_span_tx-Adds o steps now span project)
                  (λ a. commit-Keeps span.span_id)).adds
                s' tt h)
            q)
        (λ s' e q. absurd (ground (arith, q)))
