-- ===== src/Store/Batch/Loop.antt =====
-- The loop of InsertSpans in internal/store/span_batch.go, one savepoint after the other.
use tracewell.Prelude.{
  ℕ, Bool, true, false, String, List, [], ◌∷◌, map, Option, none, some, ◌≡◌, refl, subst, arith,
}
use tracewell.Trace.{Span}
use tracewell.Store.Tables.{Db, has_span}
use tracewell.Store.Session.{
  Error, Result, ok, err, hangs, Session, Tx, ◌>>=◌, wrap, query, exec, statement, outcome, attempt,
}
use tracewell.Store.Columns.{Outside}
use tracewell.Store.Insert.{insert_span_tx}
use tracewell.Store.Keeps.{Has, Keeps, Keeps-wrap, Keeps-statement, Adds-last}
use tracewell.Store.Keeps.Inserting.{insert_span_tx-Keeps, insert_span_tx-Adds}
use tracewell.Store.Batch.{
  Ingest, ignore, abandon, close_savepoint, continue_with, insert_span_savepoint, insert_all,
  commit_error, committed,
}

-- Each span without an error has its id in the table.
abbrev pub Reports : List Ingest → List (Result (Unit {0})) → Session → Type 0
Reports [] [] s = Unit {0}
Reports (i ∷ is) (r ∷ rs) s = (r ≡ ok tt → Has i.span.span_id s) × Reports is rs s
Reports _ _ s = ⊥

-- a statement that restores the tables as they were, or is refused
restored-Has :
    (x : String) (before : Db) (s : Session)
    → has_span x before.spans ≡ true
    → Has x s
    → Has x (exec (λ db. before) s).1
unfolding statement attempt outcome
restored-Has x before s b i = go s s.faults i
  where
    go :
        (s : Session) (faults : List Bool)
        → Has x s
        → Has x (attempt (λ db. some (tt, before)) s faults).1
    go s [] i = b
    go s (true ∷ faults) i = i
    go s (false ∷ faults) i = b

unchanged-Keeps : (x : String) → Keeps x (exec λ db. db)
unchanged-Keeps x =
    Keeps-statement (λ db. some (tt, db))
      λ db db' a e i.
        let same : db ≡ db' = ground (arith, e) in subst (λ d. has_span x d.spans ≡ true) same i

close-Has :
    (x : String) (before : Db) (r : Result (Unit {0})) (s : Session)
    → has_span x before.spans ≡ true
    → Has x s
    → Has x (close_savepoint before r s).1
unfolding close_savepoint abandon ignore
close-Has x before (ok tt) s b i = (Keeps-wrap "release savepoint" (unchanged-Keeps x)).keeps s i
close-Has x before (err e) s b i = (unchanged-Keeps x).keeps _ (restored-Has x before s b i)
close-Has x before hangs s b i = i

module _ (o : Outside) (steps : ℕ) (now : String) where
  -- one span, and what was in the table before it
  savepoint-Keeps :
      (x : String) (span : Span) (project : String)
      → Keeps x (insert_span_savepoint o steps now span project)
  unfolding insert_span_savepoint statement attempt outcome
  savepoint-Keeps x span project = record { keeps = λ s i. go s s.faults i }
    where
      body : Db → Tx (Unit {0})
      body before s =
          close_savepoint before (insert_span_tx o steps now span project s).0
            (insert_span_tx o steps now span project s).1

      inside : (s : Session) → Has x s → Has x (body s.db s).1
      inside s i =
          close-Has x s.db (insert_span_tx o steps now span project s).0
            (insert_span_tx o steps now span project s).1 i
            ((insert_span_tx-Keeps o steps x now span project).keeps s i)

      go :
          (s : Session) (faults : List Bool)
          → Has x s
          → Has x
              (((λ s'. wrap "savepoint" (λ _. attempt (λ db. some (db, db)) s faults) s') >>= body)
                s).1
      go s [] i = inside s i
      go s (true ∷ faults) i = i
      go s (false ∷ faults) i = inside (record s { faults = faults }) i

  close-Adds :
      (x : String) (before : Db) (r : Result (Unit {0})) (s : Session)
      → (r ≡ ok tt → Has x s)
      → (close_savepoint before r s).0 ≡ ok tt
      → Has x (close_savepoint before r s).1
  unfolding close_savepoint
  close-Adds x before (ok tt) s i e =
      (Keeps-wrap "release savepoint" (unchanged-Keeps x)).keeps s (i refl)
  close-Adds x before (err e') s i e = absurd (ground (arith, e))
  close-Adds x before hangs s i e = absurd (ground (arith, e))

  savepoint-Adds :
      (span : Span) (project : String) (s : Session)
      → (insert_span_savepoint o steps now span project s).0 ≡ ok tt
      → Has span.span_id (insert_span_savepoint o steps now span project s).1
  unfolding insert_span_savepoint
  savepoint-Adds span project s e =
      (Adds-last (wrap "savepoint" (query λ db. db)) λ before. record {
        adds = λ s' a q.
            close-Adds span.span_id before (insert_span_tx o steps now span project s').0
              (insert_span_tx o steps now span project s').1
              (λ h. (insert_span_tx-Adds o steps now span project).adds s' tt h) q;
      }).adds
        s tt e

  -- The loop of InsertSpans.
  pub record Looped (items : List Ingest) (s : Session) (rs : List (Result (Unit {0})))
      (s' : Session) : Type 0 where
    pub reported : Reports items rs s'
    pub kept : (x : String) → Has x s → Has x s'

  continue_with-some :
      (r : Result (Unit {0})) (rest : Option (List (Result (Unit {0})) × Session))
      (rs : List (Result (Unit {0}))) (s' : Session)
      → continue_with r rest ≡ some (rs, s')
      → (rs' : List (Result (Unit {0}))) × (rest ≡ some (rs', s')) × (rs ≡ r ∷ rs')
  unfolding continue_with
  continue_with-some hangs rest rs s' h = absurd (ground (arith, h))
  continue_with-some (ok a) none rs s' h = absurd (ground (arith, h))
  continue_with-some (err e) none rs s' h = absurd (ground (arith, h))
  continue_with-some (ok a) (some (rs', s'')) rs s' h =
      let same : s'' ≡ s' = ground (arith, h) in (rs', rw same refl, ground (arith, h))
  continue_with-some (err e) (some (rs', s'')) rs s' h =
      let same : s'' ≡ s' = ground (arith, h) in (rs', rw same refl, ground (arith, h))

  pub insert_all-Looped :
      (items : List Ingest) (s : Session) (rs : List (Result (Unit {0}))) (s' : Session)
      → insert_all o steps now items s ≡ some (rs, s')
      → Looped items s rs s'
  unfolding insert_all
  insert_all-Looped [] s rs s' h =
      let empty : rs ≡ [] = ground (arith, h) in
      let same : s ≡ s' = ground (arith, h) in
      rw empty (record { reported = tt; kept = λ x i. subst (Has x) same i })
  insert_all-Looped (item ∷ items) s rs s' h =
      let r = insert_span_savepoint o steps now item.span item.project s in
      let (rs', e, same) = continue_with-some r.0 (insert_all o steps now items r.1) rs s' h in
      let rest = insert_all-Looped items r.1 rs' s' e in
      rw same (record {
        reported = (
          λ q. rest.kept item.span.span_id (savepoint-Adds item.span item.project s q),
          rest.reported,
        );
        kept = λ x i. rest.kept x ((savepoint-Keeps x item.span item.project).keeps s i);
      })

  pub all_errors :
      (e : Error) (items : List Ingest) (s : Session) → Reports items (map (λ i. err e) items) s
  all_errors e [] s = tt
  all_errors e (i ∷ is) s = (λ q. absurd (ground (arith, q)), all_errors e is s)

  commit_errors :
      (e : Error) (items : List Ingest) (rs : List (Result (Unit {0}))) (s s' : Session)
      → Reports items rs s
      → Reports items (map (commit_error e) rs) s'
  unfolding commit_error
  commit_errors e [] [] s s' h = tt
  commit_errors e (i ∷ is) (ok a ∷ rs) s s' h =
      (λ q. absurd (ground (arith, q)), commit_errors e is rs s s' h.1)
  commit_errors e (i ∷ is) (err e' ∷ rs) s s' h =
      (λ q. absurd (ground (arith, q)), commit_errors e is rs s s' h.1)
  commit_errors e (i ∷ is) (hangs ∷ rs) s s' h =
      (λ q. absurd (ground (arith, q)), commit_errors e is rs s s' h.1)
  commit_errors e [] (r ∷ rs) s s' h = absurd h
  commit_errors e (i ∷ is) [] s s' h = absurd h

  pub committed-Looped :
      (items : List Ingest) (s₀ : Session) (rs : List (Result (Unit {0}))) (s : Session)
      → Looped items s₀ rs s
      → Looped items s₀
          (committed s₀.db rs (exec (λ db. db) s).0 (exec (λ db. db) s).1).0
          (committed s₀.db rs (exec (λ db. db) s).0 (exec (λ db. db) s).1).1
  unfolding committed statement attempt outcome
  committed-Looped items s₀ rs s h = go s s.faults h
    where
      go :
          (s : Session) (faults : List Bool)
          → Looped items s₀ rs s
          → Looped items s₀
              (committed s₀.db rs
                (attempt (λ db. some (tt, db)) s faults).0
                (attempt (λ db. some (tt, db)) s faults).1).0
              (committed s₀.db rs
                (attempt (λ db. some (tt, db)) s faults).0
                (attempt (λ db. some (tt, db)) s faults).1).1
      go s [] h = record { reported = h.reported; kept = h.kept }
      go s (false ∷ faults) h = record { reported = reported_in items rs h.reported; kept = h.kept }
        where
          reported_in :
              (items : List Ingest) (rs : List (Result (Unit {0})))
              → Reports items rs s
              → Reports items rs (record s { faults = faults })
          reported_in [] [] r = tt
          reported_in (i ∷ is) (q ∷ qs) r = (r.0, reported_in is qs r.1)
          reported_in [] (q ∷ qs) r = absurd r
          reported_in (i ∷ is) [] r = absurd r
      go s (true ∷ faults) h = record {
        reported = commit_errors _ items rs s _ h.reported;
        kept = λ x i. i;
      }
