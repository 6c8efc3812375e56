-- ===== src/Store/Batch/Returns.antt =====
-- The end of InsertSpans of internal/store/span_batch.go.
use tracewell.Prelude.{
  ℕ, Bool, String, List, [], ◌∷◌, Option, some, ◌≡◌, ◌≢◌, refl, ap, ◌∙◌, arith, All,
}
use tracewell.Trace.{Span}
use tracewell.Store.Tables.{Db}
use tracewell.Store.Session.{
  Result, ok, err, hangs, Session, query, exec, statement, outcome, attempt,
}
use tracewell.Store.Columns.{Outside}
use tracewell.Store.Insert.{insert_span_tx}
use tracewell.Store.Correct.{FreshRowids, Fits, Done, insert_span_tx-Ensures}
use tracewell.Store.Sound.{IsSound}
use tracewell.Store.Ensures.{Returns}
use tracewell.Store.Batch.Calm.{insert_span_tx-IsCalm}
use tracewell.Store.Batch.{
  Ingest, ignore, abandon, close_savepoint, continue_with, insert_span_savepoint, insert_all,
  committed, finish_batch, begun, insert_spans,
}

-- A span that came to an end, in sound tables, with no statement refused.
pub record Settled (rank : String → ℕ) (p : Result (Unit {0}) × Session) : Type 0 where
  pub ended : p.0 ≢ hangs
  pub sound : IsSound rank p.1.db.spans
  pub calm : p.1.faults ≡ []

-- a statement where none is refused
exec-calm :
    (f : Db → Db) (s : Session) → s.faults ≡ [] → exec f s ≡ (ok tt, record s { db = f s.db })
unfolding statement attempt outcome
exec-calm f s z = go s.faults z
  where
    go :
        (faults : List Bool)
        → faults ≡ []
        → attempt (λ db. some (tt, f db)) s faults ≡ (ok tt, record s { db = f s.db })
    go [] z = refl
    go (x ∷ faults) z = absurd (ground (arith, z))

query-calm : (s : Session) → s.faults ≡ [] → query (λ db. db) s ≡ (ok s.db, s)
unfolding statement attempt outcome
query-calm s z = go s.faults z
  where
    go : (faults : List Bool) → faults ≡ [] → attempt (λ db. some (db, db)) s faults ≡ (ok s.db, s)
    go [] z = refl
    go (x ∷ faults) z = absurd (ground (arith, z))

abandon-calm :
    (before : Db) (s : Session) → s.faults ≡ [] → abandon before s ≡ record s { db = before }
unfolding abandon ignore
abandon-calm before s z =
    ap (λ (p : Result (Unit {0}) × Session). (exec (λ db. db) p.1).1) (exec-calm (λ db. before) s z)
    ∙ ap (λ (p : Result (Unit {0}) × Session). p.1)
        (exec-calm (λ db. db) (record s { db = before }) z)

module _ (o : Outside) (fresh : FreshRowids o) (rank : String → ℕ) (steps : ℕ) (now : String) where
  close-Settled :
      (span : Span) (fits : Fits rank steps span) (before : Db) (r : Result (Unit {0}))
      (s : Session)
      → IsSound rank before.spans
      → Returns (Done o fresh rank steps span fits) r s
      → s.faults ≡ []
      → Settled rank (close_savepoint before r s)
  unfolding close_savepoint
  close-Settled span fits before (ok a) s b h z =
      rw (exec-calm (λ db. db) s z)
        (record { ended = λ e. absurd (ground (arith, e)); sound = h.0; calm = z })
  close-Settled span fits before (err x) s b h z =
      rw (abandon-calm before s z)
        (record { ended = λ e. absurd (ground (arith, e)); sound = b; calm = z })
  close-Settled span fits before hangs s b h z = absurd h

  savepoint-Settled :
      (span : Span) (project : String) (s : Session)
      → Fits rank steps span
      → IsSound rank s.db.spans
      → s.faults ≡ []
      → Settled rank (insert_span_savepoint o steps now span project s)
  unfolding insert_span_savepoint
  savepoint-Settled span project s fits sound z = rw (query-calm s z) (
      close-Settled span fits s.db (insert_span_tx o steps now span project s).0
        (insert_span_tx o steps now span project s).1 sound
        (insert_span_tx-Ensures o fresh rank steps span fits now project s sound).holds
        ((insert_span_tx-IsCalm o steps now span project).calm s z))

  -- What a loop or a transaction that comes to an end leaves.
  abbrev pub Ends : Option (List (Result (Unit {0})) × Session) → Type 0
  Ends r =
      (rs : List (Result (Unit {0}))) × (s' : Session) × (r ≡ some (rs, s'))
      × IsSound rank s'.db.spans
      × (s'.faults ≡ [])

  continue-Ends :
      (r : Result (Unit {0})) (rest : Option (List (Result (Unit {0})) × Session))
      → r ≢ hangs
      → Ends rest
      → Ends (continue_with r rest)
  unfolding continue_with
  continue-Ends (ok a) rest n (rs, s', e, sound, z) = (ok a ∷ rs, s', rw e refl, sound, z)
  continue-Ends (err x) rest n (rs, s', e, sound, z) = (err x ∷ rs, s', rw e refl, sound, z)
  continue-Ends hangs rest n h = absurd (n refl)

  insert_all-Ends :
      (items : List Ingest) (s : Session)
      → All (λ i. Fits rank steps i.span) items
      → IsSound rank s.db.spans
      → s.faults ≡ []
      → Ends (insert_all o steps now items s)
  unfolding insert_all
  insert_all-Ends [] s fits sound z = ([], s, refl, sound, z)
  insert_all-Ends (item ∷ items) s fits sound z =
      let one = savepoint-Settled item.span item.project s fits.0 sound z in
      continue-Ends (insert_span_savepoint o steps now item.span item.project s).0
        (insert_all o steps now items
          (insert_span_savepoint o steps now item.span item.project s).1)
        one.ended
        (insert_all-Ends items (insert_span_savepoint o steps now item.span item.project s).1 fits.1
          one.sound one.calm)

  finish-Ends :
      (before : Db) (r : Option (List (Result (Unit {0})) × Session))
      → Ends r
      → Ends (finish_batch before r)
  unfolding finish_batch committed
  finish-Ends before r (rs, s, e, sound, z) =
      rw (e, finish_batch, exec-calm (λ db. db) s z) (rs, s, refl, sound, z)

-- InsertSpans comes to an end with a result for its batch, and leaves a sound table, where the driver refuses no
-- statement; none is to be refused afterwards either. It is stated for rowids that are new, a sound table, and spans
-- whose ranks are above their parents', with more steps than the parents' ranks.
pub insert_spans-returns :
    (o : Outside) (rank : String → ℕ) (steps : ℕ) (now : String) (items : List Ingest) (s : Session)
    → FreshRowids o
    → All (λ i. Fits rank steps i.span) items
    → IsSound rank s.db.spans
    → s.faults ≡ []
    → (rs : List (Result (Unit {0}))) × (s' : Session) × (insert_spans o steps now items s
        ≡ some (rs, s'))
      × IsSound rank s'.db.spans
      × (s'.faults ≡ [])
unfolding insert_spans begun
insert_spans-returns o rank steps now items s fresh fits sound z =
    rw (query-calm s z, begun)
      (finish-Ends o fresh rank steps now s.db (insert_all o steps now items s)
        (insert_all-Ends o fresh rank steps now items s fits sound z))
