-- ===== src/Command/Returns.antt =====
-- The end of batcher.Close and of run in cmd/tracewell/main.go.
use tracewell.Prelude.{
  ℕ, String, Bool, true, List, [], ◌∷◌, ◌++◌, Option, none, some, ◌≡◌, refl, sym, ap, ◌∙◌, subst,
  arith, All, Bool-cases, inl, inr, leb, ltb, length,
}
use tracewell.Store.Session.{Session}
use tracewell.Store.Columns.{Outside}
use tracewell.Store.Correct.{FreshRowids, Fits}
use tracewell.Store.Sound.{IsSound}
use tracewell.Collector.Batcher.{
  SpanWithProject, Batcher, flush_size, accepted, panicked, send, close, flush, flushed, on_receive,
  on_tick, exited, on_closed, sends, closes, receives, ticks, exits,
}
use tracewell.Collector.Batcher as Batcher
use tracewell.Collector.Batcher.Drain.{finished, close_drains}
use tracewell.Server.{ServerError}
use tracewell.Command.Invariant.{Holds, send-accepted}
use tracewell.Command.Reached.{Runs-Inv}
use tracewell.Command.{
  closing, returned, Process, launched, is_returned, writes, returns, Runs, start, then_,
}

nil_of_append : {A : Type 0} (xs ys : List A) → [] ≡ xs ++ ys → (xs ≡ []) × (ys ≡ [])
nil_of_append [] ys e = (refl, sym e)
nil_of_append (x ∷ xs) ys e = absurd (ground (arith, e))

module _ (o : Outside) (steps : ℕ) (now : String) where
  flushed-closed :
      (b b' : Batcher) (r : Option Session)
      → flushed o steps now b r ≡ some b'
      → b'.closed ≡ b.closed
  unfolding flushed
  flushed-closed b b' none h = absurd (ground (arith, h))
  flushed-closed b b' (some s) h = ground (arith, h)

  exited-closed :
      (b b' : Batcher) (r : Option Session)
      → exited o steps now b r ≡ some b'
      → b'.closed ≡ b.closed
  unfolding exited
  exited-closed b b' none h = absurd (ground (arith, h))
  exited-closed b b' (some s) h = ground (arith, h)

  -- a closed batcher stays closed
  Step-closed :
      {b b' : Batcher} {more : List SpanWithProject}
      → Batcher.Step o steps now b b' more
      → b.closed ≡ true
      → b'.closed ≡ true
  Step-closed {b} {b'} (sends p h) c =
      let (open_, x, y) = send-accepted p b b' h in absurd (ground (arith, open_, c))
  Step-closed {b} {b'} (closes h) c = unfold close in ap (λ (x : Batcher). x.closed) (sym h)
  Step-closed {b} {b'} (receives p rest d q h) c =
      unfold on_receive in
      elim (Bool-cases (leb flush_size (length (b.batch ++ p ∷ [])))) [
        | inl full ↦
            flushed-closed (record b { queue = rest }) b'
              (flush o steps now (b.batch ++ p ∷ []) b.store) (ground arith)
            ∙ c
        | inr fits ↦ ground arith
      ]
  Step-closed {b} {b'} (ticks d h) c =
      unfold on_tick in
      elim (Bool-cases (ltb 0 (length b.batch))) [
        | inl left ↦ flushed-closed b b' (flush o steps now b.batch b.store) (ground arith) ∙ c
        | inr nothing ↦ ground arith
      ]
  Step-closed {b} {b'} (exits d q c' h) c =
      unfold on_closed in exited-closed b b' (flush o steps now b.batch b.store) h ∙ c

  -- the writer's turns, as turns of the process
  written :
      (p : Process) (r : Option ServerError) {b : Batcher} {sent : List SpanWithProject}
      → p.phase ≡ closing r
      → p.batcher.closed ≡ true
      → Batcher.Runs o steps now p.batcher b sent
      → [] ≡ sent
      → Runs o steps now p (record p { batcher = b }) [] [] × (b.closed ≡ true)
  written p r at c Batcher.start e = (start, c)
  written p r at c (Batcher.then_ {b' = b'} {b'' = b''} {sent = sent} {more = more} rs st all) e =
      let (no_sent, no_more) = nil_of_append sent more (e ∙ all) in
      let (before, c') = written p r at c rs (sym no_sent) in
      let c'' = Step-closed st c' in
      (
        then_ {p' = record p { batcher = b' }} {taken = []} {sent = []} {more_taken = []}
            {more_sent = []} before
            (writes b'' (rw at (unfold is_returned in refl))
              (subst (Batcher.Step o steps now b' b'') no_more st) (c'' ∙ sym c') refl)
            refl refl,
        c'',
      )

closed_by :
    (r : Option ServerError) (closed done connected : Bool) (handlers : List (List SpanWithProject))
    (taken sent : List SpanWithProject)
    → Holds (closing r) closed done connected handlers taken sent
    → closed ≡ true
closed_by none closed done connected handlers taken sent h = h.0
closed_by (some e) closed done connected handlers taken sent h = h

-- Once run is in batcher.Close, however it came there, the writer's turns alone take it to its return with the error that
-- it had, and the tables are still sound. It is stated for rowids that are new, a sound table, and held spans whose
-- ranks are above their parents', with more steps than the parents' ranks.
pub closing-returns :
    (o : Outside) (steps : ℕ) (now : String) (s : Session) (rank : String → ℕ)
    (r : Option ServerError) (p : Process) (taken sent : List SpanWithProject)
    → Runs o steps now (launched s) p taken sent
    → p.phase ≡ closing r
    → FreshRowids o
    → All (λ q. Fits rank steps q.span) (p.batcher.batch ++ p.batcher.queue)
    → IsSound rank p.batcher.store.db.spans
    → (p' : Process) × Runs o steps now p p' [] []
      × (p'.phase ≡ returned r)
      × IsSound rank p'.batcher.store.db.spans
closing-returns o steps now s rank r p taken sent runs at fresh fits sound =
    let i = Runs-Inv o steps now s runs in
    let c = closed_by r p.batcher.closed p.batcher.done p.connected p.handlers taken sent (
      subst (λ ph. Holds ph p.batcher.closed p.batcher.done p.connected p.handlers taken sent) at
        i.holds) in
    elim (Bool-cases p.batcher.done) [
      | inl d ↦ (
        record p { phase = returned r },
        then_ start (returns r at d refl) refl refl,
        refl,
        sound,
      )
      | inr d ↦
          let (s', stored, drained, sound') =
            close_drains o steps now rank p.batcher fresh c d fits sound in
          let (before, c') = written o steps now p r at c drained refl in
          (
            record p { phase = returned r; batcher = finished p.batcher s' },
            then_ {p' = record p { batcher = finished p.batcher s' }} before
                (returns r at refl refl) refl refl,
            refl,
            sound',
          )
    ]
