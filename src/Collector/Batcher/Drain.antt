-- ===== src/Collector/Batcher/Drain.antt =====
-- After Close the writer drains the buffer and exits.
use tracewell.Prelude.{
  ℕ, String, true, false, List, [], ◌∷◌, ◌++◌, some, ◌≡◌, refl, leb, length, append_assoc,
  append-nil, arith, Option-cases, Bool-cases, inl, inr, All,
}
use tracewell.Trace.{Span}
use tracewell.Store.Session.{Session, Result, ok, err, hangs}
use tracewell.Store.Tables.{Db}
use tracewell.Store.Correct.{FreshRowids, Fits}
use tracewell.Store.Sound.{IsSound}
use tracewell.Store.Insert.{insert_span}
use tracewell.Store.Insertion.{Inserts, insert_span-IsSound}
use tracewell.Store.Columns.{Outside}
use tracewell.Collector.Batcher.{
  SpanWithProject, Batcher, flush_size, inserted, insert_one, flush, flushed, on_receive, exited,
  on_closed, receives, exits, Runs, start, then_,
}

-- The batcher that Close waits for.
abbrev pub finished : Batcher → Session → Batcher
finished b s = record b { queue = []; batch = []; done = true; store = s }

module _ (o : Outside) (steps : ℕ) (now : String) where
  flush-split :
      (xs ys : List SpanWithProject) (s s' : Session)
      → flush o steps now (xs ++ ys) s ≡ some s'
      → (s₁ : Session) × (flush o steps now xs s ≡ some s₁) × (flush o steps now ys s₁ ≡ some s')
  unfolding flush
  flush-split [] ys s s' h = (s, refl, h)
  flush-split (p ∷ xs) ys s s' h = elim (Option-cases (insert_one o steps now p s)) [
    | inl e ↦ absurd (ground arith)
    | inr (s₁, e) ↦ let (s₂, u, v) = flush-split xs ys s₁ s' (ground arith) in (s₂, ground arith, v)
  ]

  drain_from :
      (q : List SpanWithProject) (b₀ b : Batcher) (s' : Session)
      → Runs o steps now b₀ b []
      → b.queue ≡ q
      → b.closed ≡ true
      → b.done ≡ false
      → flush o steps now (b.batch ++ q) b.store ≡ some s'
      → Runs o steps now b₀ (finished b s') []
  drain_from [] b₀ b s' r e c d h =
      then_ {b'' = finished b s'} r
        (exits d e c (unfold on_closed exited in ground (arith, append-nil b.batch, e))) refl
  drain_from (p ∷ q) b₀ b s' r e c d h =
      elim (Bool-cases (leb flush_size (length (b.batch ++ p ∷ [])))) [
        | inl full ↦
            let (s₁, u, v) = flush-split (b.batch ++ p ∷ []) q b.store s' (simp append_assoc h) in
            drain_from q b₀ (record b { queue = q; batch = []; store = s₁ }) s'
              (then_ {b'' = record b { queue = q; batch = []; store = s₁ }} r
                (receives p q d e (unfold on_receive flushed in ground arith)) refl)
              refl c d v
        | inr fits ↦
            drain_from q b₀ (record b { queue = q; batch = b.batch ++ p ∷ [] }) s'
              (then_ {b'' = record b { queue = q; batch = b.batch ++ p ∷ [] }} r
                (receives p q d e (unfold on_receive in ground arith)) refl)
              refl c d (simp append_assoc h)
      ]

  drains :
      (b : Batcher) (s' : Session)
      → b.closed ≡ true
      → b.done ≡ false
      → flush o steps now (b.batch ++ b.queue) b.store ≡ some s'
      → Runs o steps now b (finished b s') []
  drains b s' c d h = drain_from b.queue b b s' start refl c d h

  -- an insert that keeps the tables sound comes to an end
  inserted-Inserts :
      (rank : String → ℕ) (span : Span) (before : Db) (r : Result (Unit {0}) × Session)
      → Inserts rank span before r
      → (s : Session) × (inserted o steps now r ≡ some s) × IsSound rank s.db.spans
  unfolding inserted
  inserted-Inserts rank span before (ok tt, s) h = (s, refl, h.0)
  inserted-Inserts rank span before (err e, s) h = (s, refl, h.0)
  inserted-Inserts rank span before (hangs, s) (sound, inl (e, _)) = absurd (ground (arith, e))
  inserted-Inserts rank span before (hangs, s) (sound, inr (e, f, _)) = absurd (ground (arith, f))

  pub flush_ends :
      (rank : String → ℕ) (batch : List SpanWithProject) (s : Session)
      → FreshRowids o
      → All (λ p. Fits rank steps p.span) batch
      → IsSound rank s.db.spans
      → (s' : Session) × (flush o steps now batch s ≡ some s') × IsSound rank s'.db.spans
  unfolding flush insert_one
  flush_ends rank [] s fresh fits sound = (s, refl, sound)
  flush_ends rank (p ∷ batch) s fresh fits sound =
      let (s₁, e, sound₁) =
        inserted-Inserts rank p.span s.db (insert_span o steps now p.span p.project s)
          (insert_span-IsSound o rank steps now p.span p.project s fresh fits.0 sound) in
      let (s₂, e₂, sound₂) = flush_ends rank batch s₁ fresh fits.1 sound₁ in
      (s₂, ground (arith, e, e₂), sound₂)

  -- Once Close has run, the writer's own turns take it to its exit with an empty buffer and an empty batch,
  -- and with every span that it held handed to InsertSpan in order; the tables are still sound. It is stated
  -- for rowids that are new, a sound table, and held spans whose ranks are above their parents', with
  -- more steps than the parents' ranks.
  pub close_drains :
      (rank : String → ℕ) (b : Batcher)
      → FreshRowids o
      → b.closed ≡ true
      → b.done ≡ false
      → All (λ p. Fits rank steps p.span) (b.batch ++ b.queue)
      → IsSound rank b.store.db.spans
      → (s : Session) × (flush o steps now (b.batch ++ b.queue) b.store ≡ some s)
        × Runs o steps now b (finished b s) []
        × IsSound rank s.db.spans
  close_drains rank b fresh c d fits sound =
      let (s, e, sound') = flush_ends rank (b.batch ++ b.queue) b.store fresh fits sound in
      (s, e, drains b s c d e, sound')
