-- ===== src/Collector/Batcher/Delivered.antt =====
-- What becomes of the spans that internal/collector/batcher.go accepts, in calls of InsertSpan.
use tracewell.Prelude.{
  ℕ, ◌<◌, ◌≤◌, true, List, [], ◌∷◌, ◌++◌, Option, none, some, length, String, ◌≡◌, refl, sym, subst,
  arith, Option-cases, Bool-cases, false, ◌⊎◌, inl, inr,
}
use tracewell.Store.Session.{Session, Error, Result, ok, err, hangs}
use tracewell.Store.Columns.{Outside}
use tracewell.Store.Insert.{insert_span}
use tracewell.Store.Keeps.{Has}
use tracewell.Store.Keeps.Whole.{insert_span-Keeps, insert_span-Adds}
use tracewell.Collector.Batcher.{
  SpanWithProject, Batcher, buffer_capacity, flush_size, new_batcher, inserted, insert_one, flush,
  Runs,
}
use tracewell.Collector.Batcher.Order.{Runs-Accounts}

module _ (o : Outside) (steps : ℕ) (now : String) where
  -- InsertSpan called on the spans one after the other, each on what the one before left, with what each
  -- returned: nil or an error.
  abbrev pub Calls : List SpanWithProject → List (Option Error) → Session → Session → Type 0
  Calls [] [] s s' = s ≡ s'
  Calls (p ∷ ps) (none ∷ rs) s s' =
      ((insert_span o steps now p.span p.project s).0 ≡ ok tt)
      × Calls ps rs (insert_span o steps now p.span p.project s).1 s'
  Calls (p ∷ ps) (some e ∷ rs) s s' =
      ((insert_span o steps now p.span p.project s).0 ≡ err e)
      × Calls ps rs (insert_span o steps now p.span p.project s).1 s'
  Calls _ _ s s' = ⊥

  called :
      (p : SpanWithProject) (r : Result (Unit {0}) × Session) (s' : Session)
      → inserted o steps now r ≡ some s'
      → ((r.0 ≡ ok tt) ⊎ ((e : Error) × (r.0 ≡ err e))) × (r.1 ≡ s')
  unfolding inserted
  called p (ok a, s) s' h = (inl refl, ground (arith, h))
  called p (err e, s) s' h = (inr (e, refl), ground (arith, h))
  called p (hangs, s) s' h = absurd (ground (arith, h))

  -- flush is such a series of calls
  flush-Calls :
      (batch : List SpanWithProject) (s s' : Session)
      → flush o steps now batch s ≡ some s'
      → (rs : List (Option Error)) × Calls batch rs s s'
  unfolding flush insert_one
  flush-Calls [] s s' h = ([], ground (arith, h))
  flush-Calls (p ∷ batch) s s' h = elim (Option-cases (insert_one o steps now p s)) [
    | inl e ↦ absurd (ground (arith, h, e))
    | inr (s₁, e) ↦
        let (ended, same) = called p (insert_span o steps now p.span p.project s) s₁ e in
        let (rs, rest) = flush-Calls batch s₁ s' (ground (arith, h, e)) in
        let rest' = subst (λ x. Calls batch rs x s') (sym same) rest in
        elim ended [
          | inl done ↦ (none ∷ rs, (done, rest'))
          | inr (x, failed) ↦ (some x ∷ rs, (failed, rest'))
        ]
  ]

  -- Each span whose call returned nil has its id in the table.
  abbrev pub Stored : List SpanWithProject → List (Option Error) → Session → Type 0
  Stored [] [] s = Unit {0}
  Stored (p ∷ ps) (none ∷ rs) s = Has p.span.span_id s × Stored ps rs s
  Stored (p ∷ ps) (some e ∷ rs) s = Stored ps rs s
  Stored _ _ s = ⊥

  Calls-Keeps :
      (x : String) (ps : List SpanWithProject) (rs : List (Option Error)) (s s' : Session)
      → Calls ps rs s s'
      → Has x s
      → Has x s'
  Calls-Keeps x [] [] s s' c i = subst (Has x) c i
  Calls-Keeps x (p ∷ ps) (none ∷ rs) s s' c i =
      Calls-Keeps x ps rs (insert_span o steps now p.span p.project s).1 s' c.1
        ((insert_span-Keeps o steps now p.span p.project x).keeps s i)
  Calls-Keeps x (p ∷ ps) (some e ∷ rs) s s' c i =
      Calls-Keeps x ps rs (insert_span o steps now p.span p.project s).1 s' c.1
        ((insert_span-Keeps o steps now p.span p.project x).keeps s i)
  Calls-Keeps x [] (r ∷ rs) s s' c i = absurd c
  Calls-Keeps x (p ∷ ps) [] s s' c i = absurd c

  Calls-Stored :
      (ps : List SpanWithProject) (rs : List (Option Error)) (s s' : Session)
      → Calls ps rs s s'
      → Stored ps rs s'
  Calls-Stored [] [] s s' c = tt
  Calls-Stored (p ∷ ps) (none ∷ rs) s s' c = (
    Calls-Keeps p.span.span_id ps rs (insert_span o steps now p.span p.project s).1 s' c.1
        (insert_span-Adds o steps now p.span p.project s c.0),
    Calls-Stored ps rs (insert_span o steps now p.span p.project s).1 s' c.1,
  )
  Calls-Stored (p ∷ ps) (some e ∷ rs) s s' c =
      Calls-Stored ps rs (insert_span o steps now p.span p.project s).1 s' c.1
  Calls-Stored [] (r ∷ rs) s s' c = absurd c
  Calls-Stored (p ∷ ps) [] s s' c = absurd c

  -- What became of the spans that a batcher accepted.
  pub record Delivered (s : Session) (b : Batcher) (sent : List SpanWithProject) : Type 0 where
    pub handed : List SpanWithProject
    pub errors : List (Option Error)
    pub in_order : sent ≡ handed ++ (b.batch ++ b.queue)
    pub calls : Calls handed errors s b.store
    pub stored : Stored handed errors b.store
    pub buffer_bounded : length b.queue ≤ buffer_capacity
    pub batch_bounded : length b.batch < flush_size
    pub drained : (b.done ≡ false) ⊎ ((b.closed ≡ true) × (b.batch ≡ []) × (b.queue ≡ []))

  -- Whatever the turns of producers, ticker, Close and writer, the spans that the channel accepted are, in the order of
  -- acceptance and each once, those that InsertSpan was called on, then those in the writer's batch, then those
  -- in the buffer. The calls are in that order, one for each span, each on the store that the call before left,
  -- also where that call returned an error; the store is what the last of them left, and has every span whose
  -- call returned nil. The buffer holds at most 1000 spans and the batch fewer than 128, and once the writer has exited the channel is closed and
  -- both are empty.
  pub Runs-Delivered :
      (s : Session) {b : Batcher} {sent : List SpanWithProject}
      → Runs o steps now (new_batcher s) b sent
      → Delivered s b sent
  Runs-Delivered s {b} r =
      let a = Runs-Accounts o steps now s r in
      let (errors, calls) = flush-Calls a.written s b.store a.stored in
      record {
        handed = a.written;
        errors = errors;
        in_order = a.in_order;
        calls = calls;
        stored = Calls-Stored a.written errors s b.store calls;
        buffer_bounded = a.buffer_bounded;
        batch_bounded = a.batch_bounded;
        drained = elim (Bool-cases b.done) [ inl d ↦ inr (a.drained d) | inr d ↦ inl d ];
      }
