-- ===== src/Collector/Batcher/Order.antt =====
-- The order of the spans that the channel of internal/collector/batcher.go accepted.
use tracewell.Prelude.{
  ℕ, ◌<◌, ◌≤◌, String, true, false, List, [], ◌∷◌, ◌++◌, Option, none, some, ◌≡◌, refl, sym, ap,
  ◌∙◌, subst, leb, ltb, length, length-append, append_assoc, append-nil, arith, Option-cases,
  Bool-cases, inl, inr,
}
use tracewell.Store.Session.{Session}
use tracewell.Store.Columns.{Outside}
use tracewell.Collector.Batcher.{
  SpanWithProject, Batcher, accepted, buffer_capacity, flush_size, new_batcher, send, close,
  insert_one, flush, flushed, on_receive, on_tick, exited, on_closed, Step, sends, closes, receives,
  ticks, exits, Runs, start, then_,
}

module _ (o : Outside) (steps : ℕ) (now : String) where
  -- Flushing two batches is flushing the first and then the second.
  pub flush-append :
      (xs ys : List SpanWithProject) (s s' : Session)
      → flush o steps now xs s ≡ some s'
      → flush o steps now (xs ++ ys) s ≡ flush o steps now ys s'
  unfolding flush
  flush-append [] ys s s' h = ground arith
  flush-append (p ∷ xs) ys s s' h = elim (Option-cases (insert_one o steps now p s)) [
    | inl e ↦ absurd (ground arith)
    | inr (s₁, e) ↦ ground (arith, flush-append xs ys s₁ s')
  ]

  -- What a batcher has done with the spans that it accepted.
  pub record Accounts (s : Session) (b : Batcher) (sent : List SpanWithProject) : Type 0 where
    pub written : List SpanWithProject
    pub in_order : sent ≡ written ++ (b.batch ++ b.queue)
    pub stored : flush o steps now written s ≡ some b.store
    pub buffer_bounded : length b.queue ≤ buffer_capacity
    pub batch_bounded : length b.batch < flush_size
    pub drained : b.done ≡ true → (b.closed ≡ true) × (b.batch ≡ []) × (b.queue ≡ [])

  send-accepted :
      (p : SpanWithProject) (b b' : Batcher)
      → send p b ≡ accepted b'
      → (b.closed ≡ false)
        × (length b.queue < buffer_capacity)
        × (b' ≡ record b { queue = b.queue ++ p ∷ [] })
  unfolding send
  send-accepted p b b' h = ground arith

  flushed-some :
      (b b' : Batcher) (r : Option Session)
      → flushed o steps now b r ≡ some b'
      → (s : Session) × (r ≡ some s) × (b' ≡ record b { batch = []; store = s })
  unfolding flushed
  flushed-some b b' none h = absurd (ground arith)
  flushed-some b b' (some s) h = (s, refl, ground arith)

  exited-some :
      (b b' : Batcher) (r : Option Session)
      → exited o steps now b r ≡ some b'
      → (s : Session) × (r ≡ some s) × (b' ≡ record b { batch = []; store = s; done = true })
  unfolding exited
  exited-some b b' none h = absurd (ground arith)
  exited-some b b' (some s) h = (s, refl, ground arith)

  -- Flushing the whole batch moves it to what is written.
  Accounts-flush :
      (s s' : Session) (b : Batcher) (sent : List SpanWithProject)
      → Accounts s b sent
      → flush o steps now b.batch b.store ≡ some s'
      → b.done ≡ false
      → Accounts s (record b { batch = []; store = s' }) sent
  Accounts-flush s s' b sent a e open_ = record {
    written = a.written ++ b.batch;
    in_order = a.in_order ∙ sym (append_assoc a.written b.batch b.queue);
    stored = flush-append a.written b.batch s b.store a.stored ∙ e;
    buffer_bounded = a.buffer_bounded;
    batch_bounded = omega arith;
    drained = λ d. absurd (ground arith);
  }

  Accounts-receive :
      (s : Session) (sent : List SpanWithProject) (b b' : Batcher)
      → Accounts s b sent
      → (p : SpanWithProject) (rest : List SpanWithProject) → b.done ≡ false
      → b.queue ≡ p ∷ rest
      → on_receive o steps now p (record b { queue = rest }) ≡ some b'
      → Accounts s b' sent
  unfolding on_receive
  Accounts-receive s sent b b' a p rest d q h =
      elim (Bool-cases (leb flush_size (length (b.batch ++ p ∷ [])))) [
        | inl full ↦
            let (s', f, e) =
              flushed-some (record b { queue = rest }) b'
                (flush o steps now (b.batch ++ p ∷ []) b.store) (ground arith) in
            rw e (record {
              written = a.written ++ (b.batch ++ p ∷ []);
              in_order = moved ∙ simp append_assoc;
              stored = flush-append a.written (b.batch ++ p ∷ []) s b.store a.stored ∙ f;
              buffer_bounded = omega (arith, ap length q, a.buffer_bounded);
              batch_bounded = omega arith;
              drained = λ d'. absurd (ground arith);
            })
        | inr fits ↦
            let e : b' ≡ record b { queue = rest; batch = b.batch ++ p ∷ [] } = ground arith in
            rw e (record {
              written = a.written;
              in_order = moved ∙ simp append_assoc;
              stored = a.stored;
              buffer_bounded = omega (arith, ap length q, a.buffer_bounded);
              batch_bounded = ground arith;
              drained = λ d'. absurd (ground arith);
            })
      ]
    where
      moved : sent ≡ a.written ++ (b.batch ++ (p ∷ rest))
      moved = a.in_order ∙ ap (λ l. a.written ++ (b.batch ++ l)) q

  Accounts-Step :
      {b b' : Batcher} {more : List SpanWithProject} (s : Session) (sent : List SpanWithProject)
      → Accounts s b sent
      → Step o steps now b b' more
      → Accounts s b' (sent ++ more)
  Accounts-Step {b} {b'} s sent a (sends p h) =
      let (open_, room, e) = send-accepted p b b' h in
      rw e (record {
        written = a.written;
        in_order = ap (λ l. l ++ p ∷ []) a.in_order ∙ simp append_assoc;
        stored = a.stored;
        buffer_bounded = omega (arith, length-append b.queue (p ∷ []));
        batch_bounded = a.batch_bounded;
        drained = λ d. absurd (ground (arith, (a.drained d).0));
      })
  Accounts-Step {b} {b'} s sent a (closes h) = rw append-nil (
      subst (λ x. Accounts s x sent) h
        (unfold close in
          record {
            written = a.written;
            in_order = a.in_order;
            stored = a.stored;
            buffer_bounded = a.buffer_bounded;
            batch_bounded = a.batch_bounded;
            drained = λ d. (refl, (a.drained d).1, (a.drained d).2);
          }))
  Accounts-Step {b} {b'} s sent a (receives p rest d q h) =
      rw append-nil (Accounts-receive s sent b b' a p rest d q h)
  Accounts-Step {b} {b'} s sent a (ticks d h) =
      rw append-nil (elim (Bool-cases (ltb 0 (length b.batch))) [
        | inl some_left ↦
            let (s', f, e) =
              flushed-some b b' (flush o steps now b.batch b.store)
                (unfold on_tick in ground arith) in
            rw e (Accounts-flush s s' b sent a f d)
        | inr nothing ↦ let same : b' ≡ b = unfold on_tick in ground arith in rw same a
      ])
  Accounts-Step {b} {b'} s sent a (exits d q c h) =
      let (s', f, e) =
        exited-some b b' (flush o steps now b.batch b.store) (unfold on_closed in h) in
      let a' = Accounts-flush s s' b sent a f d in
      rw (append-nil, e)
        (record {
          written = a'.written;
          in_order = a'.in_order;
          stored = a'.stored;
          buffer_bounded = a'.buffer_bounded;
          batch_bounded = a'.batch_bounded;
          drained = λ _. (c, refl, q);
        })

  -- Whatever the turns of producers, ticker, Close and writer, the spans that the channel accepted
  -- are, in the order of acceptance and each once, those written to the store, then those in the
  -- writer's batch, then those in the buffer. The store is the one that InsertSpan leaves when it is
  -- called on the written spans in that order. The buffer holds at most 1000 spans and the batch
  -- fewer than 128, and once the writer has exited the channel is closed and both are empty.
  pub Runs-Accounts :
      (s : Session) {b : Batcher} {sent : List SpanWithProject}
      → Runs o steps now (new_batcher s) b sent
      → Accounts s b sent
  unfolding flush
  Runs-Accounts s start = record {
    written = [];
    in_order = refl;
    stored = refl;
    buffer_bounded = omega arith;
    batch_bounded = omega arith;
    drained = λ d. cc;
  }
  Runs-Accounts s (then_ {sent = sent} r step e) =
      rw e (Accounts-Step s sent (Runs-Accounts s r) step)
