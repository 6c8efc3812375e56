-- ===== src/Collector/Batcher.antt =====
-- internal/collector/batcher.go: the buffered channel, the writer loop and Close. The goroutines are
-- a step relation: producers, the ticker, Close and the writer take turns in any order.
pub mod Order
pub mod Drain
pub mod Subtotals
pub mod Delivered
pub mod Examples
use tracewell.Prelude.{
  ℕ, suc, ◌+◌, ◌<◌, String, Bool, true, false, List, [], ◌∷◌, ◌++◌, Option, none, some, ◌≡◌, leb,
  ltb, length, if◌then◌else◌,
}
use tracewell.Trace.{Span}
use tracewell.Store.Session.{Session, Result, ok, err, hangs}
use tracewell.Store.Columns.{Outside}
use tracewell.Store.Insert.{insert_span}

pub record SpanWithProject : Type 0 where
  pub project : String
  pub span : Span

abbrev pub buffer_capacity : ℕ
buffer_capacity = 1000

abbrev pub flush_size : ℕ
flush_size = 128

-- `queue` is the channel's buffer, `batch` the writer's local slice, `done` the closed done channel.
pub record Batcher : Type 0 where
  pub queue : List SpanWithProject
  pub closed : Bool
  pub batch : List SpanWithProject
  pub done : Bool
  pub store : Session

-- NewBatcher
abbrev pub new_batcher : Session → Batcher
new_batcher s = record { queue = []; closed = false; batch = []; done = false; store = s }

-- What a send on the channel does: it waits while the buffer is full, and panics once Close has run.
pub data Sent : Type 0 where
  accepted : Batcher → Sent
  blocked : Sent
  panicked : Sent

-- one round of AddAll: b.ch <- p
unfoldable pub send : SpanWithProject → Batcher → Sent
send p b =
    if b.closed
    then panicked
    else if ltb (length b.queue) buffer_capacity
    then accepted (record b { queue = b.queue ++ p ∷ [] })
    else blocked

-- the first half of Close
unfoldable pub close : Batcher → Batcher
close b = record b { closed = true }

module _ (o : Outside) (steps : ℕ) (now : String) where
  inserted : Result (Unit {0}) × Session → Option Session
  inserted (ok tt, s) = some s
  inserted (err e, s) = some s
  inserted (hangs, s) = none

  -- one round of the loop of flush: an error is logged and passed over
  unfoldable pub insert_one : SpanWithProject → Session → Option Session
  unfolding inserted
  insert_one p s = inserted (insert_span o steps now p.span p.project s)

  -- flush; `none` if an insert never ends
  unfoldable pub flush : List SpanWithProject → Session → Option Session
  flush [] s = some s
  flush (p ∷ batch) s = elim (insert_one p s) [ none ↦ none | some s' ↦ flush batch s' ]

  unfoldable pub flushed : Batcher → Option Session → Option Batcher
  flushed b none = none
  flushed b (some s) = some (record b { batch = []; store = s })

  -- case p, ok := <-b.ch, with ok
  unfoldable pub on_receive : SpanWithProject → Batcher → Option Batcher
  unfolding flushed
  on_receive p b =
      let batch = b.batch ++ p ∷ [] in
      if leb flush_size (length batch)
      then flushed b (flush batch b.store)
      else some (record b { batch = batch })

  -- case <-ticker.C
  unfoldable pub on_tick : Batcher → Option Batcher
  unfolding flushed
  on_tick b = if ltb 0 (length b.batch) then flushed b (flush b.batch b.store) else some b

  unfoldable pub exited : Batcher → Option Session → Option Batcher
  exited b none = none
  exited b (some s) = some (record b { batch = []; store = s; done = true })

  -- case p, ok := <-b.ch, without ok: the closed channel is empty
  unfoldable pub on_closed : Batcher → Option Batcher
  unfolding exited
  on_closed b = exited b (flush b.batch b.store)

  -- One turn, with the span that it hands over to the batcher, if any.
  pub data Step (b b' : Batcher) : List SpanWithProject → Type 0 where
    sends : (p : SpanWithProject) → send p b ≡ accepted b' → Step b b' (p ∷ [])
    closes : close b ≡ b' → Step b b' []
    receives :
        (p : SpanWithProject) (rest : List SpanWithProject)
        → b.done ≡ false
        → b.queue ≡ p ∷ rest
        → on_receive p (record b { queue = rest }) ≡ some b'
        → Step b b' []
    ticks : b.done ≡ false → on_tick b ≡ some b' → Step b b' []
    exits : b.done ≡ false → b.queue ≡ [] → b.closed ≡ true → on_closed b ≡ some b' → Step b b' []

  -- Any number of turns, with the spans that they handed over, in order.
  pub data Runs (b : Batcher) : Batcher → List SpanWithProject → Type 0 where
    start : Runs b b []
    then_ :
        {b' b'' : Batcher} {sent more all : List SpanWithProject}
        → Runs b b' sent
        → Step b' b'' more
        → all ≡ sent ++ more
        → Runs b b'' all
