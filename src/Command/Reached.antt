-- ===== src/Command/Reached.antt =====
-- Every state of run that can be reached satisfies the invariant.
use mathlib.Core.List.{Perm}
use mathlib.Core.List.Perm
use tracewell.Prelude.{
  ℕ, String, Bool, true, List, [], ◌++◌, Option, none, some, ◌≡◌, refl, subst, append-nil,
}
use tracewell.Store.Session.{Session}
use tracewell.Store.Columns.{Outside}
use tracewell.Collector.Batcher.{
  SpanWithProject, Batcher, new_batcher, accepted, panicked, send, close, sends, closes,
}
use tracewell.Collector.Batcher as Batcher
use tracewell.Server.{ServerError}
use tracewell.Command.Invariant.{
  concat, Holds, send-open, send-accepted, requests-Holds, hands_over-Holds, answers-Holds,
  panics-Holds, writes-Holds,
}
use tracewell.Command.{
  serving, shutting_down, closing, returned, Process, launched, Step, requests, hands_over, panics,
  answers, writes, signals, fails, drains, gives_up, returns, Runs, start, then_,
}

module _ (o : Outside) (steps : ℕ) (now : String) (s : Session) where
  pub record Inv (p : Process) (taken sent : List SpanWithProject) : Type 0 where
    pub history : Batcher.Runs o steps now (new_batcher s) p.batcher sent
    pub holds : Holds p.phase p.batcher.closed p.batcher.done p.connected p.handlers taken sent

  unsent :
      {b : Batcher} {sent : List SpanWithProject}
      → Batcher.Runs o steps now (new_batcher s) b sent
      → Batcher.Runs o steps now (new_batcher s) b (sent ++ [])
  unsent {b} {sent} r = rw (append-nil sent) r

  close-history :
      {b : Batcher} {sent : List SpanWithProject}
      → Batcher.Runs o steps now (new_batcher s) b sent
      → Batcher.Runs o steps now (new_batcher s) (close b) (sent ++ [])
  close-history r = Batcher.then_ r (closes refl) refl

  Inv-launched : Inv (launched s) [] []
  unfolding concat
  Inv-launched = record { history = Batcher.start; holds = (refl, Perm.rfl) }

  -- the phases that main itself ends
  signals-Holds :
      (p : Process) (taken sent : List SpanWithProject)
      → p.phase ≡ serving
      → Holds p.phase p.batcher.closed p.batcher.done p.connected p.handlers taken sent
      → Holds shutting_down p.batcher.closed p.batcher.done p.connected p.handlers
          (taken ++ [])
          (sent ++ [])
  signals-Holds p taken sent e h =
      rw (append-nil taken, append-nil sent)
        (subst (λ ph. Holds ph p.batcher.closed p.batcher.done p.connected p.handlers taken sent) e
          h)

  drains-Holds :
      (p : Process) (taken sent : List SpanWithProject)
      → p.phase ≡ shutting_down
      → p.handlers ≡ []
      → Holds p.phase p.batcher.closed p.batcher.done p.connected p.handlers taken sent
      → Perm (taken ++ []) (sent ++ [])
  unfolding concat
  drains-Holds p taken sent e none_left h =
      let at =
        subst (λ ph. Holds ph p.batcher.closed p.batcher.done p.connected p.handlers taken sent) e
          h in
      rw (append-nil taken) (subst (λ l. Perm taken (sent ++ concat l)) none_left at.1)

  returned-Holds :
      (r : Option ServerError) (closed done connected : Bool)
      (handlers : List (List SpanWithProject)) (taken sent : List SpanWithProject)
      → done ≡ true
      → Holds (closing r) closed done connected handlers taken sent
      → Holds (returned r) closed done connected handlers (taken ++ []) (sent ++ [])
  returned-Holds none closed done connected handlers taken sent d h =
      rw (append-nil taken, append-nil sent) (h.0, d, h.1, h.3)
  returned-Holds (some e) closed done connected handlers taken sent d h = (h, d)

  pub Step-Inv :
      {p p' : Process} {more_taken more_sent : List SpanWithProject}
      (taken sent : List SpanWithProject)
      → Inv p taken sent
      → Step o steps now p p' more_taken more_sent
      → Inv p' (taken ++ more_taken) (sent ++ more_sent)
  Step-Inv {p} {p'} taken sent i (requests spans r c e) = rw e (record {
    history = unsent i.history;
    holds =
        requests-Holds taken sent p.batcher.closed p.batcher.done p.connected p.phase spans
          p.handlers r c i.holds;
  })
  Step-Inv {p} {p'} taken sent i (hands_over before after q qs b r at a e) =
      let (open_, still, same) = send-accepted q p.batcher b a in
      rw e (record {
        history = Batcher.then_ i.history (sends q a) refl;
        holds =
            rw (still, same)
              (hands_over-Holds taken sent p.batcher.closed p.batcher.done p.connected p.phase
                before after q qs r open_ p.handlers at i.holds);
      })
  Step-Inv {p} {p'} taken sent i (panics before after q qs r at a e) = rw e (record {
    history = unsent i.history;
    holds =
        panics-Holds taken sent p.batcher.closed p.batcher.done p.connected p.phase before after q
          qs r (λ open_. send-open q p.batcher open_ a) p.handlers at i.holds;
  })
  Step-Inv {p} {p'} taken sent i (answers before after r at e) = rw e (record {
    history = unsent i.history;
    holds =
        answers-Holds taken sent p.batcher.closed p.batcher.done p.connected p.phase before after r
          p.handlers at i.holds;
  })
  Step-Inv {p} {p'} taken sent i (writes b r st same e) = rw e (record {
    history = Batcher.then_ i.history st refl;
    holds = rw same (
        writes-Holds taken sent p.batcher.closed p.batcher.done p.connected p.phase p.handlers
          b.done r i.holds);
  })
  Step-Inv {p} {p'} taken sent i (signals at e) =
      rw e (record { history = unsent i.history; holds = signals-Holds p taken sent at i.holds })
  Step-Inv {p} {p'} taken sent i (fails listened served x at f e) =
      rw e (record { history = close-history i.history; holds = unfold close in refl })
  Step-Inv {p} {p'} taken sent i (drains at none_left e) = rw e (record {
    history = close-history i.history;
    holds = unfold close in (refl, none_left, refl, drains-Holds p taken sent at none_left i.holds);
  })
  Step-Inv {p} {p'} taken sent i (gives_up x at e) =
      rw e (record { history = close-history i.history; holds = unfold close in refl })
  Step-Inv {p} {p'} taken sent i (returns r at d e) = rw e (record {
    history = unsent i.history;
    holds = returned-Holds r p.batcher.closed p.batcher.done p.connected p.handlers taken sent d (
        subst (λ ph. Holds ph p.batcher.closed p.batcher.done p.connected p.handlers taken sent) at
          i.holds);
  })

  pub Runs-Inv :
      {p : Process} {taken sent : List SpanWithProject}
      → Runs o steps now (launched s) p taken sent
      → Inv p taken sent
  Runs-Inv start = Inv-launched
  Runs-Inv (then_ {taken = taken} {sent = sent} r st e f) =
      rw (e, f) (Step-Inv taken sent (Runs-Inv r) st)
