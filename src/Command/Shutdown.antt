-- ===== src/Command/Shutdown.antt =====
-- How run ends: what a shutdown keeps, and when it loses spans.
use mathlib.Core.List.{Perm}
use tracewell.Prelude.{
  ℕ, String, Bool, true, false, List, [], ◌∷◌, ◌++◌, none, some, ◌≡◌, ◌↔◌, refl, sym, ap, ◌∙◌,
  subst, arith, append-nil,
}
use tracewell.Store.Session.{Session}
use tracewell.Store.Columns.{Outside}
use tracewell.Collector.Batcher.{SpanWithProject, panicked, send, flush}
use tracewell.Collector.Batcher.Order.{Runs-Accounts}
use tracewell.Command.Invariant.{Holds, no_handler, send-closed, send-open}
use tracewell.Command.Reached.{Runs-Inv}
use tracewell.Command.{Phase, serving, shutting_down, closing, returned, Process, launched, Runs}

-- run returned, or is about to, with an error: of the server, or of a shutdown that took too long.
unfoldable pub has_failed : Phase → Bool
has_failed serving = false
has_failed shutting_down = false
has_failed (closing none) = false
has_failed (closing (some e)) = true
has_failed (returned none) = false
has_failed (returned (some e)) = true

-- When run returns nil, the spans of all requests that it ever took were handed to InsertSpan, each exactly once, in the
-- order in which the handlers sent them, the store is what that leaves, and no handler is at work: whatever
-- the order of requests, sends, the writer's turns and the signal.
pub returned-stored :
    (o : Outside) (steps : ℕ) (now : String) (s : Session) {p : Process}
    {taken sent : List SpanWithProject}
    → Runs o steps now (launched s) p taken sent
    → p.phase ≡ returned none
    → Perm taken sent × (flush o steps now sent s ≡ some p.batcher.store) × (p.handlers ≡ [])
returned-stored o steps now s {p} {taken} {sent} r e =
    let i = Runs-Inv o steps now s r in
    let at =
      subst (λ ph. Holds ph p.batcher.closed p.batcher.done p.connected p.handlers taken sent) e
        i.holds in
    let a = Runs-Accounts o steps now s i.history in
    let (c, none_batched, none_queued) = a.drained at.1 in
    let all_written : sent ≡ a.written =
      a.in_order
      ∙ ap (λ l. a.written ++ (l ++ p.batcher.queue)) none_batched
      ∙ ap (λ l. a.written ++ ([] ++ l)) none_queued
      ∙ append-nil a.written in
    (
      at.3,
      subst (λ l. flush o steps now l s ≡ some p.batcher.store) (sym all_written) a.stored,
      at.2,
    )

-- A handler with a span to send panics exactly if run has given up, on a server that failed or on a shutdown that took too
-- long, and closed the batcher under it; until then, and in every shutdown that succeeds, no send panics.
pub panics_iff :
    (o : Outside) (steps : ℕ) (now : String) (s : Session) {p : Process}
    {taken sent : List SpanWithProject} (before after : List (List SpanWithProject))
    (q : SpanWithProject) (qs : List SpanWithProject)
    → Runs o steps now (launched s) p taken sent
    → p.handlers ≡ before ++ (q ∷ qs) ∷ after
    → (send q p.batcher ≡ panicked) ↔ (has_failed p.phase ≡ true)
panics_iff o steps now s {p} {taken} {sent} before after q qs r at =
    by_phase p.phase (Runs-Inv o steps now s r).holds
  where
    by_phase :
        (ph : Phase)
        → Holds ph p.batcher.closed p.batcher.done p.connected p.handlers taken sent
        → (send q p.batcher ≡ panicked) ↔ (has_failed ph ≡ true)
    by_phase serving h = (
      λ e. absurd (send-open q p.batcher h.0 e),
      λ e. absurd (unfold has_failed in ground (arith, e)),
    )
    by_phase shutting_down h = (
      λ e. absurd (send-open q p.batcher h.0 e),
      λ e. absurd (unfold has_failed in ground (arith, e)),
    )
    by_phase (closing none) h = absurd (no_handler before after (q ∷ qs) p.handlers h.1 at)
    by_phase (closing (some x)) h = (λ e. unfold has_failed in refl, λ e. send-closed q p.batcher h)
    by_phase (returned none) h = absurd (no_handler before after (q ∷ qs) p.handlers h.2 at)
    by_phase (returned (some x)) h =
        (λ e. unfold has_failed in refl, λ e. send-closed q p.batcher h.0)
