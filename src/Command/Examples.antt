-- ===== src/Command/Examples.antt =====
-- The theorems on run at concrete runs.
use mathlib.Core.List.{Perm}
use tracewell.Prelude.{
  String, ◌++◌, sym, ap, ◌∙◌, append_assoc, append-nil, arith, true, false, List, [], ◌∷◌, none,
  some, refl, ◌≡◌, ◌↔◌, ℕ,
}
use tracewell.Store.Columns.{Outside, null_string}
use tracewell.Store.Correct.{Fits}
use tracewell.Store.Session.{Session}
use tracewell.Store.Sound.{IsSound}
use tracewell.Store.Examples.{plain, plain-FreshRowids, rank}
use tracewell.Store.Opening.{
  Database, named, emptied, executed, is_refused, later, exec_all, read_file, migrate_from, migrate,
  opened, open_store,
}
use tracewell.Command.Startup.{running, open_db, launch, started, start_up}
use tracewell.Command.Startup.Restart.{restart-stored}
use tracewell.Collector.Batcher.{SpanWithProject, panicked, send, close, flush}
use tracewell.Collector.Batcher.Examples.{root, nothing_stored}
use tracewell.Server.{failure}
use tracewell.Command.Shutdown.{has_failed, returned-stored, panics_iff}
use tracewell.Command.Returns.{closing-returns}
use tracewell.Command.{
  shutting_down, closing, returned, Process, launched, is_returned, requests, hands_over, answers,
  signals, drains, gives_up, Runs, start, then_,
}

nothing_stored-IsSound : IsSound rank []
nothing_stored-IsSound = record {
  keyed = tt;
  consistent = λ r i. absurd i;
  ranked = λ r i. absurd i;
}

module _ {o : Outside} {steps : ℕ} {now : String} {p p' : Process}
    {t s : List SpanWithProject} where
  -- one run after the other
  Runs-followed :
      {p'' : Process} {t' s' t'' s'' : List SpanWithProject}
      → Runs o steps now p p' t s
      → Runs o steps now p' p'' t' s'
      → t'' ≡ t ++ t'
      → s'' ≡ s ++ s'
      → Runs o steps now p p'' t'' s''
  Runs-followed r start e f = rw (e, f, append-nil t, append-nil s) r
  Runs-followed r (then_ {p' = q} {taken = a} {sent = b} {more_taken = c} {more_sent = d} rs st x y)
        e f =
      then_ {p' = q} {taken = t ++ a} {sent = s ++ b} {more_taken = c} {more_sent = d}
        (Runs-followed r rs refl refl) st (e ∙ ap (λ l. t ++ l) x ∙ sym (append_assoc t a c))
        (f ∙ ap (λ l. s ++ l) y ∙ sym (append_assoc s b d))

-- one request with a span, then the signal, and the deadline of the shutdown
abbrev asked : Process
asked = record (launched nothing_stored) { handlers = (root ∷ []) ∷ [] }

abbrev told : Process
told = record asked { phase = shutting_down }

abbrev late : Process
late = record told { phase = closing (some (failure 1)); batcher = close told.batcher }

one_request : Runs plain 5 "t" (launched nothing_stored) asked (root ∷ []) []
unfolding is_returned
one_request =
    then_ {p' = launched nothing_stored} start (requests (root ∷ []) refl refl refl) refl refl

deadline : Runs plain 5 "t" (launched nothing_stored) late (root ∷ []) []
deadline =
    then_ {p' = told} (then_ {p' = asked} one_request (signals refl refl) refl refl)
      (gives_up (failure 1) refl refl) refl refl

panics_iff_example : (send root late.batcher ≡ panicked) ↔ (has_failed late.phase ≡ true)
panics_iff_example = panics_iff plain 5 "t" nothing_stored [] [] root [] deadline refl

closing-returns_example :
    (p' : Process) × Runs plain 5 "t" late p' [] []
    × (p'.phase ≡ returned (some (failure 1)))
    × IsSound rank p'.batcher.store.db.spans
unfolding close
closing-returns_example =
    closing-returns plain 5 "t" nothing_stored rank (some (failure 1)) late (root ∷ []) [] deadline
      refl plain-FreshRowids tt nothing_stored-IsSound

-- the same request answered before the signal
abbrev handed : Process
handed = record asked { handlers = [] ∷ []; batcher = record asked.batcher { queue = root ∷ [] } }

abbrev answered : Process
answered = record handed { handlers = [] }

abbrev stopping : Process
stopping = record answered { phase = shutting_down }

abbrev drained : Process
drained = record stopping {
  phase = closing none;
  connected = false;
  batcher = close stopping.batcher;
}

one_shutdown : Runs plain 5 "t" (launched nothing_stored) drained (root ∷ []) (root ∷ [])
unfolding send is_returned
one_shutdown =
    then_ {p' = stopping}
      (then_ {p' = answered}
        (then_ {p' = handed}
          (then_ {p' = asked} one_request
            (hands_over [] [] root [] handed.batcher refl refl refl refl) refl refl)
          (answers [] [] refl refl refl) refl refl)
        (signals refl refl) refl refl)
      (drains refl refl refl) refl refl

root-Fits : Fits rank 5 root.span
unfolding null_string
root-Fits = record { below = λ p h. absurd (ground (arith, h)); within = omega arith }

-- the writer's turns after it
abbrev Left : Type 0
Left =
    (p' : Process) × Runs plain 5 "t" drained p' [] []
    × (p'.phase ≡ returned none)
    × IsSound rank p'.batcher.store.db.spans

left : Left
unfolding close
left =
    closing-returns plain 5 "t" nothing_stored rank none drained (root ∷ []) (root ∷ [])
      one_shutdown refl plain-FreshRowids (root-Fits, tt) nothing_stored-IsSound

returned-stored_example :
    Perm (root ∷ []) (root ∷ [])
    × (flush plain 5 "t" (root ∷ []) nothing_stored ≡ some left.0.batcher.store)
    × (left.0.handlers ≡ [])
returned-stored_example =
    returned-stored plain 5 "t" nothing_stored (Runs-followed one_shutdown left.1 refl refl) left.2

-- a database without tables
abbrev new_file : Database
new_file = record { tables = []; indexes = []; rows = nothing_stored.db; faults = [] }

first_start :
    (d' : Database) × (start_up none none new_file ≡ (running (launched nothing_stored), d'))
unfolding start_up open_db started launch open_store opened migrate migrate_from read_file exec_all
    is_refused later executed named emptied
first_start = (_, refl)

restart-stored_example :
    (s : Session) × (s.db ≡ first_start.0.rows)
    × (s.cache ≡ [])
    × Perm (root ∷ []) (root ∷ [])
    × (flush plain 5 "t" (root ∷ []) s ≡ some left.0.batcher.store)
    × ((start_up none none (record first_start.0 { rows = left.0.batcher.store.db; faults = [] })).0
        ≡ running (launched (record { db = left.0.batcher.store.db; cache = []; faults = [] })))
restart-stored_example =
    restart-stored plain 5 "t" none none new_file first_start.0 first_start.1
      (Runs-followed one_shutdown left.1 refl refl) left.2
