-- ===== src/Command/Startup/Restart.antt =====
-- From one process to the next on the same file.
use mathlib.Core.List.{Perm}
use tracewell.Prelude.{ℕ, String, List, [], Option, none, some, ◌≡◌, refl, sym, ap, subst, arith}
use tracewell.Store.Session.{Result, ok, err, hangs, Session}
use tracewell.Store.Columns.{Outside}
use tracewell.Store.Opening.{Database, open_store}
use tracewell.Store.Opening.Schema.{is_made, all_made}
use tracewell.Store.Opening.Reopened.{open_store_made, open_store_opened}
use tracewell.Collector.Batcher.{SpanWithProject, flush}
use tracewell.Command.{returned, Process, launched, Runs}
use tracewell.Command.Shutdown.{returned-stored}
use tracewell.Command.Startup.{running, open_db, launch, started, start_up}

-- A start that came to its select opened the store.
start_up_opened :
    (making failing : Option ℕ) (d d' : Database) (p : Process)
    → start_up making failing d ≡ (running p, d')
    → (s : Session) × (open_store d ≡ (ok s, d')) × (p ≡ launched s)
unfolding start_up open_db started launch
start_up_opened (some e) failing d d' p h = absurd (ground (arith, h))
start_up_opened none (some e) d d' p h = absurd (ground (arith, h))
start_up_opened none none d d' p h = go (open_store d) refl h
  where
    go :
        (r : Result Session × Database)
        → open_store d ≡ r
        → launch r ≡ (running p, d')
        → (s : Session) × (open_store d ≡ (ok s, d')) × (p ≡ launched s)
    go (ok s, x) e q =
        let same : x ≡ d' = ground (arith, q) in
        let begun : launched s ≡ p = ground (arith, q) in
        (s, subst (λ y. open_store d ≡ (ok s, y)) same e, sym begun)
    go (err x, y) e q = absurd (ground (arith, q))
    go (hangs, y) e q = absurd (ground (arith, q))

-- A process that came to its select and returned nil leaves a file with which the next start comes to its select again,
-- with an empty project cache and just the rows that InsertSpan left for the spans of all requests, each handed to it
-- exactly once. It is stated for a next start at which nothing fails.
pub restart-stored :
    (o : Outside) (steps : ℕ) (now : String) (making failing : Option ℕ) (d d' : Database)
    {p₀ p : Process} {taken sent : List SpanWithProject}
    → start_up making failing d ≡ (running p₀, d')
    → Runs o steps now p₀ p taken sent
    → p.phase ≡ returned none
    → (s : Session) × (s.db ≡ d'.rows)
      × (s.cache ≡ [])
      × Perm taken sent
      × (flush o steps now sent s ≡ some p.batcher.store)
      × ((start_up none none (record d' { rows = p.batcher.store.db; faults = [] })).0
          ≡ running (launched (record { db = p.batcher.store.db; cache = []; faults = [] })))
unfolding start_up open_db started launch
restart-stored o steps now making failing d d' {p₀} {p} {taken} {sent} h r e =
    let (s, opens, same) = start_up_opened making failing d d' p₀ h in
    let (made, rows, cache) = open_store_opened d d' s opens in
    let kept =
      returned-stored o steps now s (subst (λ q. Runs o steps now q p taken sent) same r) e in
    let next : Database = record d' { rows = p.batcher.store.db; faults = [] } in
    (
      s,
      rows,
      cache,
      kept.0,
      kept.1,
      ap (λ r. (launch r).0) (open_store_made next (unfold all_made is_made in made) refl),
    )
