-- ===== src/Collector/Batcher/Examples.antt =====
-- The batcher's theorems at a concrete run.
use tracewell.Prelude.{List, All, String, ◌<◌, arith, pos, true, [], ◌∷◌, none, some, refl, ◌≡◌}
use tracewell.Value.{end}
use tracewell.Trace.{chain, unset}
use tracewell.Store.Session.{Session}
use tracewell.Store.Sound.{IsSound}
use tracewell.Store.Examples.{
  plain, plain-FreshRowids, rank, child, child-Fits, one_root, one_root-IsSound,
}
use tracewell.Collector.Batcher.{
  SpanWithProject, Batcher, new_batcher, send, flush, Runs, start, then_, sends,
}
use tracewell.Collector.Batcher.Delivered.{Delivered, Runs-Delivered}
use tracewell.Collector.Batcher.Subtotals.{flush-subtree}
use tracewell.Store.Tables.{SpanRow}
use tracewell.Store.Subtree.{subtree}
use tracewell.Store.Correct.{Fits}
use tracewell.Store.Columns.{null_string}
use tracewell.Collector.Batcher.Drain.{finished, close_drains}

abbrev pub root : SpanWithProject
root = record {
  project = "default";
  span = record {
    name = "r";
    trace_id = "t1";
    span_id = "root";
    parent_id = "";
    start_time = pos 0;
    end_time = pos 1;
    attributes = end;
    span_kind = chain;
    status_code = unset;
    status_message = "";
    events = [];
    input = none;
    output = none;
    token_usage = none;
    model_name = "";
    session_id = "";
    user_id = "";
    invocation_params = "";
  };
}

abbrev pub nothing_stored : Session
nothing_stored = record {
  db = record { projects = []; traces = []; spans = [] };
  cache = [];
  faults = [];
}

abbrev one_sent : Batcher
one_sent = record (new_batcher nothing_stored) { queue = root ∷ [] }

one_turn : Runs plain 5 "t" (new_batcher nothing_stored) one_sent (root ∷ [])
one_turn = then_ {b'' = one_sent} start (sends root (unfold send in refl)) refl

Runs-Delivered_example : Delivered plain 5 "t" nothing_stored one_sent (root ∷ [])
Runs-Delivered_example = Runs-Delivered plain 5 "t" nothing_stored one_turn

abbrev child_queued : Batcher
child_queued = record (new_batcher one_root) {
  queue = record { project = "default"; span = child } ∷ [];
  closed = true;
}

close_drains_example :
    (s : Session) × (flush plain 1 "t" child_queued.queue one_root ≡ some s)
    × Runs plain 1 "t" child_queued (finished child_queued s) []
    × IsSound rank s.db.spans
close_drains_example =
    close_drains plain 1 "t" rank child_queued plain-FreshRowids refl refl (child-Fits, tt)
      one_root-IsSound

-- a child that arrives before its parent
abbrev child_first : List SpanWithProject
child_first = record { project = "default"; span = child } ∷ root ∷ []

flush-subtree_example :
    (s' : Session) × (flush plain 1 "t" child_first nothing_stored ≡ some s')
    × All (λ (r : SpanRow). r.cumulative ≡ subtree 2 s'.db.spans r) s'.db.spans
unfolding null_string
flush-subtree_example =
    flush-subtree plain 1 "t" rank 2 child_first nothing_stored plain-FreshRowids
      (child-Fits, (root_fits, tt)) low refl
  where
    root_fits : Fits rank 1 root.span
    root_fits = record { below = λ p h. absurd (ground (arith, h)); within = omega arith }

    low : (x : String) → rank x < 2
    low x = ground arith
