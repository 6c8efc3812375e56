-- ===== src/Collector/Batcher/Subtotals.antt =====
-- What InsertSpan leaves in the cumulative columns, after the flushes of internal/collector/batcher.go.
use tracewell.Prelude.{ℕ, ◌<◌, String, List, [], some, ◌≡◌, sym, subst, arith, All, All-In}
use tracewell.Store.Tables.{SpanRow}
use tracewell.Store.Session.{Session}
use tracewell.Store.Columns.{Outside}
use tracewell.Store.Correct.{FreshRowids, Fits}
use tracewell.Store.Sound.{IsSound}
use tracewell.Store.Subtree.{subtree, cumulative-eq-subtree}
use tracewell.Collector.Batcher.{SpanWithProject, flush}
use tracewell.Collector.Batcher.Drain.{flush_ends}

empty-IsSound : (rank : String → ℕ) → IsSound rank []
empty-IsSound rank = record { keyed = tt; consistent = λ r i. absurd i; ranked = λ r i. absurd i }

-- From an empty spans table, handing any spans to InsertSpan in any order of arrival, children before their parents
-- or after them, with any statements refused on the way, comes to an end, and then the cumulative columns of
-- every row are the totals of that row and of all its descendants in its trace, added up from the self
-- columns. Sums wrap around at 64 bits, those of SQLite taken to do so too. It is stated for rowids that are new, ranks below `top`, and spans
-- whose ranks are above their parents', with more steps than the parents' ranks.
pub flush-subtree :
    (o : Outside) (steps : ℕ) (now : String) (rank : String → ℕ) (top : ℕ)
    (batch : List SpanWithProject) (s : Session)
    → FreshRowids o
    → All (λ p. Fits rank steps p.span) batch
    → ((x : String) → rank x < top)
    → s.db.spans ≡ []
    → (s' : Session) × (flush o steps now batch s ≡ some s')
      × All (λ (r : SpanRow). r.cumulative ≡ subtree top s'.db.spans r) s'.db.spans
flush-subtree o steps now rank top batch s fresh fits bound empty =
    let (s', e, sound) =
      flush_ends o steps now rank batch s fresh fits
        (subst (IsSound rank) (sym empty) (empty-IsSound rank)) in
    (
      s',
      e,
      All-In (λ (r : SpanRow). r.cumulative ≡ subtree top s'.db.spans r) s'.db.spans
          λ r i.
            cumulative-eq-subtree rank top s'.db.spans sound (λ x j. bound x.span_id) top r i
              (omega arith),
    )
