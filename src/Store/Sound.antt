-- ===== src/Store/Sound.antt =====
-- What the spans table keeps: unique keys, cumulative columns that agree with the children's, and
-- parents that form a forest. One more row and the credit to its ancestors keep it.
use tracewell.Prelude.{
  ℕ, ◌<◌, String, false, List, ◌∷◌, map, some, ◌≡◌, ap, sym, ◌∙◌, subst, arith, In, inl, inr,
  In-map,
}
use tracewell.Store.Tables.{SpanRow, is_child, has_span, id_in, credit, add_to_spans, stored_self}
use tracewell.Store.Totals.{Totals, ◌⊕◌, ⊕_comm, ⊕_assoc}
use tracewell.Store.Insert.{ancestors}
use tracewell.Store.Cumulative.{
  child_totals, share, child_totals-cons, IsConsistent, due, Lacks, IsKeyed,
}
use tracewell.Store.Ancestors.{settle, add_to_spans-IsKeyed}
use tracewell.Store.Forest.{IsRanked, WithinSteps, walk-IsSimple, walk_ends}

pub record IsSound (rank : String → ℕ) (rows : List SpanRow) : Type 0 where
  pub keyed : IsKeyed rows
  pub consistent : IsConsistent rows
  pub ranked : IsRanked rank rows

-- A new row that absorbed its children leaves only its parent lacking.
Lacks-new :
    (x : SpanRow) (rows : List SpanRow)
    → IsConsistent rows
    → x.cumulative ≡ stored_self x ⊕ child_totals x.trace_rowid x.span_id rows
    → Lacks x.trace_rowid x.parent_id x.cumulative (x ∷ rows)
Lacks-new x rows c e r i =
    rw
      (
        child_totals-cons r.trace_rowid r.span_id x rows,
        share-due,
        ⊕_comm (due x.trace_rowid x.parent_id x.cumulative r)
            (child_totals r.trace_rowid r.span_id rows),
      )
      (sym (
          ⊕_assoc (stored_self r) (child_totals r.trace_rowid r.span_id rows)
            (due x.trace_rowid x.parent_id x.cumulative r))
        ∙ ap (λ u. u ⊕ due x.trace_rowid x.parent_id x.cumulative r) (sym (before i)))
  where
    before :
        In r (x ∷ rows) → r.cumulative ≡ stored_self r ⊕ child_totals r.trace_rowid r.span_id rows
    before (inl p) =
        subst
          (λ (y : SpanRow).
            y.cumulative ≡ stored_self y ⊕ child_totals y.trace_rowid y.span_id rows)
          (sym p) e
    before (inr j) = c r j

    share-due : share r.trace_rowid r.span_id x ≡ due x.trace_rowid x.parent_id x.cumulative r
    share-due = unfold share is_child in ground arith

add_to_spans-IsRanked :
    (rank : String → ℕ) (ids : List ℕ) (d : Totals) (rows : List SpanRow)
    → IsRanked rank rows
    → IsRanked rank (add_to_spans ids d rows)
unfolding add_to_spans credit
add_to_spans-IsRanked rank ids d rows h r' i p e =
    let (r, j, q) = In-map (credit ids d) rows i in kept r q (h r j)
  where
    kept :
        (r : SpanRow)
        → r' ≡ credit ids d r
        → ((p : String) → r.parent_id ≡ some p → rank p < rank r.span_id)
        → rank p < rank r'.span_id
    kept r q k = ground (arith, k p, q)

-- One more row, and the credit to the rows that the walk from its parent finds.
pub place-IsSound :
    (rank : String → ℕ) (steps : ℕ) (x : SpanRow) (rows : List SpanRow)
    → IsSound rank rows
    → id_in x.id (map (λ r. r.id) rows) ≡ false
    → has_span x.span_id rows ≡ false
    → ((p : String) → x.parent_id ≡ some p → rank p < rank x.span_id)
    → WithinSteps rank steps x.parent_id
    → x.cumulative ≡ stored_self x ⊕ child_totals x.trace_rowid x.span_id rows
    → (ids : List ℕ) × (ancestors steps x.trace_rowid x.parent_id (x ∷ rows) ≡ some ids)
      × IsSound rank (add_to_spans ids x.cumulative (x ∷ rows))
place-IsSound rank steps x rows s fresh new below within e = (
  ids,
  w,
  record {
    keyed = add_to_spans-IsKeyed ids x.cumulative (x ∷ rows) keyed;
    consistent =
        settle steps x.trace_rowid x.parent_id x.cumulative (x ∷ rows) ids keyed w
          (walk-IsSimple rank x.trace_rowid (x ∷ rows) ranked steps x.parent_id ids keyed w)
          (Lacks-new x rows s.consistent e);
    ranked = add_to_spans-IsRanked rank ids x.cumulative (x ∷ rows) ranked;
  },
)
  where
    keyed : IsKeyed (x ∷ rows)
    keyed = (fresh, new, s.keyed)

    ranked : IsRanked rank (x ∷ rows)
    ranked r (inl p) q h = rw p (below q (ap (λ (y : SpanRow). y.parent_id) (sym p) ∙ h))
    ranked r (inr i) q h = s.ranked r i q h

    walk : (ids : List ℕ) × (ancestors steps x.trace_rowid x.parent_id (x ∷ rows) ≡ some ids)
    walk = walk_ends rank x.trace_rowid (x ∷ rows) ranked steps x.parent_id within

    ids : List ℕ
    ids = walk.0

    w : ancestors steps x.trace_rowid x.parent_id (x ∷ rows) ≡ some ids
    w = walk.1
