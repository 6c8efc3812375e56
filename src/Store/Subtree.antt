-- ===== src/Store/Subtree.antt =====
-- What the cumulative columns mean: the totals of a span and of all its descendants.
use tracewell.Prelude.{
  ℕ, zero, suc, ◌+◌, ◌≤◌, ◌<◌, String, Bool, true, false, ◌==◌, str_eq, ◌&&◌, subst, List, [], ◌∷◌,
  none, some, ◌≡◌, refl, ap, ◌∙◌, arith, In, inl, inr, if◌then◌else◌, eq_iff, Bool-cases,
  Option-cases,
}
use tracewell.Store.Tables.{SpanRow, is_child, has_parent, stored_self}
use tracewell.Store.Totals.{Totals, no_totals, ◌⊕◌}
use tracewell.Store.Cumulative.{child_totals, share, child_totals-cons}
use tracewell.Store.Sound.{IsSound}

-- The row is in the trace and names the span as its parent.
unfoldable pub is_under : ℕ → String → SpanRow → Bool
is_under t sid r = elim r.parent_id [ none ↦ false | some p ↦ r.trace_rowid == t && str_eq p sid ]

-- The sum of `f` over the direct children of a span.
pub sum_over : (SpanRow → Totals) → ℕ → String → List SpanRow → Totals
sum_over f t sid [] = no_totals
sum_over f t sid (r ∷ rs) = (if is_under t sid r then f r else no_totals) ⊕ sum_over f t sid rs

-- The totals of a span and of its descendants down to a depth, from the self columns alone.
unfoldable pub subtree : ℕ → List SpanRow → SpanRow → Totals
subtree zero rows r = no_totals
subtree (suc depth) rows r =
    stored_self r ⊕ sum_over (subtree depth rows) r.trace_rowid r.span_id rows

is_child-eq-is_under : (t : ℕ) (sid : String) (r : SpanRow) → is_child t sid r ≡ is_under t sid r
unfolding is_child is_under has_parent
is_child-eq-is_under t sid r = elim (Option-cases r.parent_id) [
  | inl e ↦ ground (arith, e)
  | inr (p, e) ↦ ground (arith, e)
]

child_totals-sum_over :
    (f : SpanRow → Totals) (t : ℕ) (sid : String) (rows : List SpanRow)
    → ((c : SpanRow) → In c rows → is_child t sid c ≡ true → c.cumulative ≡ f c)
    → child_totals t sid rows ≡ sum_over f t sid rows
unfolding sum_over
child_totals-sum_over f t sid [] h =
    unfold child_totals tracewell.Store.Tables.sum_children tracewell.Store.Columns.null_sum in refl
child_totals-sum_over f t sid (r ∷ rs) h = ground (
  arith,
  child_totals-cons t sid r rs,
  child_totals-sum_over f t sid rs (λ c i. h c (inr i)),
  own,
)
  where
    own : share t sid r ≡ (if is_under t sid r then f r else no_totals)
    own =
        subst (λ b. share t sid r ≡ (if b then f r else no_totals)) (is_child-eq-is_under t sid r)
          (unfold share in
            elim (Bool-cases (is_child t sid r)) [
              | inl e ↦ rw (e) (h r (inl refl) e)
              | inr e ↦ rw e
            ])

is_child_parent :
    (t : ℕ) (sid : String) (c : SpanRow) → is_child t sid c ≡ true → c.parent_id ≡ some sid
unfolding is_child
is_child_parent t sid c h = elim (Option-cases c.parent_id) [
  | inl e ↦ absurd (ground arith)
  | inr (p, e) ↦ ground (arith, eq_iff p sid)
]

-- What a sound table says of the descendants of a span, down to any depth that covers the ranks above the
-- span's, which `top` bounds.
pub cumulative-eq-subtree :
    (rank : String → ℕ) (top : ℕ) (rows : List SpanRow)
    → IsSound rank rows
    → ((r : SpanRow) → In r rows → rank r.span_id < top)
    → (depth : ℕ) (r : SpanRow) → In r rows
    → top ≤ depth + rank r.span_id
    → r.cumulative ≡ subtree depth rows r
unfolding subtree
cumulative-eq-subtree rank top rows sound bound zero r i h = absurd (omega (arith, bound r i))
cumulative-eq-subtree rank top rows sound bound (suc depth) r i h =
    sound.consistent r i
    ∙ ap (◌⊕◌ (stored_self r)) (
        child_totals-sum_over (subtree depth rows) r.trace_rowid r.span_id rows λ c j e.
          cumulative-eq-subtree rank top rows sound bound depth c j (
            omega
              (arith, sound.ranked c j r.span_id (is_child_parent r.trace_rowid r.span_id c e))))
