-- ===== src/Store/Cumulative.antt =====
-- The cumulative columns of the spans table: what they should hold, and how one more row and the
-- walk to its ancestors keep them so.
use tracewell.Prelude.{
  ℕ, String, true, false, ◌&&◌, List, [], ◌∷◌, map, Option, eq_iff, ◌==◌, if◌then◌else◌, ◌≡◌, ap,
  sym, ◌∙◌, arith, In, inl, inr,
}
use tracewell.Store.Tables.{
  SpanRow, has_parent, is_child, sum_children, has_span, id_in, stored_self,
}
use tracewell.Store.Totals.{Totals, no_totals, ◌⊕◌, ⊕-no_totals, no_totals-⊕}
use tracewell.Store.Columns.{null_sum}

-- The cumulative totals of the direct children of a span, added up.
unfoldable pub child_totals : ℕ → String → List SpanRow → Totals
child_totals t sid rows = null_sum (sum_children t sid rows)

unfoldable pub share : ℕ → String → SpanRow → Totals
share t sid r = if is_child t sid r then r.cumulative else no_totals

pub child_totals-cons :
    (t : ℕ) (sid : String) (r : SpanRow) (rs : List SpanRow)
    → child_totals t sid (r ∷ rs) ≡ share t sid r ⊕ child_totals t sid rs
unfolding child_totals share sum_children null_sum
child_totals-cons t sid r rs =
    ground (arith, ⊕-no_totals r.cumulative, no_totals-⊕ (null_sum (sum_children t sid rs)))

-- Every row holds its own totals and those of its direct children.
abbrev pub IsConsistent : List SpanRow → Type 0
IsConsistent rows =
    (r : SpanRow)
    → In r rows
    → r.cumulative ≡ stored_self r ⊕ child_totals r.trace_rowid r.span_id rows

-- What the row that `pid` names still lacks.
abbrev pub due : ℕ → Option String → Totals → SpanRow → Totals
due t pid d r = if r.trace_rowid == t && has_parent r.span_id pid then d else no_totals

abbrev pub Lacks : ℕ → Option String → Totals → List SpanRow → Type 0
Lacks t pid d rows =
    (r : SpanRow)
    → In r rows
    → stored_self r ⊕ child_totals r.trace_rowid r.span_id rows ≡ r.cumulative ⊕ due t pid d r

-- No rowid and no span_id stands twice.
abbrev pub IsKeyed : List SpanRow → Type 0
IsKeyed [] = Unit {0}
IsKeyed (r ∷ rs) =
    (id_in r.id (map (λ x. x.id) rs) ≡ false) × (has_span r.span_id rs ≡ false) × IsKeyed rs

pub id_in_of_In :
    (r : SpanRow) (rows : List SpanRow) → In r rows → id_in r.id (map (λ x. x.id) rows) ≡ true
unfolding id_in
id_in_of_In r [] i = absurd i
id_in_of_In r (x ∷ rows) (inl e) = ground (arith, ap (λ (y : SpanRow). y.id) e)
id_in_of_In r (x ∷ rows) (inr i) = ground (arith, id_in_of_In r rows i)

pub has_span_of_In :
    (r : SpanRow) (rows : List SpanRow) → In r rows → has_span r.span_id rows ≡ true
unfolding has_span
has_span_of_In r [] i = absurd i
has_span_of_In r (x ∷ rows) (inl e) =
    ground (arith, ap (λ (y : SpanRow). y.span_id) e, eq_iff x.span_id r.span_id)
has_span_of_In r (x ∷ rows) (inr i) = ground (arith, has_span_of_In r rows i)

pub same_id :
    (rows : List SpanRow) (r a : SpanRow)
    → IsKeyed rows
    → In r rows
    → In a rows
    → r.id ≡ a.id
    → r ≡ a
same_id [] r a k i j e = absurd i
same_id (x ∷ rows) r a k (inl p) (inl q) e = p ∙ sym q
same_id (x ∷ rows) r a k (inl p) (inr j) e =
    cc (k.0, id_in_of_In a rows j, e, ap (λ (y : SpanRow). y.id) p)
same_id (x ∷ rows) r a k (inr i) (inl q) e =
    cc (k.0, id_in_of_In r rows i, e, ap (λ (y : SpanRow). y.id) q)
same_id (x ∷ rows) r a k (inr i) (inr j) e = same_id rows r a k.2 i j e

pub same_span_id :
    (rows : List SpanRow) (r a : SpanRow)
    → IsKeyed rows
    → In r rows
    → In a rows
    → r.span_id ≡ a.span_id
    → r ≡ a
same_span_id [] r a k i j e = absurd i
same_span_id (x ∷ rows) r a k (inl p) (inl q) e = p ∙ sym q
same_span_id (x ∷ rows) r a k (inl p) (inr j) e =
    cc (k.1, has_span_of_In a rows j, e, ap (λ (y : SpanRow). y.span_id) p)
same_span_id (x ∷ rows) r a k (inr i) (inl q) e =
    cc (k.1, has_span_of_In r rows i, e, ap (λ (y : SpanRow). y.span_id) q)
same_span_id (x ∷ rows) r a k (inr i) (inr j) e = same_span_id rows r a k.2 i j e
