-- ===== src/Store/Crediting.antt =====
-- What the UPDATE of propagateToAncestors does to one row and to the sums over its children.
use mathlib.Core.Option
use tracewell.Prelude.{
  ℕ, zero, suc, String, false, ◌&&◌, List, [], ◌∷◌, map, Option, none, some, str_eq, eq_iff, ◌==◌,
  if◌then◌else◌, ◌≡◌, refl, ap, sym, ◌∙◌, arith, In, inl, inr, Bool-cases, In-map, Option-cases,
}
use tracewell.Store.Tables.{
  SpanRow, has_parent, is_child, find_span, id_in, credit, add_to_spans, stored_self,
}
use tracewell.Store.Totals.{Totals, no_totals, ◌⊕◌, ⊕_assoc, ⊕-no_totals, ⊕_right_comm}
use tracewell.Store.Insert.{ancestors}
use tracewell.Store.Cumulative.{
  child_totals, share, child_totals-cons, due, Lacks, IsKeyed, id_in_of_In, same_id, same_span_id,
}

add_to_spans_absent :
    (i : ℕ) (d : Totals) (rows : List SpanRow)
    → id_in i (map (λ x. x.id) rows) ≡ false
    → add_to_spans (i ∷ []) d rows ≡ rows
unfolding add_to_spans credit id_in
add_to_spans_absent i d [] h = refl
add_to_spans_absent i d (x ∷ rows) h = ground (arith, add_to_spans_absent i d rows)

-- The part of `d` that a row's children receive when the rows with these ids are credited.
extra : List ℕ → ℕ → String → Totals → SpanRow → Totals
extra ids t sid d r = if id_in r.id ids && is_child t sid r then d else no_totals

child_totals-add :
    (t : ℕ) (sid : String) (ids : List ℕ) (d : Totals) (r : SpanRow) (rows : List SpanRow)
    → child_totals t sid (add_to_spans ids d (r ∷ rows))
      ≡ (share t sid r ⊕ extra ids t sid d r) ⊕ child_totals t sid (add_to_spans ids d rows)
unfolding add_to_spans
child_totals-add t sid ids d r rows =
    child_totals-cons t sid (credit ids d r) (map (credit ids d) rows)
    ∙ ap (λ u. u ⊕ child_totals t sid (map (credit ids d) rows)) share_credit
  where
    share_credit : share t sid (credit ids d r) ≡ share t sid r ⊕ extra ids t sid d r
    share_credit =
        unfold share extra credit is_child in
        ground (arith, ⊕-no_totals r.cumulative, ⊕-no_totals no_totals)

-- Crediting one row raises the totals of its parent's children, and of no other row's.
child_totals-credit :
    (t : ℕ) (sid : String) (d : Totals) (rows : List SpanRow) (a : SpanRow)
    → IsKeyed rows
    → In a rows
    → child_totals t sid (add_to_spans (a.id ∷ []) d rows)
      ≡ child_totals t sid rows ⊕ (if is_child t sid a then d else no_totals)
unfolding extra id_in
child_totals-credit t sid d [] a k i = absurd i
child_totals-credit t sid d (x ∷ rows) a k (inl p) = rw p (
    ground (
      arith,
      child_totals-add t sid (x.id ∷ []) d x rows,
      add_to_spans_absent x.id d rows k.0,
      child_totals-cons t sid x rows,
      ⊕_right_comm (share t sid x) (if is_child t sid x then d else no_totals)
          (child_totals t sid rows),
    ))
child_totals-credit t sid d (x ∷ rows) a k (inr j) = ground (
  arith,
  child_totals-add t sid (a.id ∷ []) d x rows,
  child_totals-credit t sid d rows a k.2 j,
  child_totals-cons t sid x rows,
  ⊕-no_totals (share t sid x),
  other,
  ⊕_assoc (share t sid x) (child_totals t sid rows) (if is_child t sid a then d else no_totals),
)
  where
    other : (x.id == a.id) ≡ false
    other = ground (arith, id_in_of_In a rows j, k.0)

pub find_span-some :
    (t : ℕ) (pid : String) (rows : List SpanRow) (a : SpanRow)
    → find_span t pid rows ≡ some a
    → In a rows × (a.trace_rowid ≡ t) × (a.span_id ≡ pid)
unfolding find_span
find_span-some t pid [] a h = cc
find_span-some t pid (x ∷ rows) a h =
    elim (Bool-cases (x.trace_rowid == t && str_eq x.span_id pid)) [
      | inl hit ↦ ground (arith, eq_iff x.span_id pid)
      | inr miss ↦ let (i, u, v) = find_span-some t pid rows a (ground arith) in (inr i, u, v)
    ]

pub find_span-none :
    (t : ℕ) (pid : String) (rows : List SpanRow) (r : SpanRow)
    → find_span t pid rows ≡ none
    → In r rows
    → (r.trace_rowid == t && str_eq r.span_id pid) ≡ false
unfolding find_span
find_span-none t pid [] r h i = absurd i
find_span-none t pid (x ∷ rows) r h (inl p) = rw p (ground arith)
find_span-none t pid (x ∷ rows) r h (inr i) = find_span-none t pid rows r (ground arith) i

pub find_span-add :
    (t : ℕ) (pid : String) (ids : List ℕ) (d : Totals) (rows : List SpanRow)
    → find_span t pid (add_to_spans ids d rows) ≡ Option.map (credit ids d) (find_span t pid rows)
unfolding find_span add_to_spans credit
find_span-add t pid ids d [] = refl
find_span-add t pid ids d (x ∷ rows) = ground (arith, find_span-add t pid ids d rows)

credit_keys :
    (ids : List ℕ) (d : Totals) (a : SpanRow)
    → ((credit ids d a).id ≡ a.id) × ((credit ids d a).parent_id ≡ a.parent_id)
unfolding credit
credit_keys ids d a = elim (Bool-cases (id_in a.id ids)) [
  | inl e ↦ rw e (refl, refl)
  | inr e ↦ rw e (refl, refl)
]

-- The walk reads the ids and the parents alone, which crediting leaves as they are.
pub ancestors-add :
    (steps t : ℕ) (p : Option String) (ids : List ℕ) (d : Totals) (rows : List SpanRow)
    → ancestors steps t p (add_to_spans ids d rows) ≡ ancestors steps t p rows
unfolding ancestors credit
ancestors-add steps t none ids d rows = refl
ancestors-add zero t (some pid) ids d rows = refl
ancestors-add (suc steps) t (some pid) ids d rows = elim (Option-cases (find_span t pid rows)) [
  | inl e ↦ ground (arith, find_span-add t pid ids d rows)
  | inr (a, e) ↦
      let (id, parent) = credit_keys ids d a in
      let rest : ancestors steps t (credit ids d a).parent_id (add_to_spans ids d rows)
          ≡ ancestors steps t a.parent_id rows =
        ap (λ p. ancestors steps t p (add_to_spans ids d rows)) parent
        ∙ ancestors-add steps t a.parent_id ids d rows in
      rw (find_span-add t pid ids d rows, e, ancestors) (rw (id, rest) refl)
]

module _ (t : ℕ) (pid : String) (d : Totals) (rows : List SpanRow) (a : SpanRow) (k : IsKeyed rows)
    (found : find_span t pid rows ≡ some a) where
  -- The row that is found is credited what it lacks, the others nothing.
  credit-due :
      (r : SpanRow)
      → In r rows
      → (credit (a.id ∷ []) d r).cumulative ≡ r.cumulative ⊕ due t (some pid) d r
  unfolding credit id_in has_parent
  credit-due r j =
      let (ia, ta, sa) = find_span-some t pid rows a found in
      elim (Bool-cases (r.id == a.id)) [
        | inl hit ↦
            rw (same_id rows r a k j ia (ground arith)) (ground (arith, eq_iff pid a.span_id))
        | inr miss ↦ elim (Bool-cases (str_eq pid r.span_id)) [
          | inl named ↦
              let same =
                same_span_id rows r a k j ia (sym ((eq_iff pid r.span_id).0 named) ∙ sym sa) in
              absurd (ground (arith, ap (λ (x : SpanRow). x.id) same))
          | inr other ↦ ground (arith, ⊕-no_totals r.cumulative)
        ]
      ]

  due-child :
      (r : SpanRow)
      → due t a.parent_id d r ≡ (if is_child r.trace_rowid r.span_id a then d else no_totals)
  unfolding is_child
  due-child r = let (ia, ta, sa) = find_span-some t pid rows a found in ground arith

  Lacks-credit_row :
      (r : SpanRow)
      → In r rows
      → Lacks t (some pid) d rows
      → stored_self r ⊕ child_totals r.trace_rowid r.span_id (add_to_spans (a.id ∷ []) d rows)
        ≡ (credit (a.id ∷ []) d r).cumulative ⊕ due t a.parent_id d r
  Lacks-credit_row r j h =
      let (ia, ta, sa) = find_span-some t pid rows a found in
      let extra_child = (if is_child r.trace_rowid r.span_id a then d else no_totals) in
      rw (child_totals-credit r.trace_rowid r.span_id d rows a k ia, due-child r, credit-due r j)
        (sym (⊕_assoc (stored_self r) (child_totals r.trace_rowid r.span_id rows) extra_child)
          ∙ ap (λ u. u ⊕ extra_child) (h r j))

  -- … and passes what is lacking on to its own parent.
  pub Lacks-credit :
      Lacks t (some pid) d rows → Lacks t a.parent_id d (add_to_spans (a.id ∷ []) d rows)
  unfolding add_to_spans stored_self
  Lacks-credit h r' i =
      let (r, j, p) = In-map (credit (a.id ∷ []) d) rows i in
      rw (p, unchanged r) (Lacks-credit_row r j h)
    where
      unchanged :
          (r : SpanRow)
          → credit (a.id ∷ []) d r ≡ record r { cumulative = (credit (a.id ∷ []) d r).cumulative }
      unchanged r = unfold credit in ground arith
