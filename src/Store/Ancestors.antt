-- ===== src/Store/Ancestors.antt =====
-- The walk of propagateToAncestors settles, row by row, what the new row's ancestors lack.

use tracewell.Prelude.{
  ℕ, zero, suc, String, false, ◌&&◌, List, [], ◌∷◌, map, Option, none, some, eq_iff, ◌==◌, ◌≡◌,
  refl, ap, sym, ◌∙◌, subst, arith, In, inl, inr, Bool-cases, ==_iff, Option-cases,
}
use tracewell.Store.Tables.{SpanRow, has_parent, find_span, has_span, id_in, credit, add_to_spans}
use tracewell.Store.Totals.{Totals, ⊕-no_totals}
use tracewell.Store.Insert.{ancestors}
use tracewell.Store.Cumulative.{IsConsistent, Lacks, IsKeyed}
use tracewell.Store.Crediting.{find_span-none, ancestors-add, Lacks-credit}

-- The ids of a walk, with none twice.
abbrev pub IsSimple : List ℕ → Type 0
IsSimple [] = Unit {0}
IsSimple (i ∷ ids) = (id_in i ids ≡ false) × IsSimple ids

-- Crediting several rows at once is crediting the first and then the others.
add_to_spans-cons :
    (i : ℕ) (ids : List ℕ) (d : Totals) (rows : List SpanRow)
    → id_in i ids ≡ false
    → add_to_spans (i ∷ ids) d rows ≡ add_to_spans ids d (add_to_spans (i ∷ []) d rows)
unfolding add_to_spans
add_to_spans-cons i ids d [] h = refl
add_to_spans-cons i ids d (r ∷ rows) h = cc (one, add_to_spans-cons i ids d rows h)
  where
    one : credit (i ∷ ids) d r ≡ credit ids d (credit (i ∷ []) d r)
    one = elim (Bool-cases (r.id == i)) [
      | inl e ↦
          let same : r.id ≡ i = (==_iff r.id i).0 e in
          unfold credit id_in in ground (arith, ap (λ j. id_in j ids) same)
      | inr e ↦ unfold credit id_in in ground arith
    ]

add_to_spans_ids :
    (ids : List ℕ) (d : Totals) (rows : List SpanRow)
    → map (λ r. r.id) (add_to_spans ids d rows) ≡ map (λ r. r.id) rows
unfolding add_to_spans credit
add_to_spans_ids ids d [] = refl
add_to_spans_ids ids d (r ∷ rows) = ground (arith, add_to_spans_ids ids d rows)

pub has_span-add :
    (sid : String) (ids : List ℕ) (d : Totals) (rows : List SpanRow)
    → has_span sid (add_to_spans ids d rows) ≡ has_span sid rows
unfolding add_to_spans credit has_span
has_span-add sid ids d [] = refl
has_span-add sid ids d (r ∷ rows) = ground (arith, has_span-add sid ids d rows)

pub add_to_spans-IsKeyed :
    (ids : List ℕ) (d : Totals) (rows : List SpanRow)
    → IsKeyed rows
    → IsKeyed (add_to_spans ids d rows)
unfolding add_to_spans
add_to_spans-IsKeyed ids d [] k = tt
add_to_spans-IsKeyed ids d (r ∷ rows) k = (
  rw (credit_id, add_to_spans_ids ids d rows) k.0,
  rw (credit_span_id, has_span-add r.span_id ids d rows) k.1,
  add_to_spans-IsKeyed ids d rows k.2,
)
  where
    credit_id : (credit ids d r).id ≡ r.id
    credit_id = unfold credit in ground arith

    credit_span_id : (credit ids d r).span_id ≡ r.span_id
    credit_span_id = unfold credit in ground arith

pub add_to_spans-none : (d : Totals) (rows : List SpanRow) → add_to_spans [] d rows ≡ rows
unfolding add_to_spans credit id_in
add_to_spans-none d [] = refl
add_to_spans-none d (r ∷ rows) = ap (◌∷◌ r) (add_to_spans-none d rows)

-- If nothing that stands is lacking, the rows are consistent.
Lacks-none :
    (t : ℕ) (pid : Option String) (d : Totals) (rows : List SpanRow)
    → ((r : SpanRow) → In r rows → (r.trace_rowid == t && has_parent r.span_id pid) ≡ false)
    → Lacks t pid d rows
    → IsConsistent rows
Lacks-none t pid d rows away h r i = ground (arith, h r i, away r i, ⊕-no_totals r.cumulative)

nothing_credited :
    (ids : List ℕ) (d : Totals) (rows : List SpanRow)
    → ids ≡ []
    → IsConsistent rows
    → IsConsistent (add_to_spans ids d rows)
nothing_credited ids d rows e c =
    subst (λ x. IsConsistent x) (sym (ap (λ j. add_to_spans j d rows) e ∙ add_to_spans-none d rows))
      c

-- A walk that finds a row goes on from its parent.
pub ancestors-found :
    (steps t : ℕ) (pid : String) (rows : List SpanRow) (a : SpanRow) (ids : List ℕ)
    → find_span t pid rows ≡ some a
    → ancestors (suc steps) t (some pid) rows ≡ some ids
    → (rest : List ℕ) × (ancestors steps t a.parent_id rows ≡ some rest) × (ids ≡ a.id ∷ rest)
unfolding ancestors
ancestors-found steps t pid rows a ids e w =
    elim (Option-cases (ancestors steps t a.parent_id rows)) [
      | inl none_left ↦ absurd (ground arith)
      | inr (rest, w') ↦ (rest, w', ground arith)
    ]

-- A walk that ends, over distinct rows, makes the rows consistent.
pub settle :
    (steps t : ℕ) (pid : Option String) (d : Totals) (rows : List SpanRow) (ids : List ℕ)
    → IsKeyed rows
    → ancestors steps t pid rows ≡ some ids
    → IsSimple ids
    → Lacks t pid d rows
    → IsConsistent (add_to_spans ids d rows)
settle steps t none d rows ids k w n h =
    nothing_credited ids d rows (unfold ancestors in ground arith)
      (Lacks-none t none d rows (λ r i. unfold has_parent in ground arith) h)
settle zero t (some pid) d rows ids k w n h = unfold ancestors in absurd (ground arith)
settle (suc steps) t (some pid) d rows ids k w n h = elim (Option-cases (find_span t pid rows)) [
  | inl e ↦ nothing_credited ids d rows (unfold ancestors in ground arith) (
      Lacks-none t (some pid) d rows
        (λ r i.
          unfold has_parent in
          ground
            (arith, find_span-none t pid rows r e i, eq_iff r.span_id pid, eq_iff pid r.span_id))
        h)
  | inr (a, e) ↦
      let (rest, w', p) = ancestors-found steps t pid rows a ids e w in
      let rows' = add_to_spans (a.id ∷ []) d rows in
      let n' : IsSimple (a.id ∷ rest) = subst IsSimple p n in
      subst (λ x. IsConsistent x)
        (sym (ap (λ j. add_to_spans j d rows) p ∙ add_to_spans-cons a.id rest d rows n'.0))
        (settle steps t a.parent_id d rows' rest (add_to_spans-IsKeyed (a.id ∷ []) d rows k)
          (ancestors-add steps t a.parent_id (a.id ∷ []) d rows ∙ w') n'.1
          (Lacks-credit t pid d rows a k e h))
]
