-- ===== src/Api/TraceSpans/Listing.antt =====
-- ListTraceSpans gives the spans that ListSpans gives for one trace id, ordered by start time.
use mathlib.Core.List.{Perm}
use mathlib.Core.List.Perm
use tracewell.Prelude.{
  ℕ, pos, String, Bool, true, not, ◌&&◌, ◌||◌, List, [], ◌∷◌, map, Option, none, some, str_eq,
  codes, codes_ltb, ltb, ◌≡◌, refl, sym, ap, ◌∙◌, subst, arith, Bool-cases, Option-cases, inl, inr,
  All,
}
use tracewell.Store.Tables.{TraceRow, SpanRow}
use tracewell.Api.Page.{IsDistinct, scan_rows}
use tracewell.Api.Queries.{
  Span, SpanRead, SpanFilter, any_parent, scan_span, trace_of, matching_spans, joined, span_matches,
  allowed, parent_allowed,
}
use tracewell.Api.Overlap.{matching-IsDistinct}
use tracewell.Api.Traces.Sql.{
  insert_by, order_by, key_lt, row_lt, order_lt, sql_lt, is_null, int_lt,
}
use tracewell.Api.Traces.Order.{IsSorted, order_by-IsSorted}
use tracewell.Api.Traces.Keys.{text_key, key_lt_trans, key_lt-total, row_lt-eq-key_lt}
use tracewell.Api.TraceSpans.{
  Json, FullSpan, unmarshal_object, unmarshal_array, with_json, scan_full_span, joined_if,
  spans_of_trace, starts_before, list_trace_spans,
}

-- the filter of ?trace_id=…, and nothing else
abbrev pub only_trace : String → SpanFilter
only_trace trace_id = record {
  trace_ids = trace_id ∷ [];
  span_ids = [];
  parent_id = any_parent;
  names = [];
  span_kinds = [];
  status_codes = [];
}

-- One span comes before another in the answer.
abbrev pub earlier : FullSpan → FullSpan → Bool
earlier a b =
    codes_ltb (codes a.span.start_time) (codes b.span.start_time)
    || (not (codes_ltb (codes b.span.start_time) (codes a.span.start_time))
        && ltb a.span.id b.span.id)

joined-one :
    (project : ℕ) (trace_id : String) (s : SpanRow) (t : Option TraceRow) (rest : List SpanRead)
    → joined project (only_trace trace_id) s t rest ≡ joined_if project trace_id s t rest
unfolding joined joined_if span_matches allowed parent_allowed
joined-one project trace_id s none rest = refl
joined-one project trace_id s (some t) rest = elim (Bool-cases (str_eq t.trace_id trace_id)) [
  | inl e ↦ ground (arith, e)
  | inr e ↦ ground (arith, e)
]

matching-one :
    (project : ℕ) (trace_id : String) (ts : List TraceRow) (ss : List SpanRow)
    → matching_spans project (only_trace trace_id) ts ss ≡ spans_of_trace project trace_id ts ss
unfolding matching_spans spans_of_trace
matching-one project trace_id ts [] = refl
matching-one project trace_id ts (s ∷ ss) =
    ap (joined project (only_trace trace_id) s (trace_of s ts))
      (matching-one project trace_id ts ss)
    ∙ joined-one project trace_id s (trace_of s ts) (spans_of_trace project trace_id ts ss)

insert_by-Perm :
    {A : Type 0} (lt : A → A → Bool) (x : A) (ys : List A) → Perm (insert_by lt x ys) (x ∷ ys)
unfolding insert_by
insert_by-Perm lt x [] = Perm.rfl
insert_by-Perm lt x (y ∷ ys) = elim (Bool-cases (lt y x)) [
  | inl e ↦ rw e (Perm.trans (Perm.cons y (insert_by-Perm lt x ys)) (Perm.swap x y ys))
  | inr e ↦ rw e Perm.rfl
]

order_by-Perm : {A : Type 0} (lt : A → A → Bool) (xs : List A) → Perm (order_by lt xs) xs
unfolding order_by
order_by-Perm lt [] = Perm.rfl
order_by-Perm lt (x ∷ xs) =
    Perm.trans (insert_by-Perm lt x (order_by lt xs)) (Perm.cons x (order_by-Perm lt xs))

-- what the scan of a row keeps of it
scan_full_span-some :
    (j : Json) (r : SpanRead) (v : FullSpan)
    → scan_full_span j r ≡ some v
    → scan_span r ≡ some v.span
unfolding scan_full_span scan_span with_json
scan_full_span-some j r v h = elim (Option-cases (unmarshal_object j r.row.attributes)) [
  | inl e ↦ absurd (ground (arith, e))
  | inr (a, e) ↦ elim (Option-cases (unmarshal_array j r.row.events)) [
    | inl e' ↦ absurd (ground (arith, e, e'))
    | inr (es, e') ↦ ground (arith, e, e')
  ]
]

scan_rows-cons :
    {R A : Type 0} (scan : R → Option A) (r : R) (rs : List R) (out : List A)
    → scan_rows scan (r ∷ rs) ≡ some out
    → (v : A) × (vs : List A) × (scan r ≡ some v) × (scan_rows scan rs ≡ some vs) × (out ≡ v ∷ vs)
unfolding scan_rows
scan_rows-cons scan r rs out h = elim (Option-cases (scan r)) [
  | inl e ↦ absurd (ground (arith, e))
  | inr (v, e) ↦ elim (Option-cases (scan_rows scan rs)) [
    | inl e' ↦ absurd (ground (arith, e, e'))
    | inr (vs, e') ↦ (v, vs, e, e', ground (arith, e, e'))
  ]
]

scanned_spans :
    (j : Json) (rows : List SpanRead) (out : List FullSpan)
    → scan_rows (scan_full_span j) rows ≡ some out
    → map (λ v. some v.span) out ≡ map scan_span rows
unfolding scan_rows
scanned_spans j [] out h = let e : out ≡ [] = ground arith in rw e refl
scanned_spans j (r ∷ rs) out h =
    let (v, vs, e, e', same) = scan_rows-cons (scan_full_span j) r rs out h in
    rw (same, scan_full_span-some j r v e, scanned_spans j rs vs e') refl

scanned_order :
    (r : SpanRead) (s : Span)
    → scan_span r ≡ some s
    → (s.start_time ≡ r.row.start_time) × (s.id ≡ r.row.id)
unfolding scan_span
scanned_order r s h = (ground (arith, h), ground (arith, h))

earlier-starts_before :
    (a b : SpanRead) (v w : FullSpan)
    → scan_span a ≡ some v.span
    → scan_span b ≡ some w.span
    → earlier v w ≡ starts_before a b
unfolding starts_before
earlier-starts_before a b v w h g =
    let (start, id) = scanned_order a v.span h in
    let (start', id') = scanned_order b w.span g in rw (start, start', id, id') refl

All-earlier :
    (j : Json) (r : SpanRead) (v : FullSpan)
    → scan_span r ≡ some v.span
    → (rows : List SpanRead) (out : List FullSpan) → scan_rows (scan_full_span j) rows ≡ some out
    → All (λ s. starts_before r s ≡ true) rows
    → All (λ w. earlier v w ≡ true) out
unfolding scan_rows
All-earlier j r v e [] out h a = let none_left : out ≡ [] = ground arith in rw none_left tt
All-earlier j r v e (s ∷ rows) out h a =
    let (w, ws, e', e'', same) = scan_rows-cons (scan_full_span j) s rows out h in
    rw same (
      earlier-starts_before r s v w e (scan_full_span-some j s w e') ∙ a.0,
      All-earlier j r v e rows ws e'' a.1,
    )

scanned-IsSorted :
    (j : Json) (rows : List SpanRead) (out : List FullSpan)
    → scan_rows (scan_full_span j) rows ≡ some out
    → IsSorted starts_before rows
    → IsSorted earlier out
unfolding scan_rows
scanned-IsSorted j [] out h s = let none_left : out ≡ [] = ground arith in rw none_left tt
scanned-IsSorted j (r ∷ rows) out h s =
    let (v, vs, e, e', same) = scan_rows-cons (scan_full_span j) r rows out h in
    rw same (
      All-earlier j r v (scan_full_span-some j r v e) rows vs e' s.0,
      scanned-IsSorted j rows vs e' s.1,
    )

-- ORDER BY, on the rows
module _ (reals : ℕ → ℕ → Bool) where
  starts_before-eq :
      (a b : SpanRead)
      → starts_before a b
        ≡ key_lt reals true
            (text_key (codes a.row.start_time) (pos a.row.id))
            (text_key (codes b.row.start_time) (pos b.row.id))
  unfolding starts_before row_lt order_lt sql_lt is_null int_lt
  starts_before-eq a b =
      row_lt-eq-key_lt reals true (codes a.row.start_time) (codes b.row.start_time) (pos a.row.id)
        (pos b.row.id)

  rows-IsSorted :
      (rows : List SpanRead)
      → IsDistinct (λ (r : SpanRead). r.row.id) rows
      → IsSorted starts_before (order_by starts_before rows)
  rows-IsSorted rows d =
      order_by-IsSorted starts_before (λ (r : SpanRead). r.row.id)
        (λ a b n h.
          starts_before-eq b a
          ∙ key_lt-total reals true (codes a.row.start_time) (codes b.row.start_time) a.row.id
              b.row.id n (sym (starts_before-eq a b) ∙ h))
        (λ a b c h g.
          starts_before-eq a c
          ∙ key_lt_trans reals true (codes a.row.start_time) (codes b.row.start_time)
              (codes c.row.start_time) (pos a.row.id) (pos b.row.id) (pos c.row.id)
              (sym (starts_before-eq a b) ∙ h) (sym (starts_before-eq b c) ∙ g))
        rows d

-- The spans of one trace are ordered by start time, and by id where two start times are equal, and they are
-- the rows that the span list selects by that trace id alone, each once, read in the same way. It is stated
-- for distinct rowids and an answer in which every row could be scanned.
pub list_trace_spans_lem :
    (j : Json) (project : ℕ) (trace_id : String) (ts : List TraceRow) (ss : List SpanRow)
    (out : List FullSpan)
    → IsDistinct (λ (s : SpanRow). s.id) ss
    → list_trace_spans j project trace_id ts ss ≡ some out
    → IsSorted earlier out
      × Perm
          (map (λ v. some v.span) out)
          (map scan_span (matching_spans project (only_trace trace_id) ts ss))
unfolding list_trace_spans
list_trace_spans_lem j project trace_id ts ss out d h =
    let same = matching-one project trace_id ts ss in
    let apart : IsDistinct (λ (r : SpanRead). r.row.id) (spans_of_trace project trace_id ts ss) =
      subst (IsDistinct (λ (r : SpanRead). r.row.id)) same
        (matching-IsDistinct project (only_trace trace_id) ts ss d) in
    (
      scanned-IsSorted j _ out h (rows-IsSorted ltb (spans_of_trace project trace_id ts ss) apart),
      rw (scanned_spans j _ out h, same)
          (Perm.map scan_span
            (order_by-Perm starts_before (spans_of_trace project trace_id ts ss))),
    )
