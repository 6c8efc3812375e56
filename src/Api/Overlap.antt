-- ===== src/Api/Overlap.antt =====
-- Consecutive pages of the project list and of the span list overlap.
use tracewell.Prelude.{
  ℕ, suc, ℤ, List, [], ◌∷◌, some, ◌≡◌, ◌≢◌, refl, arith, ap, ◌∙◌, subst, All, Option-cases,
  Bool-cases, inl, inr,
}
use tracewell.Store.Tables.{ProjectRow, TraceRow, SpanRow}
use tracewell.Api.Page.{IsDistinct, list_page}
use tracewell.Api.Repeats.{last?, head?, list_page_repeats}
use tracewell.Api.Queries.{
  Project, ParseTime, scan_project, list_projects, SpanFilter, SpanRead, span_matches, joined,
  trace_of, matching_spans, Span, scan_span, last_id, list_spans,
}

scanned_id :
    (parse_time : ParseTime) (zero_time : ℤ) (r : ProjectRow) (v : Project)
    → scan_project parse_time zero_time r ≡ some v
    → v.id ≡ r.id
unfolding scan_project
scanned_id parse_time zero_time r v e = ground arith

scanned_span_id : (r : SpanRead) (v : Span) → scan_span r ≡ some v → v.id ≡ r.row.id
unfolding scan_span
scanned_span_id r v e = ground arith

-- Take a page of ListProjects with a limit of at least 1, and the page whose cursor is the id of its
-- last project, as the handler gives out. Then the second page starts with the last project
-- of the first one. It is stated for distinct rowids and a last project whose rowid is not 0.
pub list_projects_repeats :
    (parse_time : ParseTime) (zero_time : ℤ) (rows : List ProjectRow)
    → IsDistinct (λ (r : ProjectRow). r.id) rows
    → (limit cursor : ℕ) (out next : List Project) (more more' : ℕ) (p : Project)
    → list_projects parse_time zero_time (suc limit) cursor rows ≡ some (out, more)
    → last? out ≡ some p
    → p.id ≢ 0
    → list_projects parse_time zero_time (suc limit) p.id rows ≡ some (next, more')
    → head? next ≡ some p
unfolding list_projects
list_projects_repeats parse_time zero_time rows d limit cursor out next more more' p h l n h' =
    list_page_repeats (λ r. r.id) (scan_project parse_time zero_time) (λ q. q.id)
      (scanned_id parse_time zero_time) rows d limit cursor out next more more' p h l n h'

matching-All :
    (project : ℕ) (f : SpanFilter) (ts : List TraceRow) (i : ℕ) (ss : List SpanRow)
    → All (λ s. s.id ≢ i) ss
    → All (λ (r : SpanRead). r.row.id ≢ i) (matching_spans project f ts ss)
unfolding matching_spans
matching-All project f ts i [] a = tt
matching-All project f ts i (s ∷ ss) a = elim (Option-cases (trace_of s ts)) [
  | inl e ↦ rw e (matching-All project f ts i ss a.1)
  | inr (t, e) ↦ elim (Bool-cases (span_matches project f t s)) [
    | inl m ↦ rw (e, joined, m) (a.0, matching-All project f ts i ss a.1)
    | inr m ↦ rw (e, joined, m) (matching-All project f ts i ss a.1)
  ]
]

pub matching-IsDistinct :
    (project : ℕ) (f : SpanFilter) (ts : List TraceRow) (ss : List SpanRow)
    → IsDistinct (λ (s : SpanRow). s.id) ss
    → IsDistinct (λ (r : SpanRead). r.row.id) (matching_spans project f ts ss)
unfolding matching_spans
matching-IsDistinct project f ts [] d = tt
matching-IsDistinct project f ts (s ∷ ss) d = elim (Option-cases (trace_of s ts)) [
  | inl e ↦ rw e (matching-IsDistinct project f ts ss d.1)
  | inr (t, e) ↦ elim (Bool-cases (span_matches project f t s)) [
    | inl m ↦
        rw (e, joined, m)
          (matching-All project f ts s.id ss d.0, matching-IsDistinct project f ts ss d.1)
    | inr m ↦ rw (e, joined, m) (matching-IsDistinct project f ts ss d.1)
  ]
]

last_id-last? :
    (spans : List Span)
    → last_id spans ≢ 0
    → (p : Span) × (last? spans ≡ some p) × (last_id spans ≡ p.id)
unfolding last_id last?
last_id-last? [] n = absurd (n refl)
last_id-last? (s ∷ []) n = (s, refl, refl)
last_id-last? (s ∷ t ∷ ts) n = last_id-last? (t ∷ ts) n

-- ListSpans returns the rows of the page, and the last row's id if its cursor is not 0.
page_below :
    (project : ℕ) (f : SpanFilter) (ts : List TraceRow) (ss : List SpanRow) (limit cursor : ℕ)
    (out : List Span) (c : ℕ)
    → list_spans project f limit cursor ts ss ≡ some (out, c)
    → (more : ℕ) × (list_page
          (λ (r : SpanRead). r.row.id)
          scan_span
          limit
          cursor
          (matching_spans project f ts ss)
        ≡ some (out, more))
      × (c ≢ 0 → c ≡ last_id out)
unfolding list_spans
page_below project f ts ss limit cursor out c h =
    elim (Option-cases (
      list_page (λ (r : SpanRead). r.row.id) scan_span limit cursor
        (matching_spans project f ts ss))) [
          | inl e ↦ absurd (ground arith)
          | inr ((spans, more), e) ↦
              let same : spans ≡ out = ground arith in
              (more, e ∙ ap (λ l. some (l, more)) same, λ n. ground arith)
        ]

-- Take a page of ListSpans with a limit of at least 1 whose returned cursor c is not 0, and the page
-- at the cursor c under the same filter. Then the second page starts with the last span of the first
-- one, although c is documented as the first row of the next page. It is stated for distinct rowids.
pub list_spans_repeats :
    (project : ℕ) (f : SpanFilter) (ts : List TraceRow) (ss : List SpanRow)
    → IsDistinct (λ (s : SpanRow). s.id) ss
    → (limit cursor c c' : ℕ) (out next : List Span)
    → list_spans project f (suc limit) cursor ts ss ≡ some (out, c)
    → c ≢ 0
    → list_spans project f (suc limit) c ts ss ≡ some (next, c')
    → (p : Span) × (last? out ≡ some p) × (head? next ≡ some p)
list_spans_repeats project f ts ss d limit cursor c c' out next h n h' =
    let (more, e, k) = page_below project f ts ss (suc limit) cursor out c h in
    let (more', e', k') = page_below project f ts ss (suc limit) c next c' h' in
    let last : c ≡ last_id out = k n in
    let (p, l, i) = last_id-last? out (λ z. n (last ∙ z)) in
    (
      p,
      l,
      list_page_repeats (λ r. r.row.id) scan_span (λ s. s.id) scanned_span_id
          (matching_spans project f ts ss) (matching-IsDistinct project f ts ss d) limit cursor out
          next more more' p e l (λ z. n (last ∙ i ∙ z))
          (subst
            (λ x.
              list_page (λ (r : SpanRead). r.row.id) scan_span (suc limit) x
                (matching_spans project f ts ss)
              ≡ some (next, more'))
            (last ∙ i) e'),
    )
