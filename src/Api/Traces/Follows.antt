-- ===== src/Api/Traces/Follows.antt =====
-- ListTraces by start_time: its pages follow one another without a gap or a repeat.
use tracewell.Prelude.{
  ℕ, suc, ◌+◌, ◌<◌, ◌^◌, ℤ, pos, Bool, true, false, List, [], ◌∷◌, ◌++◌, Option, none, some, codes,
  ◌≡◌, ◌≢◌, refl, sym, ap, ◌∙◌, subst, arith, In, inl, inr, Option-cases, append_assoc,
}
use tracewell.Store.Tables.{TraceRow, SpanRow}
use tracewell.Api.Page.{IsDistinct}
use tracewell.Api.Cursor.{Decoded, bad_cursor, cursor, decode_trace_cursor, decode-encode}
use tracewell.Api.Traces.Order.{In-middle}
use tracewell.Api.Traces.Rows.{sorted_rows-after, In-sorted_rows}
use tracewell.Api.Traces.Scanned.{page_from, Continues, page_from-Continues}
use tracewell.Api.Traces.Pages.{pages}
use tracewell.Api.Traces.{
  Outside, Trace, TraceFilter, by_latency, is_asc, page, scan_trace, scanned, trace_cursor,
  trace_matches, sorted_rows, trace_rows, list_from, list_decoded, list_traces,
}

module _ (o : Outside) (project : ℕ) (f : TraceFilter) (traces : List TraceRow)
    (spans : List SpanRow) where
  -- the rows past a position, under the filter
  abbrev rows_at : Option (List ℕ × ℤ) → List TraceRow
  rows_at k = sorted_rows o (by_latency f) (is_asc f) (trace_matches o project f spans) k traces

  abbrev limited : ℕ → TraceFilter
  limited m = record f { limit = m }

  list_from-page_from :
      (m : ℕ) (cs : List ℕ) (k : Option (List ℕ × ℤ))
      → list_from o project (record f { limit = m; cursor = cs }) traces spans k
        ≡ page_from o (by_latency f) spans m (rows_at k)
  unfolding list_from trace_rows trace_matches
  list_from-page_from m cs k = refl

  -- a call that returns a page reads the rows past one position, whatever its limit
  opens :
      (cs : List ℕ) (m : ℕ) (out : List Trace) (next : List ℕ)
      → list_traces o project (record f { limit = m; cursor = cs }) traces spans ≡ page out next
      → (k : Option (List ℕ × ℤ)) × ((l : ℕ)
          → list_traces o project (record f { limit = l; cursor = cs }) traces spans
            ≡ page_from o (by_latency f) spans l (rows_at k))
  unfolding list_traces list_decoded
  opens [] m out next h = (none, λ l. list_from-page_from l [] none)
  opens (c ∷ cs) m out next h = go (decode_trace_cursor (c ∷ cs)) refl
    where
      go :
          (d : Decoded)
          → decode_trace_cursor (c ∷ cs) ≡ d
          → (k : Option (List ℕ × ℤ)) × ((l : ℕ)
              → list_traces o project (record f { limit = l; cursor = c ∷ cs }) traces spans
                ≡ page_from o (by_latency f) spans l (rows_at k))
      go bad_cursor e = absurd (ground (arith, e))
      go (cursor value row) e =
          (some (value, row), λ l. rw e (list_from-page_from l (c ∷ cs) (some (value, row))))

  -- a call with a cursor that decodes
  reads :
      (cs : List ℕ) (value : List ℕ) (row : ℤ) (l : ℕ)
      → cs ≢ []
      → decode_trace_cursor cs ≡ cursor value row
      → list_traces o project (record f { limit = l; cursor = cs }) traces spans
        ≡ page_from o (by_latency f) spans l (rows_at (some (value, row)))
  unfolding list_traces list_decoded
  reads [] value row l n e = absurd (n refl)
  reads (c ∷ cs) value row l n e = rw e (list_from-page_from l (c ∷ cs) (some (value, row)))

  -- what the cursor of a page holds
  scanned_last :
      (x : TraceRow) (v : Trace)
      → scan_trace o spans x ≡ some v
      → (v.id ≡ x.id) × (o.parse_time x.start_time ≡ some v.start_time)
  unfolding scan_trace scanned
  scanned_last x v h = elim (Option-cases (o.latency x.start_time x.end_time)) [
    | inl e ↦ absurd (ground (arith, e))
    | inr (l, e) ↦ elim (Option-cases (o.parse_time x.start_time)) [
      | inl e' ↦ absurd (ground (arith, e, e'))
      | inr (s, e') ↦ elim (Option-cases (o.parse_time x.end_time)) [
        | inl e'' ↦ absurd (ground (arith, e, e', e''))
        | inr (t, e'') ↦ (ground (arith, e, e', e''), ground (arith, e, e', e''))
      ]
    ]
  ]

  decoded_last :
      (x : TraceRow) (v : Trace)
      → by_latency f ≡ false
      → scan_trace o spans x ≡ some v
      → x.id < 2 ^ 63
      → ((z : ℤ) → o.parse_time x.start_time ≡ some z → o.format_time z ≡ codes x.start_time)
      → decode_trace_cursor (trace_cursor o (by_latency f) (some v))
        ≡ cursor (codes x.start_time) (pos x.id)
  unfolding trace_cursor
  decoded_last x v sort h small back =
      let (same, start) = scanned_last x v h in
      let written : o.format_time v.start_time ≡ codes x.start_time = back v.start_time start in
      rw (sort, written, same)
        (decode-encode (record { sort_value = codes x.start_time; row_id = pos x.id }) small)

  -- the rows past a row of the listing
  rows_after :
      (b : Bool) (matches : TraceRow → Bool) (k : Option (List ℕ × ℤ)) (pre : List TraceRow)
      (x : TraceRow) (post : List TraceRow)
      → b ≡ false
      → IsDistinct (λ (t : TraceRow). t.id) traces
      → sorted_rows o b (is_asc f) matches k traces ≡ pre ++ x ∷ post
      → sorted_rows o b (is_asc f) matches (some (codes x.start_time, pos x.id)) traces ≡ post
  rows_after true matches k pre x post e d h = absurd (ground (arith, e))
  rows_after false matches k pre x post e d h =
      sorted_rows-after o (is_asc f) matches traces d k pre x post h

  -- the page at the cursor of a page holds the rest of its rows
  after_page :
      (m l : ℕ) (k : Option (List ℕ × ℤ)) (out : List Trace) (next : List ℕ)
      → by_latency f ≡ false
      → IsDistinct (λ (t : TraceRow). t.id) traces
      → ((t : TraceRow) → In t traces → t.id < 2 ^ 63)
      → ((t : TraceRow)
          → In t traces
          → (z : ℤ) → o.parse_time t.start_time ≡ some z
          → o.format_time z ≡ codes t.start_time)
      → next ≢ []
      → (c : Continues o (by_latency f) spans m (rows_at k) out next)
      → list_traces o project (record f { limit = l; cursor = next }) traces spans
        ≡ page_from o (by_latency f) spans l c.rest
  after_page m l k out next sort d small back ne c =
      let whole : rows_at k ≡ c.front ++ c.x ∷ c.rest =
        c.whole ∙ append_assoc c.front (c.x ∷ []) c.rest in
      let here : In c.x traces =
        In-sorted_rows o (by_latency f) (is_asc f) (trace_matches o project f spans) k c.x traces
          (subst (In c.x) (sym whole) (In-middle c.x c.front c.rest)) in
      reads next (codes c.x.start_time) (pos c.x.id) l ne (
        ap decode_trace_cursor c.cursor
        ∙ decoded_last c.x c.value sort c.scanned_last (small c.x here) (back c.x here))
      ∙ ap (page_from o (by_latency f) spans l) (
          rows_after (by_latency f) (trace_matches o project f spans) k c.front c.x c.rest sort d
            whole)

-- Two consecutive pages by start_time, the second with the cursor that the first returned, are the one page of
-- both limits together: no trace is skipped and none comes twice, in either direction, under every
-- filter and from every first cursor. It is stated for a sort other than "latency_ms", a second limit of at
-- least 1, distinct rowids that an int64 holds, and start times that are formatted as they are stored.
pub list_traces_follows :
    (o : Outside) (project : ℕ) (f : TraceFilter) (traces : List TraceRow) (spans : List SpanRow)
    (m n : ℕ) (first : List ℕ) (out out' : List Trace) (next next' : List ℕ)
    → by_latency f ≡ false
    → IsDistinct (λ (t : TraceRow). t.id) traces
    → ((t : TraceRow) → In t traces → t.id < 2 ^ 63)
    → ((t : TraceRow)
        → In t traces
        → (z : ℤ) → o.parse_time t.start_time ≡ some z
        → o.format_time z ≡ codes t.start_time)
    → list_traces o project (record f { limit = m; cursor = first }) traces spans ≡ page out next
    → next ≢ []
    → list_traces o project (record f { limit = suc n; cursor = next }) traces spans
      ≡ page out' next'
    → list_traces o project (record f { limit = m + suc n; cursor = first }) traces spans
      ≡ page (out ++ out') next'
list_traces_follows o project f traces spans m n first out out' next next' sort d small back h ne
      h' =
    let (k, opened) = opens o project f traces spans first m out next h in
    let rows = rows_at o project f traces spans k in
    let c = page_from-Continues o (by_latency f) spans m rows out next (sym (opened m) ∙ h) ne in
    opened (m + suc n)
    ∙ pages o (by_latency f) spans m n rows out out' next next' c
        (sym (after_page o project f traces spans m (suc n) k out next sort d small back ne c) ∙ h')
