-- ===== src/Api/Traces/Latency.antt =====
-- ListTraces by latency_ms: its cursor compares a number with a text.
use tracewell.Prelude.{
  ℕ, zero, suc, leb, ℤ, Bool, true, false, ◌&&◌, List, [], ◌∷◌, none, some, take, ◌+◌, ◌≡◌, ◌≢◌,
  refl, arith, In, inl, inr, All-In, Option-cases, if◌then◌else◌,
}
use tracewell.Store.Tables.{TraceRow, SpanRow}
use tracewell.Api.Page.{scan_rows, scan_page, page_of}
use tracewell.Api.Cursor.{cursor, decode_trace_cursor}
use tracewell.Api.Traces.Sql.{key_lt, keep, order_by, text, real, sql_lt, sql_eq}
use tracewell.Api.Traces.Order.{keep-ext}
use tracewell.Api.Traces.Rows.{In-order_by}
use tracewell.Api.Traces.{
  Outside, TraceFilter, by_latency, is_asc, page, scan_trace, fill_token_counts, finish_page,
  sort_expr, row_key, past, sorted_rows, trace_matches, trace_rows, list_from, list_decoded,
  list_traces,
}

module _ (o : Outside) where
  sort_expr-some :
      (t : TraceRow) (x : ℕ)
      → o.latency t.start_time t.end_time ≡ some x
      → sort_expr o true t ≡ real x
  unfolding sort_expr
  sort_expr-some t x e = rw (sort_expr, e) refl

  -- every number is below every text
  past-latency :
      (asc : Bool) (value : List ℕ) (row : ℤ) (t : TraceRow)
      → o.latency t.start_time t.end_time ≢ none
      → past o true asc (some (value, row)) t ≡ (if asc then false else true)
  unfolding past row_key key_lt sql_lt sql_eq
  past-latency asc value row t n = elim (Option-cases (o.latency t.start_time t.end_time)) [
    | inl e ↦ absurd (n e)
    | inr (x, e) ↦ by_direction asc x (sort_expr-some t x e)
  ]
    where
      by_direction :
          (asc : Bool) (x : ℕ)
          → sort_expr o true t ≡ real x
          → key_lt o.reals asc (record { sort_value = text value; row_id = row }) (row_key o true t)
            ≡ (if asc then false else true)
      by_direction true x e = rw (e, sql_lt) refl
      by_direction false x e = rw (e, sql_lt) refl

  keep-none :
      {A : Type 0} (p : A → Bool) (xs : List A) → ((x : A) → In x xs → p x ≡ false) → keep p xs ≡ []
  unfolding keep
  keep-none p [] h = refl
  keep-none p (x ∷ xs) h = rw (h x (inl refl)) (keep-none p xs λ y i. h y (inr i))

  -- the rows past any cursor
  rows-latency :
      (asc : Bool) (matches : TraceRow → Bool) (value : List ℕ) (row : ℤ) (traces : List TraceRow)
      → ((t : TraceRow) → In t traces → o.latency t.start_time t.end_time ≢ none)
      → sorted_rows o true asc matches (some (value, row)) traces
        ≡ (if asc then [] else sorted_rows o true asc matches none traces)
  unfolding sorted_rows past
  rows-latency true matches value row traces n =
      keep-none (λ t. matches t && past o true true (some (value, row)) t) (order_by _ traces)
        λ t i.
          let e = past-latency true value row t (n t (In-order_by _ t traces i)) in
          ground (arith, e)
  rows-latency false matches value row traces n =
      keep-ext (λ t. matches t && past o true false (some (value, row)) t) (λ t. matches t && true)
        (order_by _ traces)
        (All-In _ (order_by _ traces) λ t i.
          let e = past-latency false value row t (n t (In-order_by _ t traces i)) in
          ground (arith, e))

  take-empty : (n : ℕ) → take {A = TraceRow} n [] ≡ []
  take-empty zero = refl
  take-empty (suc n) = refl

  finish-empty :
      (latency : Bool) (spans : List SpanRow) (m : ℕ)
      → finish_page o latency spans (scan_page (scan_trace o spans) m (take (m + 1) []))
        ≡ page [] []
  unfolding finish_page scan_page scan_rows page_of fill_token_counts
  finish-empty latency spans m =
      let none_taken : take {A = TraceRow} (m + 1) [] ≡ [] = take-empty (m + 1) in
      let fits : leb 0 m ≡ true = ground arith in rw (none_taken, fits) refl

  list_from-latency :
      (latency asc : Bool) (matches : TraceRow → Bool) (spans : List SpanRow) (m : ℕ)
      (value : List ℕ) (row : ℤ) (traces : List TraceRow)
      → latency ≡ true
      → ((t : TraceRow) → In t traces → o.latency t.start_time t.end_time ≢ none)
      → finish_page o latency spans (
          scan_page
            (scan_trace o spans)
            m
            (take (m + 1) (sorted_rows o latency asc matches (some (value, row)) traces)))
        ≡ (if asc
            then page [] []
            else finish_page o latency spans (
                scan_page
                  (scan_trace o spans)
                  m
                  (take (m + 1) (sorted_rows o latency asc matches none traces))))
  list_from-latency false asc matches spans m value row traces e n = absurd (ground (arith, e))
  list_from-latency true true matches spans m value row traces e n =
      rw (rows-latency true matches value row traces n) (finish-empty true spans m)
  list_from-latency true false matches spans m value row traces e n =
      rw (rows-latency false matches value row traces n) refl

-- Sorted by latency_ms, a listing with a cursor does not go on from it, where SQLite reads every start and end
-- time of the table: downward the page is the first page again, whatever the cursor holds, and upward
-- it is empty and has no cursor. The condition compares a REAL with the TEXT of the cursor, and SQLite
-- puts every number below every text.
pub list_traces_latency :
    (o : Outside) (project : ℕ) (f : TraceFilter) (traces : List TraceRow) (spans : List SpanRow)
    (cs : List ℕ) (value : List ℕ) (row : ℤ)
    → by_latency f ≡ true
    → ((t : TraceRow) → In t traces → o.latency t.start_time t.end_time ≢ none)
    → cs ≢ []
    → decode_trace_cursor cs ≡ cursor value row
    → list_traces o project (record f { cursor = cs }) traces spans ≡ (
        if is_asc f
        then page [] []
        else list_traces o project (record f { cursor = [] }) traces spans)
unfolding list_traces list_decoded list_from trace_rows trace_matches
list_traces_latency o project f traces spans [] value row sort n ne e = absurd (ne refl)
list_traces_latency o project f traces spans (c ∷ cs) value row sort n ne e = rw e (
    list_from-latency o (by_latency f) (is_asc f) (trace_matches o project f spans) spans f.limit
      value row traces sort n)
