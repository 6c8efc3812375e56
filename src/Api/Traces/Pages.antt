-- ===== src/Api/Traces/Pages.antt =====
-- Two consecutive pages of ListTraces are one page of the double length.
use tracewell.Prelude.{
  ℕ, suc, ◌+◌, Bool, true, false, List, [], ◌∷◌, ◌++◌, map, some, leb, length, take, length-append,
  take-append, ◌≡◌, sym, ap, ◌∙◌, subst, arith, inl, inr, Bool-cases, Option-cases,
}
use tracewell.Store.Tables.{TraceRow, SpanRow}
use tracewell.Api.Page.{scan_rows, scan_page, page_of}
use tracewell.Api.Repeats.{last?}
use tracewell.Api.Traces.{Outside, Trace, page, scan_trace, fill_token_counts, finish_page}
use tracewell.Api.Traces.Scanned.{
  page_from, Continues, scan_rows-append, length-scan_rows, fill-append, last?-append,
}

module _ (o : Outside) (latency : Bool) (spans : List SpanRow) where
  last_joined :
      (vs : List Trace) (w : Trace) (ws : List Trace)
      → last? (fill_token_counts spans (vs ++ w ∷ ws)) ≡ last? (fill_token_counts spans (w ∷ ws))
  unfolding fill_token_counts
  last_joined vs w ws =
      ap last? (unfold fill_token_counts in fill-append o latency spans vs (w ∷ ws))
      ∙ last?-append (map _ vs) _ (map _ ws)

  take_joined :
      (n : ℕ) (vs : List Trace) (w : Trace) (ws : List Trace)
      → take (length vs + suc n) (vs ++ w ∷ ws) ≡ vs ++ w ∷ take n ws
  take_joined n vs w ws = take-append vs (w ∷ ws) (suc n)

  -- the scanned rows of a first page, and of the page after it with its extra row
  joined_page :
      (n : ℕ) (vs ws : List Trace) (out : List Trace) (next : List ℕ)
      → finish_page o latency spans (some (page_of (suc n) ws)) ≡ page out next
      → finish_page o latency spans (some (page_of (length vs + suc n) (vs ++ ws)))
        ≡ page (fill_token_counts spans vs ++ out) next
  unfolding finish_page page_of
  joined_page n vs [] out next h =
      ground (arith, length-append vs [], fill-append o latency spans vs [])
  joined_page n vs (w ∷ ws) out next h = elim (Bool-cases (leb (length (w ∷ ws)) (suc n))) [
    | inl short ↦
        let both : leb (length (vs ++ w ∷ ws)) (length vs + suc n) ≡ true =
          ground (arith, length-append vs (w ∷ ws)) in
        ground (arith, both, fill-append o latency spans vs (w ∷ ws))
    | inr long ↦
        let both : leb (length (vs ++ w ∷ ws)) (length vs + suc n) ≡ false =
          ground (arith, length-append vs (w ∷ ws)) in
        ground (
          arith,
          both,
          take_joined n vs w ws,
          last_joined vs w (take n ws),
          fill-append o latency spans vs (w ∷ take n ws),
        )
  ]

  -- The page after a page, in one.
  pub pages :
      (m n : ℕ) (rows : List TraceRow) (out out' : List Trace) (next next' : List ℕ)
      → (c : Continues o latency spans m rows out next)
      → page_from o latency spans (suc n) c.rest ≡ page out' next'
      → page_from o latency spans (m + suc n) rows ≡ page (out ++ out') next'
  pages m n rows out out' next next' c h =
      elim (Option-cases (scan_rows (scan_trace o spans) (take (suc n + 1) c.rest))) [
        | inl e ↦ absurd (unfold scan_page finish_page in ground arith)
        | inr (ws, e) ↦
            let size : length c.values ≡ m =
              length-scan_rows (scan_trace o spans) _ c.values c.scanned ∙ c.full in
            let second : finish_page o latency spans (some (page_of (suc n) ws)) ≡ page out' next' =
              unfold scan_page in ground arith in
            let taken : take (m + suc n + 1) rows
                ≡ (c.front ++ c.x ∷ []) ++ take (suc n + 1) c.rest =
              ap (take (m + suc n + 1)) c.whole
              ∙ ap (λ k. take k ((c.front ++ c.x ∷ []) ++ c.rest)) (omega (arith, c.full))
              ∙ take-append (c.front ++ c.x ∷ []) c.rest (suc n + 1) in
            let both : scan_rows (scan_trace o spans) (take (m + suc n + 1) rows)
                ≡ some (c.values ++ ws) =
              ap (scan_rows (scan_trace o spans)) taken
              ∙ scan_rows-append (scan_trace o spans) _ _ c.values ws c.scanned e in
            unfold scan_page in
            rw (scan_page, both)
              (subst
                (λ k.
                  finish_page o latency spans (some (page_of (k + suc n) (c.values ++ ws)))
                  ≡ page (out ++ out') next')
                size
                (subst
                  (λ u.
                    finish_page o latency spans
                      (some (page_of (length c.values + suc n) (c.values ++ ws)))
                    ≡ page (u ++ out') next')
                  (sym c.filled) (joined_page n c.values ws out' next' second)))
      ]
