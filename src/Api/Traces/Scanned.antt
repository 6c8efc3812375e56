-- ===== src/Api/Traces/Scanned.antt =====
-- What a page of ListTraces tells of the rows that it was scanned from.
use tracewell.Prelude.{
  ℕ, ◌+◌, ◌≤◌, ℤ, Bool, false, List, [], ◌∷◌, ◌++◌, map, Option, none, some, leb, length, take,
  length-take, take-append, take-length, map-append, split_at, ◌≡◌, ◌≢◌, refl, sym, ap, ◌∙◌, subst,
  arith, ◌⊎◌, inl, inr, Bool-cases, Option-cases,
}
use tracewell.Store.Tables.{TraceRow, SpanRow}
use tracewell.Api.Page.{scan_rows, scan_page, page_of}
use tracewell.Api.Repeats.{last?}
use tracewell.Api.Traces.{
  Outside, Trace, Listed, page, token_sums, fill_one, fill_token_counts, scan_trace, trace_cursor,
  finish_page,
}

module _ {R A : Type 0} (scan : R → Option A) where
  -- scanning goes through the list
  pub scan_rows-split :
      (xs ys : List R) (us : List A)
      → scan_rows scan (xs ++ ys) ≡ some us
      → (vs : List A) × (ws : List A) × (scan_rows scan xs ≡ some vs)
        × (scan_rows scan ys ≡ some ws)
        × (us ≡ vs ++ ws)
  unfolding scan_rows
  scan_rows-split [] ys us h = ([], us, refl, h, refl)
  scan_rows-split (x ∷ xs) ys us h = elim (Option-cases (scan x)) [
    | inl e ↦ absurd (ground arith)
    | inr (v, e) ↦ elim (Option-cases (scan_rows scan (xs ++ ys))) [
      | inl e' ↦ absurd (ground arith)
      | inr (us', e') ↦
          let (vs, ws, a, b, c) = scan_rows-split xs ys us' e' in
          let whole : us ≡ v ∷ us' = ground arith in
          (v ∷ vs, ws, ground arith, b, whole ∙ ap (λ l. v ∷ l) c)
    ]
  ]

  pub scan_rows-append :
      (xs ys : List R) (vs ws : List A)
      → scan_rows scan xs ≡ some vs
      → scan_rows scan ys ≡ some ws
      → scan_rows scan (xs ++ ys) ≡ some (vs ++ ws)
  unfolding scan_rows
  scan_rows-append [] ys vs ws h g = let e : vs ≡ [] = ground arith in rw e g
  scan_rows-append (x ∷ xs) ys vs ws h g = elim (Option-cases (scan x)) [
    | inl e ↦ absurd (ground arith)
    | inr (v, e) ↦ elim (Option-cases (scan_rows scan xs)) [
      | inl e' ↦ absurd (ground arith)
      | inr (vs', e') ↦
          let whole : vs ≡ v ∷ vs' = ground arith in
          rw whole (ground (arith, e, scan_rows-append xs ys vs' ws e' g))
    ]
  ]

  pub length-scan_rows :
      (xs : List R) (vs : List A) → scan_rows scan xs ≡ some vs → length vs ≡ length xs
  unfolding scan_rows
  length-scan_rows [] vs h = let e : vs ≡ [] = ground arith in rw e refl
  length-scan_rows (x ∷ xs) vs h = elim (Option-cases (scan x)) [
    | inl e ↦ absurd (ground arith)
    | inr (v, e) ↦ elim (Option-cases (scan_rows scan xs)) [
      | inl e' ↦ absurd (ground arith)
      | inr (vs', e') ↦
          let whole : vs ≡ v ∷ vs' = ground arith in
          rw whole (omega (arith, length-scan_rows xs vs' e'))
    ]
  ]

  -- the last row of a scanned list
  pub last_scanned :
      (g : A → A) (xs : List R) (vs : List A)
      → scan_rows scan xs ≡ some vs
      → (vs ≡ [])
        ⊎ ((pre : List R) × (x : R) × (v : A) × (xs ≡ pre ++ x ∷ [])
            × (scan x ≡ some v)
            × (last? (map g vs) ≡ some (g v)))
  unfolding scan_rows last?
  last_scanned g [] vs h = inl (ground arith)
  last_scanned g (x ∷ xs) vs h = elim (Option-cases (scan x)) [
    | inl e ↦ absurd (ground arith)
    | inr (v, e) ↦ elim (Option-cases (scan_rows scan xs)) [
      | inl e' ↦ absurd (ground arith)
      | inr (vs', e') ↦
          let whole : vs ≡ v ∷ vs' = ground arith in
          elim (last_scanned g xs vs' e') [
            | inl z ↦
                let n : length xs ≡ 0 = omega (arith, length-scan_rows xs vs' e', ap length z) in
                let nil : xs ≡ [] = nil_of_length xs n in
                inr ([], x, v, ap (λ l. x ∷ l) nil, e, rw (whole, z) refl)
            | inr (pre, y, w, p, q, r) ↦
                inr (x ∷ pre, y, w, ap (λ l. x ∷ l) p, q, rw whole (last_map vs' v w r))
          ]
    ]
  ]
    where
      nil_of_length : {B : Type 0} (l : List B) → length l ≡ 0 → l ≡ []
      nil_of_length [] h = refl
      nil_of_length (b ∷ l) h = absurd (omega arith)

      last_map :
          (us : List A) (v w : A)
          → last? (map g us) ≡ some (g w)
          → last? (map g (v ∷ us)) ≡ some (g w)
      last_map [] v w r = absurd (ground arith)
      last_map (u ∷ us) v w r = r

pub last?-append :
    {A : Type 0} (xs : List A) (y : A) (ys : List A) → last? (xs ++ y ∷ ys) ≡ last? (y ∷ ys)
unfolding last?
last?-append [] y ys = refl
last?-append (x ∷ []) y ys = refl
last?-append (x ∷ z ∷ xs) y ys = last?-append (z ∷ xs) y ys

module _ (o : Outside) (latency : Bool) (spans : List SpanRow) where
  -- a page of the given rows
  abbrev pub page_from : ℕ → List TraceRow → Listed
  page_from limit rows =
      finish_page o latency spans (scan_page (scan_trace o spans) limit (take (limit + 1) rows))

  pub fill-append :
      (vs ws : List Trace)
      → fill_token_counts spans (vs ++ ws)
        ≡ fill_token_counts spans vs ++ fill_token_counts spans ws
  unfolding fill_token_counts
  fill-append vs ws = map-append _ vs ws

  -- A page that ends with a cursor: the rows that it holds, the last of them, and the rest.
  pub record Continues (limit : ℕ) (rows : List TraceRow) (out : List Trace) (next : List ℕ)
      : Type 0 where
    pub front : List TraceRow
    pub x : TraceRow
    pub rest : List TraceRow
    pub values : List Trace
    pub value : Trace
    pub whole : rows ≡ (front ++ x ∷ []) ++ rest
    pub full : length (front ++ x ∷ []) ≡ limit
    pub scanned : scan_rows (scan_trace o spans) (front ++ x ∷ []) ≡ some values
    pub filled : out ≡ fill_token_counts spans values
    pub scanned_last : scan_trace o spans x ≡ some value
    pub cursor : next ≡ trace_cursor o latency (some value)

  trace_cursor-fill_one :
      (p : Option (ℤ × ℤ)) (t : Trace)
      → trace_cursor o latency (some (fill_one p t)) ≡ trace_cursor o latency (some t)
  unfolding fill_one trace_cursor
  trace_cursor-fill_one none t = refl
  trace_cursor-fill_one (some (p, c)) t = refl

  -- from the split of the rows at the limit
  continues :
      (limit : ℕ) (rows front rest : List TraceRow) (vs : List Trace) (out : List Trace)
      (next : List ℕ)
      → rows ≡ front ++ rest
      → length front ≡ limit
      → scan_rows (scan_trace o spans) front ≡ some vs
      → out ≡ fill_token_counts spans vs
      → next ≡ trace_cursor o latency (last? (fill_token_counts spans vs))
      → next ≢ []
      → Continues limit rows out next
  unfolding fill_token_counts
  continues limit rows front rest vs out next w l a fo fn n =
      elim (last_scanned (scan_trace o spans) (λ t. fill_one (token_sums t.id spans) t) front vs
        a) [
          | inl z ↦ absurd (
              n (
                fn
                ∙ ap
                    (λ u.
                      trace_cursor o latency
                        (last? (map (λ t. fill_one (token_sums t.id spans) t) u)))
                    z
                ∙ nothing))
          | inr (pre, x, v, p, q, r) ↦ record {
            front = pre;
            x = x;
            rest = rest;
            values = vs;
            value = v;
            whole = w ∙ ap (λ u. u ++ rest) p;
            full = ap length (sym p) ∙ l;
            scanned = subst (λ u. scan_rows (scan_trace o spans) u ≡ some vs) p a;
            filled = fo;
            scanned_last = q;
            cursor =
                fn
                ∙ ap (trace_cursor o latency) r
                ∙ trace_cursor-fill_one (token_sums v.id spans) v;
          }
        ]
    where
      nothing :
          trace_cursor o latency
            (last? (map (λ (t : Trace). fill_one (token_sums t.id spans) t) []))
          ≡ []
      nothing = unfold trace_cursor last? in refl

  -- more rows than the limit were scanned
  cut :
      (limit : ℕ) (rows : List TraceRow) (us : List Trace)
      → scan_rows (scan_trace o spans) (take (limit + 1) rows) ≡ some us
      → leb (length us) limit ≡ false
      → (front : List TraceRow) × (rest : List TraceRow) × (vs : List Trace) × (rows
          ≡ front ++ rest)
        × (length front ≡ limit)
        × (scan_rows (scan_trace o spans) front ≡ some vs)
        × (take limit us ≡ vs)
  cut limit rows us e long =
      let count = length-scan_rows (scan_trace o spans) (take (limit + 1) rows) us e in
      let fits : limit ≤ length rows = ground (arith, count, length-take (limit + 1) rows, long) in
      let (front, rest, w, l) = split_at limit rows fits in
      let taken : take (limit + 1) rows ≡ front ++ take 1 rest =
        ap (take (limit + 1)) w
        ∙ ap (λ k. take (k + 1) (front ++ rest)) (sym l)
        ∙ take-append front rest 1 in
      let (vs, ws, a, b, c) =
        scan_rows-split (scan_trace o spans) front (take 1 rest) us
          (subst (λ r. scan_rows (scan_trace o spans) r ≡ some us) taken e) in
      let size : length vs ≡ limit = length-scan_rows (scan_trace o spans) front vs a ∙ l in
      let kept : take limit us ≡ vs =
        ap (take limit) c ∙ ap (λ k. take k (vs ++ ws)) (sym size) ∙ take-length vs ws in
      (front, rest, vs, w, l, a, kept)

  pub page_from-Continues :
      (limit : ℕ) (rows : List TraceRow) (out : List Trace) (next : List ℕ)
      → page_from limit rows ≡ page out next
      → next ≢ []
      → Continues limit rows out next
  unfolding finish_page scan_page page_of
  page_from-Continues limit rows out next h n =
      elim (Option-cases (scan_rows (scan_trace o spans) (take (limit + 1) rows))) [
        | inl e ↦ absurd (ground arith)
        | inr (us, e) ↦ elim (Bool-cases (leb (length us) limit)) [
          | inl short ↦ absurd (ground arith)
          | inr long ↦
              let (front, rest, vs, w, l, a, kept) = cut limit rows us e long in
              continues limit rows front rest vs out next w l a (ground (arith, kept))
                (ground (arith, kept)) n
        ]
      ]
