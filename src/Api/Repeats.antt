-- ===== src/Api/Repeats.antt =====
-- The page that follows a page starts with the row that the page ended with: ListProjects and ListSpans
-- return the id of the last row that they kept, and take a cursor to be the first row of a page.
use native.Mathlib.Numerals.{add-one}
use tracewell.Prelude.{
  ℕ, suc, ◌+◌, List, [], ◌∷◌, Option, none, some, ◌≡◌, ◌≢◌, ◌⊎◌, refl, arith, leb, ap, sym, subst,
  ◌∙◌, length, take, In, Bool-cases, Option-cases, inl, inr,
}
use tracewell.Api.Page.{
  order_desc, from_cursor, IsDistinct, order_desc-Falls, from_cursor-In, In-from_cursor, In-take,
  page_of, scan_rows, scan_page, list_page,
}

unfoldable pub last? : {A : Type 0} → List A → Option A
last? [] = none
last? (x ∷ []) = some x
last? (x ∷ y ∷ ys) = last? (y ∷ ys)

abbrev pub head? : {A : Type 0} → List A → Option A
head? [] = none
head? (x ∷ xs) = some x

last?-In : {A : Type 0} (xs : List A) (x : A) → last? xs ≡ some x → In x xs
unfolding last?
last?-In [] x h = absurd (ground arith)
last?-In (y ∷ []) x h = inl (ground arith)
last?-In (y ∷ z ∷ zs) x h = inr (last?-In (z ∷ zs) x h)

take-add_one : {A : Type 0} (n : ℕ) (x : A) (xs : List A) → take (n + 1) (x ∷ xs) ≡ x ∷ take n xs
take-add_one n x xs = rw add-one

module _ {R A : Type 0} (id : R → ℕ) (scan : R → Option A) where
  scan_rows-In :
      (rs : List R) (vs : List A) (v : A)
      → scan_rows scan rs ≡ some vs
      → In v vs
      → (r : R) × In r rs × (scan r ≡ some v)
  unfolding scan_rows
  scan_rows-In [] vs v h i = absurd (subst (In v) (let e : vs ≡ [] = ground arith in e) i)
  scan_rows-In (r ∷ rs) vs v h i = elim (Option-cases (scan r)) [
    | inl e ↦ absurd (ground arith)
    | inr (w, e) ↦ elim (Option-cases (scan_rows scan rs)) [
      | inl e' ↦ absurd (ground arith)
      | inr (ws, e') ↦ elim (subst (In v) (let p : vs ≡ w ∷ ws = ground arith in p) i) [
        | inl p ↦ (r, inl refl, e ∙ ap some (sym p))
        | inr j ↦ let (r', k, q) = scan_rows-In rs ws v e' j in (r', inr k, q)
      ]
    ]
  ]

  page_cases :
      (limit : ℕ) (rs : List R) (out : List A) (more : ℕ)
      → scan_page scan limit rs ≡ some (out, more)
      → (vs : List A) × (scan_rows scan rs ≡ some vs) × ((out ≡ vs) ⊎ (out ≡ take limit vs))
  unfolding scan_page page_of
  page_cases limit rs out more h = elim (Option-cases (scan_rows scan rs)) [
    | inl e ↦ absurd (ground arith)
    | inr (vs, e) ↦ elim (Bool-cases (leb (length vs) limit)) [
      | inl whole ↦ (vs, e, inl (ground arith))
      | inr cut ↦ (vs, e, inr (ground arith))
    ]
  ]

  -- The rows that a page holds are rows of the table.
  page-In :
      (limit : ℕ) (rs : List R) (out : List A) (more : ℕ) (v : A)
      → scan_page scan limit rs ≡ some (out, more)
      → In v out
      → (r : R) × In r rs × (scan r ≡ some v)
  page-In limit rs out more v h i =
      let (vs, e, kept) = page_cases limit rs out more h in
      elim kept [
        | inl p ↦ scan_rows-In rs vs v e (subst (In v) p i)
        | inr p ↦ scan_rows-In rs vs v e (In-take limit v vs (subst (In v) p i))
      ]

  -- The page of a list that starts with a row starts with what that row scans to.
  page-head :
      (limit : ℕ) (r : R) (rs : List R) (v : A) (out : List A) (more : ℕ)
      → scan r ≡ some v
      → scan_page scan (suc limit) (r ∷ rs) ≡ some (out, more)
      → head? out ≡ some v
  unfolding scan_page scan_rows page_of
  page-head limit r rs v out more e h = ground arith

  -- With distinct positive ids, the page from the id of a page's last row on starts with that row.
  pub list_page_repeats :
      (ident : A → ℕ)
      → ((r : R) (v : A) → scan r ≡ some v → ident v ≡ id r)
      → (rows : List R) → IsDistinct id rows
      → (limit cursor : ℕ) (out next : List A) (more more' : ℕ) (v : A)
      → list_page id scan (suc limit) cursor rows ≡ some (out, more)
      → last? out ≡ some v
      → ident v ≢ 0
      → list_page id scan (suc limit) (ident v) rows ≡ some (next, more')
      → head? next ≡ some v
  unfolding list_page
  list_page_repeats ident same rows d limit cursor out next more more' v h l n h' =
      let ordered = order_desc id rows in
      let (r, i, e) =
        page-In (suc limit) (take (suc limit + 1) (from_cursor id cursor ordered)) out more v h
          (last?-In out v l) in
      let member =
        In-from_cursor id cursor r ordered
          (In-take (suc limit + 1) r (from_cursor id cursor ordered) i) in
      let at_row : ident v ≡ id r = same r v e in
      let (rest, f) =
        from_cursor-In id r ordered (order_desc-Falls id rows d) member (λ z. n (at_row ∙ z)) in
      let from_row : from_cursor id (ident v) ordered ≡ r ∷ rest =
        ap (λ c. from_cursor id c ordered) at_row ∙ f in
      page-head limit r (take (suc limit) rest) v next more' e (
        subst (λ l. scan_page scan (suc limit) l ≡ some (next, more'))
          (ap (take (suc limit + 1)) from_row ∙ take-add_one (suc limit) r rest) h')
