-- ===== src/Api/Page.antt =====
-- The pages of internal/api: rows by falling id from a cursor on, one more than the limit, and the
-- extra row dropped by scanPage.
use tracewell.Prelude.{
  ℕ, zero, suc, ◌+◌, ◌<◌, Bool, true, false, ◌||◌, List, [], ◌∷◌, Option, none, some, ◌≡◌, ◌≢◌,
  refl, arith, ◌==◌, leb, if◌then◌else◌, All, In, In-All, ap, sym, subst, length, take, Bool-cases,
  inl, inr,
}

module _ {A : Type 0} (id : A → ℕ) where
  pub insert_desc : A → List A → List A
  insert_desc x [] = x ∷ []
  insert_desc x (y ∷ ys) = if leb (id y) (id x) then x ∷ y ∷ ys else y ∷ insert_desc x ys

  -- ORDER BY id DESC
  unfoldable pub order_desc : List A → List A
  unfolding insert_desc
  order_desc [] = []
  order_desc (x ∷ xs) = insert_desc x (order_desc xs)

  -- WHERE (? = 0 OR id <= ?), both the cursor
  unfoldable pub from_cursor : ℕ → List A → List A
  from_cursor cursor [] = []
  from_cursor cursor (x ∷ xs) =
      let rest = from_cursor cursor xs in
      if cursor == 0 || leb (id x) cursor then x ∷ rest else rest

  -- The rows fall strictly.
  abbrev pub Falls : List A → Type 0
  Falls [] = Unit {0}
  Falls (x ∷ xs) = All (λ y. id y < id x) xs × Falls xs

  All-insert_desc :
      (n : ℕ) (x : A) (ys : List A)
      → id x < n
      → All (λ y. id y < n) ys
      → All (λ y. id y < n) (insert_desc x ys)
  unfolding insert_desc
  All-insert_desc n x [] h a = (h, tt)
  All-insert_desc n x (y ∷ ys) h a = ground (arith, All-insert_desc n x ys h a.1)

  All-below : (m n : ℕ) (zs : List A) → m < n → All (λ z. id z < m) zs → All (λ z. id z < n) zs
  All-below m n [] h a = tt
  All-below m n (z ∷ zs) h a = (omega arith, All-below m n zs h a.1)

  insert_desc-Falls :
      (x : A) (ys : List A) → All (λ y. id y ≢ id x) ys → Falls ys → Falls (insert_desc x ys)
  unfolding insert_desc
  insert_desc-Falls x [] n f = (tt, tt)
  insert_desc-Falls x (y ∷ ys) n f = elim (Bool-cases (leb (id y) (id x))) [
    | inl below ↦
        let y<x : id y < id x = ground (arith, n.0) in
        rw below ((y<x, All-below (id y) (id x) ys y<x f.0), f)
    | inr above ↦
        rw above (All-insert_desc (id y) x ys (ground arith) f.0, insert_desc-Falls x ys n.1 f.1)
  ]

  All-insert {κ} :
      (P : A → Type κ) (x : A) (ys : List A) → P x → All P ys → All P (insert_desc x ys)
  unfolding insert_desc
  All-insert P x [] h a = (h, tt)
  All-insert P x (y ∷ ys) h a = elim (Bool-cases (leb (id y) (id x))) [
    | inl below ↦ rw below (h, a)
    | inr above ↦ rw above (a.0, All-insert P x ys h a.1)
  ]

  All-order_desc {κ} : (P : A → Type κ) (xs : List A) → All P xs → All P (order_desc xs)
  unfolding order_desc
  All-order_desc P [] a = tt
  All-order_desc P (x ∷ xs) a = All-insert P x (order_desc xs) a.0 (All-order_desc P xs a.1)

  -- No id stands twice.
  abbrev pub IsDistinct : List A → Type 0
  IsDistinct [] = Unit {0}
  IsDistinct (x ∷ xs) = All (λ y. id y ≢ id x) xs × IsDistinct xs

  pub order_desc-Falls : (xs : List A) → IsDistinct xs → Falls (order_desc xs)
  unfolding order_desc
  order_desc-Falls [] d = tt
  order_desc-Falls (x ∷ xs) d =
      insert_desc-Falls x (order_desc xs) (All-order_desc (λ y. id y ≢ id x) xs d.0)
        (order_desc-Falls xs d.1)

  from_cursor_whole : (n : ℕ) (xs : List A) → All (λ y. id y < n) xs → from_cursor n xs ≡ xs
  unfolding from_cursor
  from_cursor_whole n [] a = refl
  from_cursor_whole n (x ∷ xs) a = ground (arith, from_cursor_whole n xs a.1)

  -- From a cursor that is the id of a row of a falling list, the first row is that row.
  pub from_cursor-In :
      (x : A) (xs : List A)
      → Falls xs
      → In x xs
      → id x ≢ 0
      → (rest : List A) × (from_cursor (id x) xs ≡ x ∷ rest)
  unfolding from_cursor
  from_cursor-In x [] f i n = absurd i
  from_cursor-In x (y ∷ xs) f (inl e) n =
      let below : All (λ z. id z < id x) xs =
        subst (λ m. All (λ z. id z < m) xs) (sym (ap id e)) f.0 in
      (xs, ground (arith, e, from_cursor_whole (id x) xs below))
  from_cursor-In x (y ∷ xs) f (inr i) n =
      let (rest, e) = from_cursor-In x xs f.1 i n in
      let lower : id x < id y = In-All (λ z. id z < id y) xs f.0 x i in (rest, ground arith)

  pub In-from_cursor : (n : ℕ) (x : A) (xs : List A) → In x (from_cursor n xs) → In x xs
  unfolding from_cursor
  In-from_cursor n x [] i = i
  In-from_cursor n x (y ∷ xs) i =
      In-if (n == 0 || leb (id y) n) x y (from_cursor n xs) xs (λ j. In-from_cursor n x xs j) i
    where
      In-if :
          (b : Bool) (x y : A) (kept xs : List A)
          → (In x kept → In x xs)
          → In x (if b then y ∷ kept else kept)
          → In x (y ∷ xs)
      In-if true x y kept xs k (inl e) = inl e
      In-if true x y kept xs k (inr j) = inr (k j)
      In-if false x y kept xs k j = inr (k j)

pub In-take : {A : Type 0} (n : ℕ) (x : A) (xs : List A) → In x (take n xs) → In x xs
In-take zero x xs i = absurd i
In-take (suc n) x [] i = i
In-take (suc n) x (y ∷ xs) (inl e) = inl e
In-take (suc n) x (y ∷ xs) (inr i) = inr (In-take n x xs i)

-- The tail of scanPage: the rows within the limit, and 1 if there was one more.
unfoldable pub page_of {ℓ} : {A : Type ℓ} → ℕ → List A → List A × ℕ
page_of limit rows = if leb (length rows) limit then (rows, 0) else (take limit rows, 1)

module _ {R A : Type 0} (scan : R → Option A) where
  cons_scanned : Option A → Option (List A) → Option (List A)
  cons_scanned (some v) (some vs) = some (v ∷ vs)
  cons_scanned _ _ = none

  -- the loop of scanPage: a row that fails to scan fails the page
  unfoldable pub scan_rows : List R → Option (List A)
  unfolding cons_scanned
  scan_rows [] = some []
  scan_rows (r ∷ rs) = cons_scanned (scan r) (scan_rows rs)

  -- scanPage
  unfoldable pub scan_page : ℕ → List R → Option (List A × ℕ)
  unfolding page_of
  scan_page limit rows = elim (scan_rows rows) [ none ↦ none | some out ↦ some (page_of limit out) ]

-- One list query: the rows by falling id from the cursor on, scanned into a page.
unfoldable pub list_page :
    {R A : Type 0} → (R → ℕ) → (R → Option A) → ℕ → ℕ → List R → Option (List A × ℕ)
list_page id scan limit cursor rows =
    scan_page scan limit (take (limit + 1) (from_cursor id cursor (order_desc id rows)))
