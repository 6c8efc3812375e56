-- ===== src/Api/Traces/Rows.antt =====
-- The rows of ListTraces after a cursor, where it sorts by start_time.
use tracewell.Prelude.{
  ℕ, ℤ, pos, Bool, true, false, List, [], ◌∷◌, ◌++◌, Option, none, some, codes, ◌≡◌, refl, sym, ap,
  ◌∙◌, subst, In, inl, inr, Bool-cases, if◌then◌else◌,
}
use tracewell.Store.Tables.{TraceRow}
use tracewell.Api.Page.{IsDistinct}
use tracewell.Api.Traces.Sql.{key_lt, row_lt, insert_by, order_by}
use tracewell.Api.Traces.Order.{IsSorted, In-keep, keep-past, order_by-IsSorted}
use tracewell.Api.Traces.Keys.{
  text_key, key_lt_irrefl, key_lt_trans, key_lt-total, row_lt-eq-key_lt,
}
use tracewell.Api.Traces.{Outside, row_key, past, sorted_rows}

insert_by-ext :
    {A : Type 0} (lt lt' : A → A → Bool)
    → ((a b : A) → lt a b ≡ lt' a b)
    → (x : A) (ys : List A) → insert_by lt x ys ≡ insert_by lt' x ys
unfolding insert_by
insert_by-ext lt lt' same x [] = refl
insert_by-ext lt lt' same x (y ∷ ys) = rw (same y x, insert_by-ext lt lt' same x ys) refl

order_by-ext :
    {A : Type 0} (lt lt' : A → A → Bool)
    → ((a b : A) → lt a b ≡ lt' a b)
    → (xs : List A) → order_by lt xs ≡ order_by lt' xs
unfolding order_by
order_by-ext lt lt' same [] = refl
order_by-ext lt lt' same (x ∷ xs) =
    ap (insert_by lt x) (order_by-ext lt lt' same xs)
    ∙ insert_by-ext lt lt' same x (order_by lt' xs)

In-insert_by :
    {A : Type 0} (lt : A → A → Bool) (x z : A) (ys : List A)
    → In z (insert_by lt x ys)
    → In z (x ∷ ys)
unfolding insert_by
In-insert_by lt x z [] i = i
In-insert_by lt x z (y ∷ ys) i = elim (Bool-cases (lt y x)) [
  | inl e ↦
      later (λ j. In-insert_by lt x z ys j)
        (subst (λ b. In z (if b then y ∷ insert_by lt x ys else x ∷ y ∷ ys)) e i)
  | inr e ↦ subst (λ b. In z (if b then y ∷ insert_by lt x ys else x ∷ y ∷ ys)) e i
]
  where
    later :
        (In z (insert_by lt x ys) → In z (x ∷ ys))
        → In z (y ∷ insert_by lt x ys)
        → In z (x ∷ y ∷ ys)
    later rec (inl e) = inr (inl e)
    later rec (inr j) = elim (rec j) [ inl e ↦ inl e | inr k ↦ inr (inr k) ]

pub In-order_by :
    {A : Type 0} (lt : A → A → Bool) (z : A) (xs : List A) → In z (order_by lt xs) → In z xs
unfolding order_by
In-order_by lt z [] i = i
In-order_by lt z (x ∷ xs) i = elim (In-insert_by lt x z (order_by lt xs) i) [
  | inl e ↦ inl e
  | inr j ↦ inr (In-order_by lt z xs j)
]

pub In-sorted_rows :
    (o : Outside) (latency asc : Bool) (matches : TraceRow → Bool) (k : Option (List ℕ × ℤ))
    (t : TraceRow) (traces : List TraceRow)
    → In t (sorted_rows o latency asc matches k traces)
    → In t traces
unfolding sorted_rows
In-sorted_rows o latency asc matches k t traces i =
    In-order_by _ t traces (In-keep _ t (order_by _ traces) i)

module _ (o : Outside) (asc : Bool) where
  -- one row stands before another
  abbrev pub before : TraceRow → TraceRow → Bool
  before s t =
      key_lt o.reals asc (text_key (codes s.start_time) (pos s.id))
        (text_key (codes t.start_time) (pos t.id))

  listing-IsSorted :
      (traces : List TraceRow)
      → IsDistinct (λ (t : TraceRow). t.id) traces
      → IsSorted before
          (order_by (λ s t. row_lt o.reals asc (row_key o false s) (row_key o false t)) traces)
  unfolding row_key
  listing-IsSorted traces d =
      subst (IsSorted before)
        (sym (
          order_by-ext (λ s t. row_lt o.reals asc (row_key o false s) (row_key o false t)) before
            (λ s t.
              row_lt-eq-key_lt o.reals asc (codes s.start_time) (codes t.start_time) (pos s.id)
                (pos t.id))
            traces))
        (order_by-IsSorted before (λ (t : TraceRow). t.id)
          (λ s t n. key_lt-total o.reals asc (codes s.start_time) (codes t.start_time) s.id t.id n)
          (λ s t u.
            key_lt_trans o.reals asc (codes s.start_time) (codes t.start_time) (codes u.start_time)
              (pos s.id) (pos t.id) (pos u.id))
          traces d)

  past-closed :
      (k : Option (List ℕ × ℤ)) (a b : TraceRow)
      → past o false asc k a ≡ true
      → before a b ≡ true
      → past o false asc k b ≡ true
  unfolding past row_key
  past-closed none a b h g = refl
  past-closed (some (value, row)) a b h g =
      key_lt_trans o.reals asc value (codes a.start_time) (codes b.start_time) row (pos a.id)
        (pos b.id) h g

  -- The rows past a row of the listing are those after it.
  pub sorted_rows-after :
      (matches : TraceRow → Bool) (traces : List TraceRow)
      → IsDistinct (λ (t : TraceRow). t.id) traces
      → (k : Option (List ℕ × ℤ)) (pre : List TraceRow) (x : TraceRow) (post : List TraceRow)
      → sorted_rows o false asc matches k traces ≡ pre ++ x ∷ post
      → sorted_rows o false asc matches (some (codes x.start_time, pos x.id)) traces ≡ post
  unfolding sorted_rows past row_key
  sorted_rows-after matches traces d k pre x post h =
      keep-past before (λ a. key_lt_irrefl o.reals asc (codes a.start_time) (pos a.id))
        (λ s t u.
          key_lt_trans o.reals asc (codes s.start_time) (codes t.start_time) (codes u.start_time)
            (pos s.id) (pos t.id) (pos u.id))
        matches (past o false asc k) (past-closed k)
        (order_by (λ s t. row_lt o.reals asc (row_key o false s) (row_key o false t)) traces)
        (listing-IsSorted traces d) pre x post h
