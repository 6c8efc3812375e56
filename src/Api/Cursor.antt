-- ===== src/Api/Cursor.antt =====
-- The cursor of the trace list: internal/api/queries.go, over the bytes of the texts.
use tracewell.Prelude.{
  ℕ, ℤ, ◌<◌, List, [], ◌∷◌, ◌++◌, Option, none, some, ◌≡◌, refl, arith, ◌==◌, if◌then◌else◌, All,
}
use tracewell.Strconv.{format_int, parse_int, IsInt64, parse_int-format_int, format_int_no_colon}

pub record TraceCursor : Type 0 where
  pub sort_value : List ℕ
  pub row_id : ℤ

-- encodeTraceCursor
unfoldable pub encode_trace_cursor : TraceCursor → List ℕ
encode_trace_cursor c = c.sort_value ++ b':' ∷ format_int c.row_id

-- s[:i] and s[i+1:] for i the position of the last c; `none` where LastIndexByte is -1
unfoldable pub split_last : ℕ → List ℕ → Option (List ℕ × List ℕ)
split_last c [] = none
split_last c (x ∷ xs) = elim (split_last c xs) [
  | some (before, after) ↦ some (x ∷ before, after)
  | none ↦ if x == c then some ([], xs) else none
]

pub data Decoded : Type 0 where
  bad_cursor : Decoded
  cursor : List ℕ → ℤ → Decoded

with_row_id : List ℕ → Option ℤ → Decoded
with_row_id value none = bad_cursor
with_row_id value (some row) = cursor value row

-- decodeTraceCursor
unfoldable pub decode_trace_cursor : List ℕ → Decoded
unfolding split_last with_row_id
decode_trace_cursor s = elim (split_last b':' s) [
  | none ↦ bad_cursor
  | some (value, row) ↦ with_row_id value (parse_int row)
]

split_last-none : (c : ℕ) (xs : List ℕ) → All (λ x. x < c) xs → split_last c xs ≡ none
unfolding split_last
split_last-none c [] h = refl
split_last-none c (x ∷ xs) h = ground (arith, split_last-none c xs h.1)

split_last-append :
    (c : ℕ) (xs ys : List ℕ) → All (λ x. x < c) ys → split_last c (xs ++ c ∷ ys) ≡ some (xs, ys)
unfolding split_last
split_last-append c [] ys h = ground (arith, split_last-none c ys h)
split_last-append c (x ∷ xs) ys h = ground (arith, split_last-append c xs ys h)

-- Decoding the encoding of a cursor gives back its sort value and its row id, whatever bytes the
-- sort value holds, colons included, for every row id that an int64 holds.
pub decode-encode :
    (c : TraceCursor)
    → IsInt64 c.row_id
    → decode_trace_cursor (encode_trace_cursor c) ≡ cursor c.sort_value c.row_id
unfolding decode_trace_cursor encode_trace_cursor
decode-encode c h = ground (
  arith,
  split_last-append b':' c.sort_value (format_int c.row_id) (format_int_no_colon c.row_id),
  parse_int-format_int c.row_id h,
)
