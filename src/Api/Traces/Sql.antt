-- ===== src/Api/Traces/Sql.antt =====
-- How SQLite compares the values of the trace query, and its WHERE and ORDER BY over a table.
use tracewell.Prelude.{
  ℕ, ℤ, pos, negsuc, Bool, true, false, not, ◌&&◌, ◌||◌, List, [], ◌∷◌, ltb, codes_ltb, codes_eq,
  if◌then◌else◌,
}

-- A number is below every text: a bound parameter and an expression have no affinity, and nothing is
-- converted.
pub data SqlValue : Type 0 where
  null : SqlValue
  real : ℕ → SqlValue
  text : List ℕ → SqlValue

-- the order of float64 values, by their bit patterns
abbrev pub Reals : Type 0
Reals = ℕ → ℕ → Bool

pub record Key : Type 0 where
  pub sort_value : SqlValue
  pub row_id : ℤ

-- a < b on int64
unfoldable pub int_lt : ℤ → ℤ → Bool
int_lt (pos m) (pos n) = ltb m n
int_lt (negsuc m) (pos n) = true
int_lt (pos m) (negsuc n) = false
int_lt (negsuc m) (negsuc n) = ltb n m

module _ (lt : Reals) where
  -- a < b, and false where it is NULL
  unfoldable pub sql_lt : SqlValue → SqlValue → Bool
  sql_lt (real x) (real y) = lt x y
  sql_lt (real x) (text t) = true
  sql_lt (text s) (text t) = codes_ltb s t
  sql_lt _ _ = false

  -- a = b, and false where it is NULL
  unfoldable pub sql_eq : SqlValue → SqlValue → Bool
  sql_eq (real x) (real y) = not (lt x y) && not (lt y x)
  sql_eq (text s) (text t) = codes_eq s t
  sql_eq _ _ = false

  -- the keyset condition: (e > ? OR (e = ? AND id > ?)) upward, with < downward
  unfoldable pub key_lt : Bool → Key → Key → Bool
  unfolding sql_lt sql_eq int_lt
  key_lt true k r =
      sql_lt k.sort_value r.sort_value
      || (sql_eq r.sort_value k.sort_value && int_lt k.row_id r.row_id)
  key_lt false k r =
      sql_lt r.sort_value k.sort_value
      || (sql_eq r.sort_value k.sort_value && int_lt r.row_id k.row_id)

  unfoldable pub is_null : SqlValue → Bool
  is_null null = true
  is_null _ = false

  -- ORDER BY puts NULL below the other values, and takes two NULLs for equal
  unfoldable pub order_lt : SqlValue → SqlValue → Bool
  unfolding sql_lt is_null
  order_lt a b = (is_null a && not (is_null b)) || sql_lt a b

  -- ORDER BY e, id in one direction: the row of key k comes before that of key r
  unfoldable pub row_lt : Bool → Key → Key → Bool
  unfolding order_lt int_lt
  row_lt true k r =
      order_lt k.sort_value r.sort_value
      || (not (order_lt r.sort_value k.sort_value) && int_lt k.row_id r.row_id)
  row_lt false k r =
      order_lt r.sort_value k.sort_value
      || (not (order_lt k.sort_value r.sort_value) && int_lt r.row_id k.row_id)

module _ {A : Type 0} where
  -- WHERE
  unfoldable pub keep : (A → Bool) → List A → List A
  keep p [] = []
  keep p (x ∷ xs) = let rest = keep p xs in if p x then x ∷ rest else rest

  unfoldable pub insert_by : (A → A → Bool) → A → List A → List A
  insert_by lt x [] = x ∷ []
  insert_by lt x (y ∷ ys) = let rest = insert_by lt x ys in if lt y x then y ∷ rest else x ∷ y ∷ ys

  -- ORDER BY
  unfoldable pub order_by : (A → A → Bool) → List A → List A
  unfolding insert_by
  order_by lt [] = []
  order_by lt (x ∷ xs) = insert_by lt x (order_by lt xs)
