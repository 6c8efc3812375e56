-- ===== src/Store/Int64.antt =====
-- The counters of internal/store/span_insert.go: Go's int and int64, 64 bits that wrap around in a sum.
use native.Mathlib.Bridge.{le_prop}
use std.HLevel.{prop→path_p}
use tracewell.Prelude.{ℕ, ◌+◌, ◌-◌, ◌%◌, ◌^◌, ◌<◌, ℤ, pos, negsuc, ltb, if◌then◌else◌, ◌≡◌, arith}

-- the 64 bits, as a number
pub record Int64 : Type 0 where
  pub bits : ℕ
  pub bounded : bits < 2 ^ 64

Int64-ext : (a b : Int64) → a.bits ≡ b.bits → a ≡ b
Int64-ext a b e = λ i. record {
  bits = e i;
  bounded = prop→path_p (λ j. e j < 2 ^ 64) le_prop a.bounded b.bounded i;
}

-- the int of a number, in two's complement
unfoldable pub int64 : ℤ → Int64
int64 (pos n) = record { bits = n % 2 ^ 64; bounded = omega arith }
int64 (negsuc n) = record { bits = 2 ^ 64 - 1 - n % 2 ^ 64; bounded = omega arith }

-- and the number of an int
unfoldable pub value : Int64 → ℤ
value a = if ltb a.bits (2 ^ 63) then pos a.bits else negsuc (2 ^ 64 - 1 - a.bits)

-- Go's +
unfoldable pub add_int64 : Int64 → Int64 → Int64
add_int64 a b = record { bits = (a.bits + b.bits) % 2 ^ 64; bounded = omega arith }

pub add_int64_comm : (a b : Int64) → add_int64 a b ≡ add_int64 b a
unfolding add_int64
add_int64_comm a b = Int64-ext (add_int64 a b) (add_int64 b a) (omega arith)

pub add_int64_assoc : (a b c : Int64) → add_int64 (add_int64 a b) c ≡ add_int64 a (add_int64 b c)
unfolding add_int64
add_int64_assoc a b c =
    Int64-ext (add_int64 (add_int64 a b) c) (add_int64 a (add_int64 b c)) (omega arith)

pub add_int64-zero : (a : Int64) → add_int64 a (int64 (pos 0)) ≡ a
unfolding add_int64 int64
add_int64-zero a = Int64-ext (add_int64 a (int64 (pos 0))) a (omega (arith, a.bounded))
