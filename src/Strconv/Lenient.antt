-- ===== src/Strconv/Lenient.antt =====
-- What strconv gives where its error is dropped, and ParseBool.
use tracewell.Prelude.{
  ℕ, ◌+◌, ◌-◌, ◌*◌, ◌^◌, ℤ, pos, negsuc, String, Bool, true, false, ◌||◌, List, [], ◌∷◌, Option,
  none, some, ltb, leb, ◌==◌, str_eq, if◌then◌else◌,
}
use tracewell.Prelude.Int.{sub_ℕ}
use tracewell.Strconv.{is_digit}

-- ParseUint stops at the first byte that is no digit, or once the value leaves a uint64, which it then holds
-- at its largest.
unfoldable pub scan_uint : ℕ → List ℕ → Option ℕ
scan_uint acc [] = some acc
scan_uint acc (c ∷ cs) =
    let next = acc * 10 + (c - b'0') in
    let rest = scan_uint next cs in
    if is_digit c then if leb (2 ^ 64) next then some (2 ^ 64 - 1) else rest else none

-- an int64, clamped; 0 after a syntax error
unfoldable pub clamp : Bool → Option ℕ → ℤ
clamp negative none = pos 0
clamp false (some n) = if ltb n (2 ^ 63) then pos n else pos (2 ^ 63 - 1)
clamp true (some n) = if leb n (2 ^ 63) then sub_ℕ 0 n else negsuc (2 ^ 63 - 1)

unfoldable pub digits_value : Bool → List ℕ → ℤ
unfolding scan_uint clamp
digits_value negative [] = pos 0
digits_value negative (c ∷ cs) = clamp negative (scan_uint 0 (c ∷ cs))

-- n, _ := strconv.ParseInt(s, 10, 64)
unfoldable pub parse_int_value : List ℕ → ℤ
unfolding digits_value
parse_int_value [] = pos 0
parse_int_value (c ∷ cs) =
    if c == b'-'
    then digits_value true cs
    else if c == b'+'
    then digits_value false cs
    else digits_value false (c ∷ cs)

is_one_of : String → List String → Bool
is_one_of s [] = false
is_one_of s (t ∷ ts) = str_eq s t || is_one_of s ts

-- ParseBool
unfoldable pub parse_bool : String → Option Bool
unfolding is_one_of
parse_bool s =
    if is_one_of s ("1" ∷ "t" ∷ "T" ∷ "TRUE" ∷ "true" ∷ "True" ∷ [])
    then some true
    else if is_one_of s ("0" ∷ "f" ∷ "F" ∷ "FALSE" ∷ "false" ∷ "False" ∷ [])
    then some false
    else none
