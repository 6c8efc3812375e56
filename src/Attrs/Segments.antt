-- ===== src/Attrs/Segments.antt =====
-- The segments of a dotted key, internal/attrs/unflatten.go. An `int` is carried as its 64-bit pattern, so
-- that the digits of a long segment wrap around as they do in Go.
use Prim.Native.Char.{Char, code}
use Prim.Native.String.{String, ◌++◌ as string_append}
use tracewell.Prelude.{
  ℕ, zero, suc, ◌+◌, ◌-◌, ◌*◌, ◌/◌, ◌%◌, ◌^◌, ◌&&◌, List, [], ◌∷◌, Option, none, some, str_eq, ltb,
  ◌==◌, codes, if◌then◌else◌,
}
use tracewell.Strconv.{is_digit}
use tracewell.Semconv.Extract.{is_space}

trim_left : String → String
unfolding is_space
trim_left String.[] = ""
trim_left (String.◌∷◌ c s) =
    let rest = trim_left s in if is_space (code c) then rest else String.◌∷◌ c s

trim_right : String → String
unfolding is_space
trim_right String.[] = ""
trim_right (String.◌∷◌ c s) =
    let rest = trim_right s in if is_space (code c) && str_eq rest "" then "" else String.◌∷◌ c rest

-- strings.TrimSpace
trim : String → String
unfolding trim_left trim_right
trim s = trim_right (trim_left s)

-- a new character cons_char the first part
cons_char : Char → List String → List String
cons_char c [] = String.◌∷◌ c "" ∷ []
cons_char c (p ∷ ps) = String.◌∷◌ c p ∷ ps

-- strings.Split(s, ".")
split_dots : String → List String
unfolding cons_char
split_dots String.[] = "" ∷ []
split_dots (String.◌∷◌ c s) =
    let rest = split_dots s in if code c == b'.' then "" ∷ rest else cons_char c rest

-- the loop of segments
non_empty : List String → List String
unfolding trim
non_empty [] = []
non_empty (p ∷ ps) = let rest = non_empty ps in if str_eq (trim p) "" then rest else trim p ∷ rest

unfoldable pub segments : String → List String
unfolding non_empty split_dots
segments key = non_empty (split_dots key)

-- n = n*10 + int(s[i]-'0'), over all bytes
digits_from : ℕ → List ℕ → Option ℕ
digits_from n [] = some n
digits_from n (c ∷ cs) =
    let rest = digits_from ((n * 10 + (c - b'0')) % 2 ^ 64) cs in if is_digit c then rest else none

-- plainInt
unfoldable pub plain_int : List ℕ → Option ℕ
unfolding digits_from
plain_int [] = none
plain_int (c ∷ cs) = digits_from 0 (c ∷ cs)

-- digitValue
unfoldable pub digit_value : List ℕ → Option ℕ
unfolding plain_int
digit_value [] = none
digit_value (c ∷ []) = plain_int (c ∷ [])
digit_value (c ∷ d ∷ cs) = if c == b'0' then none else plain_int (c ∷ d ∷ cs)

abbrev digit_texts : List String
digit_texts = "0" ∷ "1" ∷ "2" ∷ "3" ∷ "4" ∷ "5" ∷ "6" ∷ "7" ∷ "8" ∷ "9" ∷ []

nth_text : ℕ → List String → String
nth_text n [] = ""
nth_text zero (t ∷ ts) = t
nth_text (suc n) (t ∷ ts) = nth_text n ts

-- the decimal digits of n, at most as many as the fuel
decimal : ℕ → ℕ → String
unfolding nth_text
decimal zero n = ""
decimal (suc fuel) n =
    let rest = decimal fuel (n / 10) in
    if ltb n 10 then nth_text n digit_texts else string_append rest (nth_text (n % 10) digit_texts)

-- strconv.Itoa; a 64-bit number has at most 20 digits
unfoldable pub itoa : ℕ → String
unfolding decimal
itoa n = if ltb n (2 ^ 63) then decimal 20 n else string_append "-" (decimal 20 (2 ^ 64 - n))

-- canonicalSeg
unfoldable pub canonical_seg : String → String
canonical_seg s = elim (plain_int (codes s)) [ none ↦ s | some n ↦ itoa n ]
