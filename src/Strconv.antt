-- ===== src/Strconv.antt =====
-- What the program uses of Go's strconv, on the bytes of a text: Atoi and ParseInt(s, 10, 64), which
-- agree on a 64-bit machine, and FormatInt(n, 10), with Itoa.
pub mod Lenient
use tracewell.Prelude.{
  ℕ, zero, suc, ◌+◌, ◌-◌, ◌*◌, ◌/◌, ◌%◌, ◌^◌, ◌<◌, ℤ, pos, negsuc, Bool, true, ◌&&◌, List, [], ◌∷◌,
  ◌++◌, Option, none, some, ◌≡◌, refl, arith, ltb, leb, ◌==◌, if◌then◌else◌, Bool-cases, inl, inr,
  ap, ◌∙◌, All,
}
use tracewell.Prelude.Int.{sub_ℕ}

abbrev pub is_digit : ℕ → Bool
is_digit c = leb b'0' c && leb c b'9'

-- the decimal digits of n, with fuel above n
unfoldable pub digits : ℕ → ℕ → List ℕ
digits zero n = []
digits (suc fuel) n =
    let rest = digits fuel (n / 10) in
    if ltb n 10 then (b'0' + n) ∷ [] else rest ++ (b'0' + n % 10) ∷ []

abbrev pub format_nat : ℕ → List ℕ
format_nat n = digits (suc n) n

unfoldable pub format_int : ℤ → List ℕ
format_int (pos n) = format_nat n
format_int (negsuc n) = b'-' ∷ format_nat (suc n)

-- the value of a run of digits, after those read so far; `none` at any other byte
unfoldable pub parse_digits : ℕ → List ℕ → Option ℕ
parse_digits acc [] = some acc
parse_digits acc (c ∷ cs) =
    let rest = parse_digits (acc * 10 + (c - b'0')) cs in if is_digit c then rest else none

unfoldable pub parse_nat : List ℕ → Option ℕ
unfolding parse_digits
parse_nat [] = none
parse_nat (c ∷ cs) = parse_digits 0 (c ∷ cs)

positive : Option ℕ → Option ℤ
positive none = none
positive (some n) = if ltb n (2 ^ 63) then some (pos n) else none

negative : Option ℕ → Option ℤ
negative none = none
negative (some n) = if leb n (2 ^ 63) then some (sub_ℕ 0 n) else none

-- a sign, and then at least one digit, within the range of an int64
unfoldable pub parse_int : List ℕ → Option ℤ
unfolding positive negative
parse_int [] = none
parse_int (c ∷ cs) =
    if c == b'-'
    then negative (parse_nat cs)
    else if c == b'+'
    then positive (parse_nat cs)
    else positive (parse_nat (c ∷ cs))

parse_digits-snoc :
    (acc n : ℕ) (xs : List ℕ) (c : ℕ)
    → parse_digits acc xs ≡ some n
    → is_digit c ≡ true
    → parse_digits acc (xs ++ c ∷ []) ≡ some (n * 10 + (c - b'0'))
unfolding parse_digits
parse_digits-snoc acc n [] c h d = ground arith
parse_digits-snoc acc n (x ∷ xs) c h d =
    ground (arith, parse_digits-snoc (acc * 10 + (x - b'0')) n xs c)

parse_digits-digits : (fuel n : ℕ) → n < fuel → parse_digits 0 (digits fuel n) ≡ some n
unfolding digits
parse_digits-digits zero n h = absurd (omega arith)
parse_digits-digits (suc fuel) n h = elim (Bool-cases (ltb n 10)) [
  | inl small ↦ unfold parse_digits in ground arith
  | inr large ↦ rw large (
      parse_digits-snoc 0 (n / 10) (digits fuel (n / 10)) (b'0' + n % 10)
        (parse_digits-digits fuel (n / 10) (ground arith)) (ground arith)
      ∙ ap some (omega arith))
]

-- The first byte of a number is a digit.
digits_head :
    (fuel n : ℕ)
    → n < fuel
    → (c : ℕ) × (cs : List ℕ) × (digits fuel n ≡ c ∷ cs) × (is_digit c ≡ true)
unfolding digits
digits_head zero n h = absurd (omega arith)
digits_head (suc fuel) n h = elim (Bool-cases (ltb n 10)) [
  | inl small ↦ (b'0' + n, [], rw small, ground arith)
  | inr large ↦
      let (c, cs, e, d) = digits_head fuel (n / 10) (ground arith) in
      (c, cs ++ (b'0' + n % 10) ∷ [], rw (large, e), d)
]

parse_nat_lem : (xs : List ℕ) (c : ℕ) (cs : List ℕ) → xs ≡ c ∷ cs → parse_nat xs ≡ parse_digits 0 xs
parse_nat_lem xs c cs e = rw e (unfold parse_nat in refl)

parse_nat-format_nat : (n : ℕ) → parse_nat (format_nat n) ≡ some n
parse_nat-format_nat n =
    let (c, cs, e, d) = digits_head (suc n) n (omega arith) in
    parse_nat_lem (format_nat n) c cs e ∙ parse_digits-digits (suc n) n (omega arith)

-- A text that begins with a digit has no sign.
parse_int_unsigned :
    (xs : List ℕ) (c : ℕ) (cs : List ℕ) (n : ℕ)
    → xs ≡ c ∷ cs
    → is_digit c ≡ true
    → parse_nat xs ≡ some n
    → n < 2 ^ 63
    → parse_int xs ≡ some (pos n)
unfolding parse_int
parse_int_unsigned [] c cs n e d h b = absurd (ground arith)
parse_int_unsigned (x ∷ xs) c cs n e d h b = ground arith

-- The range of an int64.
abbrev pub IsInt64 : ℤ → Type 0
IsInt64 (pos n) = n < 2 ^ 63
IsInt64 (negsuc n) = n < 2 ^ 63

pub parse_int-format_int : (i : ℤ) → IsInt64 i → parse_int (format_int i) ≡ some i
unfolding parse_int format_int
parse_int-format_int (pos n) h =
    let (c, cs, e, d) = digits_head (suc n) n (omega arith) in
    parse_int_unsigned (format_nat n) c cs n e d (parse_nat-format_nat n) h
parse_int-format_int (negsuc n) h = ground (arith, parse_nat-format_nat (suc n))

All-snoc :
    (xs : List ℕ) (x : ℕ) → All (λ c. c < b':') xs → x < b':' → All (λ c. c < b':') (xs ++ x ∷ [])
All-snoc [] x h k = (k, tt)
All-snoc (y ∷ xs) x h k = (h.0, All-snoc xs x h.1 k)

-- No byte of a number is a colon.
pub digits_no_colon : (fuel n : ℕ) → All (λ c. c < b':') (digits fuel n)
unfolding digits
digits_no_colon zero n = tt
digits_no_colon (suc fuel) n = elim (Bool-cases (ltb n 10)) [
  | inl small ↦ rw small (ground arith)
  | inr large ↦ rw large (
      All-snoc (digits fuel (n / 10)) (b'0' + n % 10) (digits_no_colon fuel (n / 10)) (omega arith))
]

pub format_int_no_colon : (i : ℤ) → All (λ c. c < b':') (format_int i)
unfolding format_int
format_int_no_colon (pos n) = digits_no_colon (suc n) n
format_int_no_colon (negsuc n) = (omega arith, digits_no_colon (suc (suc n)) (suc n))
