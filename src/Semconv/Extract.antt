-- ===== src/Semconv/Extract.antt =====
-- internal/semconv/extract.go.
use mathlib.Core.List.{reverse}
use tracewell.Prelude.{
  ℕ, ◌-◌, ◌^◌, ℤ, pos, negsuc, ◌+ℤ◌, String, Bool, true, false, ◌&&◌, ◌||◌, not, List, [], ◌∷◌,
  Option, none, some, str_eq, leb, ltb, ◌==◌, codes, if◌then◌else◌,
}
use tracewell.Strconv.{parse_int}
use tracewell.Value.{Value, null, str, int, int64, float64, arr, obj, Fields, lookup}

pub data MimeType : Type 0 where
  text json : MimeType

-- attrs[key] where the key may be missing: a missing key reads as nil
unfoldable pub value_at : String → Fields → Value
value_at key attrs = elim (lookup key attrs) [ none ↦ null | some v ↦ v ]

-- mimeTypeFromAttribute
unfoldable pub mime_type_from_attribute : Value → MimeType
mime_type_from_attribute (str s) =
    if str_eq s "application/json" || (str_eq s "text/json" || str_eq s "json") then json else text
mime_type_from_attribute _ = text

pub record IoValue : Type 0 where
  pub value : String
  pub mime_type : MimeType

pub record TokenUsage : Type 0 where
  pub prompt : ℤ
  pub completion : ℤ
  pub total : ℤ
  pub cache_read : ℤ
  pub cache_write : ℤ

pub record Extracted : Type 0 where
  pub input : Option IoValue
  pub output : Option IoValue
  pub token_usage : Option TokenUsage
  pub model_name : String
  pub session_id : String
  pub user_id : String
  pub invocation_params : String

-- Code that the package calls: json.Marshal, and the conversion of a float64 to int.
pub record Outside : Type 0 where
  pub marshal_json : Value → Option String
  pub truncate : ℕ → ℤ

-- asString
unfoldable pub as_string : Fields → String → String
unfolding value_at
as_string attrs key = elim (value_at key attrs) [ str s ↦ s | _ ↦ "" ]

-- the white space of strings.TrimSpace
unfoldable pub is_space : ℕ → Bool
is_space c =
    (leb 9 c && leb c 13)
    || (c == 32
        || (c == 0x85
            || (c == 0xa0
                || (c == 0x1680
                    || ((leb 0x2000 c && leb c 0x200a)
                        || (c == 0x2028
                            || (c == 0x2029 || (c == 0x202f || (c == 0x205f || c == 0x3000)))))))))

trim_left : List ℕ → List ℕ
unfolding is_space
trim_left [] = []
trim_left (c ∷ cs) = let rest = trim_left cs in if is_space c then rest else c ∷ cs

-- strings.TrimSpace
unfoldable pub trim_space : List ℕ → List ℕ
unfolding trim_left
trim_space s = reverse (trim_left (reverse (trim_left s)))

-- a + b on Go's int: a result past the 64 bits wraps around
wrap64 : ℤ → ℤ
wrap64 (pos n) = if ltb n (2 ^ 63) then pos n else negsuc (2 ^ 64 - 1 - n)
wrap64 (negsuc n) = if ltb n (2 ^ 63) then negsuc n else pos (2 ^ 64 - 1 - n)

unfoldable pub add_int : ℤ → ℤ → ℤ
unfolding wrap64
add_int a b = wrap64 (a +ℤ b)

-- the value of a conversion, or 0 with ok=false
abbrev pub or_zero : Option ℤ → ℤ
or_zero none = pos 0
or_zero (some n) = n

abbrev pub is_some : Option ℤ → Bool
is_some none = false
is_some (some n) = true

unfoldable pub is_zero : ℤ → Bool
is_zero (pos n) = n == 0
is_zero (negsuc n) = false

-- the two sides that the total is derived from
derived : Option ℤ → Option ℤ → ℤ → ℤ
unfolding add_int
derived (some p) (some c) t = add_int p c
derived (some p) none t = p
derived none (some c) t = c
derived none none t = t

unfoldable pub usage : Option ℤ → Option ℤ → Option ℤ → ℤ → ℤ → Option TokenUsage
unfolding is_zero derived
usage p c t read write =
    if not (is_some p) && (not (is_some c) && (not (is_some t) && (is_zero read && is_zero write)))
    then none
    else some (record {
      prompt = or_zero p;
      completion = or_zero c;
      total = if is_some t then or_zero t else derived p c (or_zero t);
      cache_read = read;
      cache_write = write;
    })

module _ (o : Outside) where
  -- asInt; `none` is ok=false
  unfoldable pub as_int : Fields → String → Option ℤ
  unfolding value_at
  as_int attrs key = elim (value_at key attrs) [
    | int n ↦ some n
    | int64 n ↦ some n
    | float64 x ↦ some (o.truncate x)
    | str s ↦ parse_int (trim_space (codes s))
    | _ ↦ none
  ]

  -- a structured value as JSON; where it cannot be marshalled the value stays empty
  structured : Option String → MimeType → IoValue
  structured none mime = record { value = ""; mime_type = mime }
  structured (some b) mime = record { value = b; mime_type = json }

  io_of : Value → MimeType → String → IoValue
  unfolding structured
  io_of (str s) mime other = record { value = s; mime_type = mime }
  io_of (arr xs) mime other = structured (o.marshal_json (arr xs)) mime
  io_of (obj m) mime other = structured (o.marshal_json (obj m)) mime
  io_of _ mime other = record { value = other; mime_type = mime }

  unless_empty : IoValue → Option IoValue
  unless_empty io = if str_eq io.value "" then none else some io

  unfoldable pub io_at : Value → MimeType → String → Option IoValue
  unfolding io_of unless_empty
  io_at null mime other = none
  io_at v mime other = unless_empty (io_of v mime other)

  -- extractIO
  unfoldable pub extract_io : Fields → String → String → Option IoValue
  unfolding io_at
  extract_io attrs value_key mime_key =
      io_at (value_at value_key attrs) (mime_type_from_attribute (value_at mime_key attrs))
        (as_string attrs value_key)

  -- extractTokenUsage
  unfoldable pub extract_token_usage : Fields → Option TokenUsage
  unfolding usage
  extract_token_usage attrs =
      usage (as_int attrs "llm.token_count.prompt") (as_int attrs "llm.token_count.completion")
        (as_int attrs "llm.token_count.total")
        (or_zero (as_int attrs "llm.token_count.prompt_details.cache_read"))
        (or_zero (as_int attrs "llm.token_count.prompt_details.cache_write"))

  -- Extract
  unfoldable pub extract : Fields → Extracted
  extract attrs = record {
    input = extract_io attrs "input.value" "input.mime_type";
    output = extract_io attrs "output.value" "output.mime_type";
    token_usage = extract_token_usage attrs;
    model_name = as_string attrs "llm.model_name";
    session_id = as_string attrs "session.id";
    user_id = as_string attrs "user.id";
    invocation_params = as_string attrs "llm.invocation_parameters";
  }
