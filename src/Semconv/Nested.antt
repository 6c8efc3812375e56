-- ===== src/Semconv/Nested.antt =====
-- What Merge of internal/semconv/genai.go extracts from a nested map, which Extract of
-- internal/semconv/extract.go reads under dotted keys.
use tracewell.Prelude.{
  ℕ, String, Bool, true, false, not, ◌&&◌, ◌||◌, List, [], ◌∷◌, none, str_eq, ◌==◌, codes,
  Bool-cases, inl, inr, ◌≡◌, refl, arith, eq_iff,
}
use tracewell.Value.{null, Fields, end, field, lookup}
use tracewell.Semconv.Extract.{
  Outside, Extracted, extract, extract_io, extract_token_usage, as_string, as_int, value_at, io_at,
  usage, is_zero,
}
use tracewell.Semconv.Merge.{has_gen_ai, synthesize_from_gen_ai, merge, is_empty}

abbrev pub has_dot : List ℕ → Bool
has_dot [] = false
has_dot (c ∷ cs) = c == b'.' || has_dot cs

-- no key of the map's first level has a dot in it
unfoldable pub no_dots : Fields → Bool
no_dots end = true
no_dots (field k v m) = not (has_dot (codes k)) && no_dots m

abbrev pub nothing_extracted : Extracted
nothing_extracted = record {
  input = none;
  output = none;
  token_usage = none;
  model_name = "";
  session_id = "";
  user_id = "";
  invocation_params = "";
}

lookup-no_dots :
    (k : String) (m : Fields) → has_dot (codes k) ≡ true → no_dots m ≡ true → lookup k m ≡ none
unfolding lookup no_dots
lookup-no_dots k end h d = refl
lookup-no_dots k (field j v m) h d = elim (Bool-cases (str_eq j k)) [
  | inl e ↦
      let same : j ≡ k = (eq_iff j k).0 e in
      let dotted : has_dot (codes j) ≡ true = rw same h in ground (arith, d, dotted)
  | inr e ↦
      let rest : no_dots m ≡ true = ground (arith, d) in
      ground (arith, e, lookup-no_dots k m h rest)
]

value_at-no_dots :
    (k : String) (m : Fields) → has_dot (codes k) ≡ true → no_dots m ≡ true → value_at k m ≡ null
unfolding value_at
value_at-no_dots k m h d = rw (value_at, lookup-no_dots k m h d) refl

as_string-no_dots :
    (k : String) (m : Fields) → has_dot (codes k) ≡ true → no_dots m ≡ true → as_string m k ≡ ""
unfolding as_string
as_string-no_dots k m h d = rw (as_string, value_at-no_dots k m h d) refl

as_int-no_dots :
    (o : Outside) (k : String) (m : Fields)
    → has_dot (codes k) ≡ true
    → no_dots m ≡ true
    → as_int o m k ≡ none
unfolding as_int
as_int-no_dots o k m h d = rw (as_int, value_at-no_dots k m h d) refl

extract_io-no_dots :
    (o : Outside) (k j : String) (m : Fields)
    → has_dot (codes k) ≡ true
    → no_dots m ≡ true
    → extract_io o m k j ≡ none
unfolding extract_io io_at
extract_io-no_dots o k j m h d = rw (extract_io, value_at-no_dots k m h d) refl

usage-no_dots : (o : Outside) (m : Fields) → no_dots m ≡ true → extract_token_usage o m ≡ none
unfolding extract_token_usage usage is_zero
usage-no_dots o m d =
    rw
      (
        extract_token_usage,
        as_int-no_dots o "llm.token_count.prompt" m refl d,
        as_int-no_dots o "llm.token_count.completion" m refl d,
        as_int-no_dots o "llm.token_count.total" m refl d,
        as_int-no_dots o "llm.token_count.prompt_details.cache_read" m refl d,
        as_int-no_dots o "llm.token_count.prompt_details.cache_write" m refl d,
      )
      refl

extract-no_dots : (o : Outside) (m : Fields) → no_dots m ≡ true → extract o m ≡ nothing_extracted
unfolding extract
extract-no_dots o m d =
    rw
      (
        extract,
        extract_io-no_dots o "input.value" "input.mime_type" m refl d,
        extract_io-no_dots o "output.value" "output.mime_type" m refl d,
        usage-no_dots o m d,
        as_string-no_dots "llm.model_name" m refl d,
        as_string-no_dots "session.id" m refl d,
        as_string-no_dots "user.id" m refl d,
        as_string-no_dots "llm.invocation_parameters" m refl d,
      )
      refl

-- From a span with no gen_ai attribute, whose nested attributes have no dot in a key of the first level (as
-- a span whose keys were all expanded into nested maps has), Merge extracts nothing at all: no input, no
-- output, no token usage, and empty texts, whatever the nested maps hold.
pub merge_without_gen_ai :
    (o : Outside) (nested flat : Fields)
    → has_gen_ai flat ≡ false
    → no_dots nested ≡ true
    → merge o nested flat ≡ nothing_extracted
unfolding merge synthesize_from_gen_ai is_empty
merge_without_gen_ai o nested flat h d =
    rw (merge, synthesize_from_gen_ai, h) (extract-no_dots o nested d)
