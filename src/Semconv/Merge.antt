-- ===== src/Semconv/Merge.antt =====
-- internal/semconv/genai.go. A Go map has no order; where flattenTopLevel writes one key twice, the
-- model keeps the later entry of the association list, one of the orders that Go may take.
use Prim.Native.String.{◌++◌ as string_append}
use text.Mathlib.Text.{starts_with}
use tracewell.Prelude.{
  ℕ, ◌+◌, ℤ, String, Bool, true, false, ◌&&◌, ◌||◌, List, map, Option, none, some, str_eq, leb,
  ◌==◌, codes, if◌then◌else◌, codes_eq,
}
use tracewell.Value.{Value, str, int, obj, Fields, end, field, insert}
use tracewell.Semconv.Extract.{Outside, Extracted, extract, as_int, value_at, add_int}

-- genaiSpanKinds
abbrev pub genai_span_kinds : Fields
genai_span_kinds = field "chat" (str "LLM") (
    field "text_completion" (str "LLM") (
      field "embeddings" (str "EMBEDDING") (
        field "execute_tool" (str "TOOL") (
          field "create_agent" (str "AGENT")
            (field "invoke_agent" (str "AGENT") (field "retrieval" (str "RETRIEVER") end))))))

-- strings.ToLower on a code point that it takes to ASCII; no other can reach a key of the map
to_lower_code : ℕ → ℕ
to_lower_code c =
    if leb b'A' c && leb c b'Z'
    then c + 32
    else if c == 0x130
    then b'i'
    else if c == 0x212a
    then b'k'
    else c

-- the map's entry for the lower-cased name
find_kind : List ℕ → Fields → Option Value
find_kind name end = none
find_kind name (field k v m) =
    let rest = find_kind name m in if codes_eq name (codes k) then some v else rest

unfoldable pub mapped_kind : Value → Option Value
unfolding find_kind to_lower_code
mapped_kind (str kind) = find_kind (map to_lower_code (codes kind)) genai_span_kinds
mapped_kind _ = none

-- the first of the two attributes that is a text
unfoldable pub model_name_of : Value → Value → Option Value
model_name_of (str model) response = some (str model)
model_name_of request (str model) = some (str model)
model_name_of request response = none

-- `if v, ok := ...; ok { out[key] = v }`
unfoldable pub set_if : String → Option Value → Fields → Fields
set_if key none out = out
set_if key (some v) out = insert key v out

unfoldable pub int_of : Option ℤ → Option Value
int_of none = none
int_of (some n) = some (int n)

unfoldable pub total_of : Option ℤ → Option ℤ → Option Value
unfolding add_int
total_of (some p) (some c) = some (int (add_int p c))
total_of _ _ = none

unfoldable pub has_gen_ai : Fields → Bool
has_gen_ai end = false
has_gen_ai (field k v m) = starts_with "gen_ai." k || has_gen_ai m

module _ (o : Outside) where
  unfoldable pub synthesized : Fields → Fields
  unfolding value_at mapped_kind model_name_of set_if int_of total_of
  synthesized flat =
      let prompt = as_int o flat "gen_ai.usage.input_tokens" in
      let completion = as_int o flat "gen_ai.usage.output_tokens" in
      let kind =
        set_if "openinference.span.kind" (mapped_kind (value_at "gen_ai.operation.name" flat))
          end in
      let model =
        set_if "llm.model_name"
          (model_name_of (value_at "gen_ai.request.model" flat)
            (value_at "gen_ai.response.model" flat))
          kind in
      let with_prompt = set_if "llm.token_count.prompt" (int_of prompt) model in
      let with_completion = set_if "llm.token_count.completion" (int_of completion) with_prompt in
      let with_total =
        set_if "llm.token_count.total" (total_of prompt completion) with_completion in
      let with_read =
        set_if "llm.token_count.prompt_details.cache_read"
          (int_of (as_int o flat "gen_ai.usage.cache_read.input_tokens")) with_total in
      set_if "llm.token_count.prompt_details.cache_write"
        (int_of (as_int o flat "gen_ai.usage.cache_creation.input_tokens")) with_read

  -- SynthesizeFromGenAI; a nil map and an empty one read the same
  unfoldable pub synthesize_from_gen_ai : Fields → Fields
  unfolding synthesized has_gen_ai
  synthesize_from_gen_ai flat = if has_gen_ai flat then synthesized flat else end

unfoldable pub join : String → String → String
join prefix k = if str_eq prefix "" then k else string_append prefix (string_append "." k)

unfoldable mutual
  unfolding join

  -- walk
  pub walk : String → Fields → Fields → Fields
  walk prefix end out = out
  walk prefix (field k v m) out = walk prefix m (walk_value (join prefix k) v out)

  pub walk_value : String → Value → Fields → Fields
  walk_value key (obj m) out = walk key m out
  walk_value key v out = insert key v out

-- flattenTopLevel
unfoldable pub flatten_top_level : Fields → Fields
flatten_top_level nested = walk "" nested end

-- `for k, v := range top { merged[k] = v }`
unfoldable pub lay_down : Fields → Fields → Fields
lay_down end merged = merged
lay_down (field k v top) merged = lay_down top (insert k v merged)

-- the flat view that Merge builds
unfoldable pub merged : Fields → Fields → Fields
unfolding lay_down flatten_top_level
merged syn nested = lay_down (flatten_top_level nested) (lay_down syn end)

unfoldable pub is_empty : Fields → Bool
is_empty end = true
is_empty (field k v m) = false

-- Merge
unfoldable pub merge : Outside → Fields → Fields → Extracted
unfolding is_empty
merge o nested flat =
    let syn = synthesize_from_gen_ai o flat in
    if is_empty syn then extract o nested else extract o (merged syn nested)
