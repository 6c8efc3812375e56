-- ===== src/Semconv/Examples.antt =====
-- The laws of internal/semconv at work: a chat span with one explicit attribute, and one without gen_ai
-- attributes.
use tracewell.Prelude.{pos, none, some, ◌≡◌, refl}
use tracewell.Value.{str, int64, obj, Fields, end, field, lookup, insert}
use tracewell.Semconv.Extract.{Outside}
use tracewell.Semconv.Merge.{
  walk, has_gen_ai, merge, merged, synthesize_from_gen_ai, flatten_top_level,
}
use tracewell.Semconv.Explicit.{lookup-merged}
use tracewell.Semconv.Nested.{merge_without_gen_ai, nothing_extracted, no_dots}

abbrev no_float : Outside
no_float = record { marshal_json = λ v. none; truncate = λ x. pos x }

abbrev chat : Fields
chat = field "gen_ai.operation.name" (str "chat") (
    field "gen_ai.request.model" (str "gpt-4o")
      (field "gen_ai.usage.input_tokens" (int64 (pos 12)) end))

abbrev explicit : Fields
explicit = field "llm" (obj (field "model_name" (str "mine") end)) end

lookup-merged_example :
    lookup "llm.model_name" (merged (synthesize_from_gen_ai no_float chat) explicit)
    ≡ some (str "mine")
unfolding lookup flatten_top_level walk insert
lookup-merged_example = lookup-merged no_float explicit chat "llm.model_name"

abbrev flat_input : Fields
flat_input = field "input.value" (str "hello") end

abbrev nested_input : Fields
nested_input = field "input" (obj (field "value" (str "hello") end)) end

merge_without_gen_ai_example : merge no_float nested_input flat_input ≡ nothing_extracted
unfolding has_gen_ai no_dots
merge_without_gen_ai_example = merge_without_gen_ai no_float nested_input flat_input refl refl
