-- ===== src/Trace/Examples.antt =====
-- A kind in mixed case.
use tracewell.Prelude.{some, ◌≡◌, refl}
use tracewell.Value.{str}
use tracewell.Trace.{llm, to_upper_ascii, span_kind_from_attribute}
use tracewell.Trace.Kinds.{span_kind_from_attribute-kind_text}

span_kind_from_attribute-kind_text_example : span_kind_from_attribute (some (str "Llm")) ≡ llm
unfolding to_upper_ascii
span_kind_from_attribute-kind_text_example = span_kind_from_attribute-kind_text "Llm" llm refl
