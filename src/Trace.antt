-- ===== src/Trace.antt =====
-- The span model of internal/trace/span.go.
mod Kinds
mod Examples
use tracewell.Prelude.{
  ℕ, ℤ, ◌+◌, ◌-◌, String, ◌&&◌, List, [], ◌∷◌, map, Option, some, str_eq, leb, codes, codes_eq,
  if◌then◌else◌,
}
use tracewell.Value.{Value, str, Fields}

pub record Event : Type 0 where
  pub name : String
  pub timestamp : ℤ
  pub attributes : Fields

pub record IoValue : Type 0 where
  pub value : String
  pub mime_type : String

pub record TokenUsage : Type 0 where
  pub prompt : ℤ
  pub completion : ℤ
  pub total : ℤ
  pub cache_read : ℤ
  pub cache_write : ℤ

pub data SpanKind : Type 0 where
  tool chain llm prompt retriever embedding agent reranker evaluator guardrail unknown : SpanKind

pub data StatusCode : Type 0 where
  unset ok error : StatusCode

-- A time is its nanoseconds since the epoch.
pub record Span : Type 0 where
  pub name : String
  pub trace_id : String
  pub span_id : String
  pub parent_id : String
  pub start_time : ℤ
  pub end_time : ℤ
  pub attributes : Fields
  pub span_kind : SpanKind
  pub status_code : StatusCode
  pub status_message : String
  pub events : List Event
  pub input : Option IoValue
  pub output : Option IoValue
  pub token_usage : Option TokenUsage
  pub model_name : String
  pub session_id : String
  pub user_id : String
  pub invocation_params : String

to_upper_code : ℕ → ℕ
to_upper_code c = if leb b'a' c && leb c b'z' then c - b'a' + b'A' else c

-- toUpperASCII, on the code points of the text
pub to_upper_ascii : List ℕ → List ℕ
unfolding to_upper_code
to_upper_ascii s = map to_upper_code s

-- the text of a kind constant
abbrev pub kind_text : SpanKind → String
kind_text tool = "TOOL"
kind_text chain = "CHAIN"
kind_text llm = "LLM"
kind_text prompt = "PROMPT"
kind_text retriever = "RETRIEVER"
kind_text embedding = "EMBEDDING"
kind_text agent = "AGENT"
kind_text reranker = "RERANKER"
kind_text evaluator = "EVALUATOR"
kind_text guardrail = "GUARDRAIL"
kind_text unknown = "UNKNOWN"

-- the text of a status constant
abbrev pub status_text : StatusCode → String
status_text unset = "UNSET"
status_text ok = "OK"
status_text error = "ERROR"

-- the case list of SpanKindFromAttribute: the first constant whose text is k
match_kind : List ℕ → List SpanKind → SpanKind
match_kind k [] = unknown
match_kind k (kind ∷ kinds) =
    if codes_eq k (codes (kind_text kind)) then kind else match_kind k kinds

abbrev known_kinds : List SpanKind
known_kinds =
    tool ∷ chain ∷ llm ∷ prompt ∷ retriever ∷ embedding ∷ agent ∷ reranker ∷ evaluator ∷ guardrail
    ∷ []

-- SpanKindFromAttribute; `none` and a value of another type both fail the type assertion
unfoldable pub span_kind_from_attribute : Option Value → SpanKind
unfolding match_kind to_upper_ascii
span_kind_from_attribute (some (str s)) =
    if str_eq s "" then unknown else match_kind (to_upper_ascii (codes s)) known_kinds
span_kind_from_attribute _ = unknown
