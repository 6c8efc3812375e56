-- ===== src/Store/Columns.antt =====
-- The values that internal/store/span_insert.go derives from a span: its own totals, its columns.
use tracewell.Prelude.{ℕ, ℤ, pos, String, Bool, List, Option, none, some, str_eq, if◌then◌else◌}
use tracewell.Value.{Fields}
use tracewell.Trace.{Span, Event, SpanKind, StatusCode, TokenUsage, llm, error}
use tracewell.Store.Int64.{int64}
use tracewell.Store.Totals.{Totals, no_totals}
use tracewell.Store.Session.{marshal, Tx, ◌>>=◌, pure, raise}

-- What the store calls and does not implement.
pub record Outside : Type 0 where
  -- t.UTC().Format(time.RFC3339Nano)
  pub format_time : ℤ → String
  -- json.Marshal; `none` is its error
  pub marshal_attributes : Fields → Option String
  pub marshal_events : List Event → Option String
  -- the rowid that SQLite gives to a new row of a table with these rowids
  pub next_rowid : List ℕ → ℕ

pub record SpanColumns : Type 0 where
  pub attributes_json : String
  pub events_json : String
  pub token_prompt : Option ℤ
  pub token_comp : Option ℤ

abbrev pub is_llm : SpanKind → Bool
is_llm llm = Bool.true
is_llm _ = Bool.false

abbrev pub is_error : StatusCode → Bool
is_error error = Bool.true
is_error _ = Bool.false

unfoldable pub usage_tokens : Option TokenUsage → ℤ × ℤ
usage_tokens none = (pos 0, pos 0)
usage_tokens (some u) = (u.prompt, u.completion)

-- selfTotals
unfoldable pub self_totals : Span → Totals
unfolding usage_tokens
self_totals span = record {
  errors = int64 (if is_error span.status_code then pos 1 else pos 0);
  tokens_prompt =
      int64 (if is_llm span.span_kind then (usage_tokens span.token_usage).0 else pos 0);
  tokens_completion =
      int64 (if is_llm span.span_kind then (usage_tokens span.token_usage).1 else pos 0);
}

unfoldable pub marshalled : Option String → Tx String
marshalled none = raise marshal
marshalled (some text) = pure text

unfoldable pub usage_columns : Option TokenUsage → Option ℤ × Option ℤ
usage_columns none = (none, none)
usage_columns (some u) = (some u.prompt, some u.completion)

-- the token columns: NULL unless the span is an LLM span with usage
unfoldable pub token_columns : Span → Option ℤ × Option ℤ
unfolding usage_columns
token_columns span = if is_llm span.span_kind then usage_columns span.token_usage else (none, none)

-- nullString
unfoldable pub null_string : String → Option String
null_string s = if str_eq s "" then none else some s

-- nullSum, on the three sums at once: the columns are NOT NULL, so they are NULL together
unfoldable pub null_sum : Option Totals → Totals
null_sum none = no_totals
null_sum (some t) = t

-- spanToColumns
unfoldable pub span_to_columns : Outside → Span → Tx SpanColumns
unfolding marshalled token_columns
span_to_columns o span = do
  attributes ← marshalled (o.marshal_attributes span.attributes)
  events ← marshalled (o.marshal_events span.events)
  pure (record {
    attributes_json = attributes;
    events_json = events;
    token_prompt = (token_columns span).0;
    token_comp = (token_columns span).1;
  })
