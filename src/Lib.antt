-- ===== src/Lib.antt =====
-- Tracewell stores traces of LLM programs. Spans arrive as OTLP exports, are decoded and enriched, pass
-- through a buffered channel to a single writer, and are kept in SQLite with running totals per subtree;
-- a read API lists them in pages. The files follow that path.
--
-- Prelude (Tests, Lists, Int, TextOrder), Value, Strconv: shared names, with the order of texts; Go's `any` and
--   `map[string]any` as the values and the association lists of Value; Atoi, ParseInt and FormatInt of Go's
--   strconv on bytes, and in Strconv/Lenient ParseBool and what ParseInt gives where its error is dropped.
-- Trace: internal/trace/span.go, with the reading of kinds in Kinds. Times are nanoseconds since the epoch.
-- Attrs: internal/attrs/unflatten.go and jsonstrings.go. Segments has segments, trim, digitValue, plainInt and
--   canonicalSeg; Trie has node, step and setValue, where step takes the write to the child as a function;
--   Unflatten has add, materializeInto, asArray, materializeValue, materializeRoot, Unflatten and
--   LoadJSONStrings. A map walk takes the order of the association list.
-- Semconv: internal/semconv/extract.go (Extract) and genai.go (Merge).
-- Collector: internal/collector. Decode has the attribute values, project names, times and status codes of
--   decode.go, and its child Spans decodeSpan and DecodeSpans; Batcher has batcher.go, its goroutines as a
--   step relation in which producers, ticker, Close and writer take turns in any order, Order, Drain and Delivered
--   about its spans and Subtotals about the columns that its flushes leave; Handler has
--   handler.go, with a body as the bytes that a reader yields and then its end or its error, and a
--   result that holds the response and the spans that the callback got; Ingest joins it with AddAll.
-- Store: internal/store/span_insert.go over the tables of schema.sql. Tables has the rows and the SQL queries
--   as functions of the tables; Session the transaction as a state with the outcome of each statement given
--   from outside, so that every one of them may fail; Int64 and Totals the counters; Columns the JSON and token
--   columns; Insert has ensureProject, upsertTrace, insertSpanTx and InsertSpan; Crediting, Ancestors, Forest, Cumulative, Correct and Sound
--   carry the invariant; Cycle is about a span that is its own parent, StaleCache about the project cache after
--   a rollback; Batch has span_batch.go, its savepoints and its transaction; Keeps is about what a transaction
--   leaves in the table, Batch/Calm and Batch/Returns about the end of a batch; Opening has store.go with the
--   statements of schema.sql, and its children what opening keeps and makes.
-- Api: internal/api. Cursor has the trace cursor of queries.go; Page has scanPage and the paging by id; Queries
--   has ListProjects, ListSpans and pageLimit; FindProject is in the file of that name. Traces has
--   ListTraces and fillTokenCounts, over Traces/Sql, which has SQLite's comparison of numbers and texts, WHERE
--   and ORDER BY; TraceSpans has ListTraceSpans; Handlers has handlers.go, from the routed request to
--   the status and the content of the answer.
-- Server: internal/server/server.go, what ListenAndServe returns. Mux has the patterns of net/http's ServeMux as
--   the program uses them; Routes the routes of internal/server/handler.go, internal/server/health and Handler in
--   internal/api/handlers.go, from a method and a clean path to the answer.
-- Command: cmd/tracewell/main.go from the opened store on, as a step relation in which requests, the rounds of AddAll,
--   the batcher's writer, the signal, a failing server and the shutdown take turns; Startup has openDB and the
--   start of run. Invariant and Reached carry what holds in every state; Shutdown, Returns and Startup/Restart
--   are about the end of run and the next start.
--
-- Bounds and fuel: the recursive query of propagateToAncestors runs on a given number of steps, and
-- propagation that would not end within them is the result `hangs`; the theorem on InsertSpan asks for more
-- steps than the ranks of the spans in the parent forest, and shows that it does not hang. The cumulative
-- counters are 64-bit ints whose sums wrap around, as Go's do in insertSpanTx. SQLite refuses a SUM that leaves
-- int64, which is one of the statements that may be refused; its + in the UPDATE of propagateToAncestors would
-- turn a counter that leaves int64 into a REAL, which is not modelled: here it wraps too. Row ids and the token
-- sums of the trace list are exact numbers; additions of token counts in Semconv and the digits of a segment
-- in Attrs wrap at 64 bits. A transaction whose COMMIT fails is taken to be rolled back by SQLite.
--
-- Outside code that the definitions take as parameters: json.Marshal and json.Unmarshal, the formatting and
-- the parsing of times, the formatting of a float64, its order and its conversion to an int, the latency
-- that SQLite computes from julianday, the next row id that SQLite chooses, compress/gzip and
-- compress/flate, and the protobuf codec.
--
-- Not modelled: flags, PRAGMAs, headers of the API, logging and the connections of net/http, which are standard library
-- or I/O only; paths that ServeMux has yet to clean; the encoding of an answer as JSON; the latency columns of
-- spans; and a read query that the driver refuses.
pub mod Prelude
pub mod Attrs
pub mod Value
pub mod Trace
pub mod Strconv
pub mod Store
pub mod Api
pub mod Semconv
pub mod Collector
pub mod Server
pub mod Command
