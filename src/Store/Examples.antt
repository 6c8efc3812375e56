-- ===== src/Store/Examples.antt =====
-- The store's theorems at concrete spans, and tests of its operations.
use tracewell.Prelude.{
  ℕ, true, ◌⊎◌, suc, ◌<◌, pos, String, false, List, [], ◌∷◌, none, some, ◌≡◌, ◌≢◌, refl, sym, arith,
  ltb, if◌then◌else◌, inl, inr, In, str_eq, eq_iff,
}
use tracewell.Value.{end}
use tracewell.Trace.{Span, llm, error, TokenUsage}
use tracewell.Store.Tables.{SpanRow, has_span, id_in, sum_children, stored_self}
use tracewell.Store.Int64.{int64}
use tracewell.Store.Totals.{◌⊕◌, ⊕-no_totals}
use tracewell.Store.Session.{Result, Session, hangs}
use tracewell.Store.Columns.{Outside, null_string, null_sum}
use tracewell.Store.Insert.{insert_span}
use tracewell.Store.Cumulative.{child_totals}
use tracewell.Store.Correct.{FreshRowids, Fits}
use tracewell.Store.Sound.{IsSound}
use tracewell.Store.Insertion.{Inserts, insert_span-IsSound, insert_span_duplicate}
use tracewell.Store.Tables.{find_project, find_trace}
use tracewell.Store.Session.{ok, statement, attempt, outcome, cache_get}
use tracewell.Store.Columns.{marshalled, token_columns, usage_columns, span_to_columns}
use tracewell.Store.Insert.{
  insert_span_tx, ensure_project, cached_project, found_project, insert_project, last_insert_id,
  upsert_trace, found_trace, insert_trace, insert_row, after_insert,
}
use tracewell.Store.Batch.{
  insert_span_savepoint, insert_all, close_savepoint, continue_with, finish_batch, committed, begun,
  insert_spans,
}
use tracewell.Store.Opening.{Database, schema, named, open_store}
use tracewell.Store.Opening.Schema.{present_rows, all_made}
use tracewell.Store.Opening.Reopened.{open_store_reopens}
use tracewell.Store.Batch.Stored.{Reported, insert_spans-stored}
use tracewell.Store.Batch.Returns.{insert_spans-returns}
use tracewell.Store.Cycle.{insert_span_self_parent}
use tracewell.Store.StaleCache.{next_project, refused_later, ensure_project_confused}
use tracewell.Store.Session.{err, wrapped, driver}

abbrev largest : List ℕ → ℕ
largest [] = 0
largest (i ∷ ids) = let rest = largest ids in if ltb rest i then i else rest

abbrev pub plain : Outside
plain = record {
  format_time = λ t. "t";
  marshal_attributes = λ a. some "{}";
  marshal_events = λ e. some "null";
  next_rowid = λ ids. suc (largest ids);
}

id_in-le : (i : ℕ) (ids : List ℕ) → largest ids < i → id_in i ids ≡ false
unfolding id_in
id_in-le i [] h = refl
id_in-le i (j ∷ ids) h = ground (arith, id_in-le i ids)

pub plain-FreshRowids : FreshRowids plain
plain-FreshRowids ids = id_in-le (suc (largest ids)) ids (omega arith)

abbrev root_row : SpanRow
root_row = record {
  id = 1;
  trace_rowid = 1;
  span_id = "root";
  parent_id = none;
  name = "r";
  span_kind = "CHAIN";
  start_time = "t";
  end_time = "t";
  attributes = "{}";
  events = "null";
  status_code = "ERROR";
  status_message = "";
  cumulative = record {
    errors = int64 (pos 1);
    tokens_prompt = int64 (pos 0);
    tokens_completion = int64 (pos 0);
  };
  llm_tokens_prompt = none;
  llm_tokens_completion = none;
}

abbrev pub one_root : Session
one_root = record {
  db = record { projects = []; traces = []; spans = root_row ∷ [] };
  cache = [];
  faults = [];
}

abbrev usage : TokenUsage
usage = record {
  prompt = pos 10;
  completion = pos 5;
  total = pos 15;
  cache_read = pos 0;
  cache_write = pos 0;
}

abbrev pub child : Span
child = record {
  name = "c";
  trace_id = "t1";
  span_id = "child";
  parent_id = "root";
  start_time = pos 0;
  end_time = pos 1;
  attributes = end;
  span_kind = llm;
  status_code = error;
  status_message = "";
  events = [];
  input = none;
  output = none;
  token_usage = some usage;
  model_name = "";
  session_id = "";
  user_id = "";
  invocation_params = "";
}

abbrev pub rank : String → ℕ
rank s = if str_eq s "root" then 0 else 1

pub one_root-IsSound : IsSound rank (root_row ∷ [])
unfolding id_in has_span stored_self child_totals sum_children null_sum
one_root-IsSound = record { keyed = (refl, refl, tt); consistent = own; ranked = no_parent }
  where
    own :
        (r : SpanRow)
        → In r (root_row ∷ [])
        → r.cumulative ≡ stored_self r ⊕ child_totals r.trace_rowid r.span_id (root_row ∷ [])
    own r (inl p) = rw p (sym (⊕-no_totals root_row.cumulative))
    own r (inr i) = absurd i

    no_parent :
        (r : SpanRow)
        → In r (root_row ∷ [])
        → (p : String) → r.parent_id ≡ some p
        → rank p < rank r.span_id
    no_parent r (inl e) p h = ground arith
    no_parent r (inr i) p h = absurd i

pub child-Fits : Fits rank 1 child
unfolding null_string
child-Fits = record { below = λ p h. ground (arith, eq_iff p "root"); within = omega arith }

insert_span-IsSound_example :
    Inserts rank child one_root.db (insert_span plain 1 "t" child "default" one_root)
insert_span-IsSound_example =
    insert_span-IsSound plain rank 1 "t" child "default" one_root plain-FreshRowids child-Fits
      one_root-IsSound

insert_span_duplicate_example :
    ((insert_span plain 1 "t" (record child { span_id = "root" }) "default" one_root).1.db.spans
      ≡ one_root.db.spans)
    × ((insert_span plain 1 "t" (record child { span_id = "root" }) "default" one_root).0 ≢ hangs)
unfolding has_span
insert_span_duplicate_example =
    insert_span_duplicate plain 1 "t" (record child { span_id = "root" }) "default" one_root refl

insert_span_self_parent_example :
    (insert_span plain 5 "t" (record child { parent_id = "child" }) "default" one_root).0 ≡ hangs
unfolding has_span
insert_span_self_parent_example =
    insert_span_self_parent plain 5 "t" (record child { parent_id = "child" }) "default" one_root
      "{}" "null" refl refl refl refl refl refl

-- the store after a batch with a span that it has already
abbrev batch_done : Session
batch_done = record {
  db = record {
    projects = record { id = 1; name = "default"; created_at = "t"; updated_at = "t" } ∷ [];
    traces =
        record {
          id = 1;
          project_rowid = 1;
          trace_id = "t1";
          session_id = none;
          start_time = "t";
          end_time = "t";
        }
        ∷ [];
    spans = root_row ∷ [];
  };
  cache = ("default", 1) ∷ [];
  faults = [];
}

insert_spans-stored_example :
    Reported
      (record { span = record child { span_id = "root" }; project = "default" } ∷ [])
      (ok tt ∷ [])
      batch_done
    × ((has_span "root" one_root.db.spans ≡ false) ⊎ (has_span "root" batch_done.db.spans ≡ true))
unfolding insert_spans begun insert_all insert_span_savepoint close_savepoint continue_with
    finish_batch committed statement attempt outcome insert_span_tx span_to_columns marshalled
    token_columns usage_columns ensure_project cached_project cache_get found_project insert_project
    last_insert_id find_project upsert_trace found_trace insert_trace find_trace insert_row has_span
    after_insert null_string
insert_spans-stored_example =
    insert_spans-stored plain 1 "t"
      (record { span = record child { span_id = "root" }; project = "default" } ∷ []) one_root
      batch_done (ok tt ∷ []) "root" refl

insert_spans-returns_example :
    (rs : List (Result (Unit {0}))) × (s' : Session) × (insert_spans plain 1 "t"
        (record { span = child; project = "default" } ∷ [])
        one_root
      ≡ some (rs, s'))
    × IsSound rank s'.db.spans
    × (s'.faults ≡ [])
insert_spans-returns_example =
    insert_spans-returns plain rank 1 "t" (record { span = child; project = "default" } ∷ [])
      one_root plain-FreshRowids (child-Fits, tt) one_root-IsSound refl

abbrev half_opened : Database
half_opened = record {
  tables = "spans" ∷ [];
  indexes = [];
  rows = one_root.db;
  faults = false ∷ false ∷ true ∷ [];
}

open_store_reopens_example :
    (d' : Database) × (open_store (record (open_store half_opened).1 { faults = [] })
      ≡ (ok (record { db = one_root.db; cache = []; faults = [] }), d'))
    × (all_made schema d' ≡ true)
    × (open_store d' ≡ (ok (record { db = one_root.db; cache = []; faults = [] }), d'))
unfolding present_rows named
open_store_reopens_example = open_store_reopens half_opened refl

ensure_project_confused_example :
    ((insert_span plain 1 "t" child "mine" (refused_later one_root)).0
      ≡ err (wrapped "upsert trace" driver))
    × ((insert_span plain 1 "t" child "mine" (refused_later one_root)).1.db ≡ one_root.db)
    × ((ensure_project plain "t" "other"
          (insert_span plain 1 "t" child "mine" (refused_later one_root)).1).0
        ≡ ok (next_project plain one_root.db))
    × ((ensure_project plain "t" "mine"
          (ensure_project plain "t" "other"
            (insert_span plain 1 "t" child "mine" (refused_later one_root)).1).1).0
        ≡ ok (next_project plain one_root.db))
    × (find_project "mine"
          (ensure_project plain "t" "other"
            (insert_span plain 1 "t" child "mine" (refused_later one_root)).1).1.db.projects
        ≡ none)
unfolding cache_get find_project
ensure_project_confused_example =
    ensure_project_confused plain 1 "t" child "mine" "other" one_root "{}" "null" refl refl refl
      refl refl refl λ e. absurd (ground (arith, eq_iff "mine" "other", e))
