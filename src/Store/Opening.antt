-- ===== src/Store/Opening.antt =====
-- internal/store/store.go: opening the store, with the statements of schema.sql. The columns of the tables are in
-- Tables; here a database is told by the names of its tables and indexes, and the rows.
pub mod Schema
pub mod Reopened
use tracewell.Prelude.{
  String, Bool, true, false, ◌||◌, List, [], ◌∷◌, Option, none, some, str_eq, if◌then◌else◌,
}
use tracewell.Store.Tables.{Db}
use tracewell.Store.Session.{Error, driver, wrapped, Result, ok, err, hangs, Session}

-- CREATE TABLE IF NOT EXISTS, and CREATE INDEX IF NOT EXISTS with its table
pub data Statement : Type 0 where
  create_table : String → Statement
  create_index : String → String → Statement

-- Each statement uses up one entry of `faults`; `true` is a statement that the driver refuses.
pub record Database : Type 0 where
  pub tables : List String
  pub indexes : List String
  pub rows : Db
  pub faults : List Bool

abbrev pub schema : List Statement
schema =
    create_table "projects"
    ∷ create_table "traces"
    ∷ create_index "ix_traces_project_rowid_start_time" "traces"
    ∷ create_table "spans"
    ∷ create_index "ix_spans_trace_rowid" "spans"
    ∷ create_index "ix_spans_parent_id" "spans"
    ∷ create_index "ix_spans_start_time" "spans"
    ∷ []

unfoldable pub named : String → List String → Bool
named n [] = false
named n (m ∷ ms) = str_eq m n || named n ms

-- the rows with those of a new table, which has none
unfoldable pub emptied : String → Db → Db
emptied n db = record {
  projects = if str_eq n "projects" then [] else db.projects;
  traces = if str_eq n "traces" then [] else db.traces;
  spans = if str_eq n "spans" then [] else db.spans;
}

-- One statement; `none` if SQLite refuses it, since an index has no table.
unfoldable pub executed : Statement → Database → Option Database
unfolding named emptied
executed (create_table n) d =
    if named n d.tables
    then some d
    else some (record d { tables = n ∷ d.tables; rows = emptied n d.rows })
executed (create_index i t) d =
    if named t d.tables
    then if named i d.indexes then some d else some (record d { indexes = i ∷ d.indexes })
    else none

unfoldable pub is_refused : List Bool → Bool
is_refused [] = false
is_refused (f ∷ fs) = f

unfoldable pub later : List Bool → List Bool
later [] = []
later (f ∷ fs) = fs

-- db.Exec: the statements one after the other up to the first error; there is no transaction around them.
unfoldable pub exec_all : List Statement → Database → Result (Unit {0}) × Database
unfolding is_refused later executed
exec_all [] d = (ok tt, d)
exec_all (st ∷ sts) d = elim (is_refused d.faults) [
  | true ↦ (err driver, record d { faults = later d.faults })
  | false ↦ elim (executed st (record d { faults = later d.faults })) [
    | none ↦ (err driver, record d { faults = later d.faults })
    | some d' ↦ exec_all sts d'
  ]
]

-- schemaFS.ReadFile: the file is embedded in the program
unfoldable pub read_file : String → Option (List Statement)
read_file name = if str_eq name "schema.sql" then some schema else none

-- migrate, from the file that it read
unfoldable pub migrate_from : Option (List Statement) → Database → Result (Unit {0}) × Database
unfolding exec_all
migrate_from none d = (err driver, d)
migrate_from (some sts) d = exec_all sts d

unfoldable pub migrate : Database → Result (Unit {0}) × Database
unfolding migrate_from read_file
migrate d = migrate_from (read_file "schema.sql") d

-- the store of a database, with an empty project cache
unfoldable pub opened : Result (Unit {0}) × Database → Result Session × Database
opened (ok tt, d) = (ok (record { db = d.rows; cache = []; faults = d.faults }), d)
opened (err e, d) = (err (wrapped "apply schema" e), d)
opened (hangs, d) = (hangs, d)

-- Open
unfoldable pub open_store : Database → Result Session × Database
unfolding opened migrate
open_store d = opened (migrate d)
