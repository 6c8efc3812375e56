-- ===== src/Command/Startup.antt =====
-- The start of run in cmd/tracewell/main.go: openDB, store.Open and NewBatcher, before the port is bound. The flags and
-- the PRAGMAs of the connection are left out.
pub mod Restart
use tracewell.Prelude.{ℕ, Option, none, some}
use tracewell.Store.Session.{Error, Result, ok, err, hangs, Session}
use tracewell.Store.Opening.{Database, open_store}
use tracewell.Command.{Process, launched}

-- The error that run returns: of os.MkdirAll, of sql.Open, told apart by a number, or of the schema.
pub data StartError : Type 0 where
  directory : ℕ → StartError
  opening : ℕ → StartError
  schema_error : Error → StartError

pub data Started : Type 0 where
  stopped : StartError → Started
  -- store.Open does not end
  stuck : Started
  running : Process → Started

-- openDB: the directory first
unfoldable pub open_db : Option ℕ → Option ℕ → Option StartError
open_db (some e) failing = some (directory e)
open_db none (some e) = some (opening e)
open_db none none = none

-- from the result of store.Open; the deferred db.Close keeps what is in the file
unfoldable pub launch : Result Session × Database → Started × Database
launch (ok s, d) = (running (launched s), d)
launch (err e, d) = (stopped (schema_error e), d)
launch (hangs, d) = (stuck, d)

unfoldable pub started : Option StartError → Database → Started × Database
unfolding launch
started (some e) d = (stopped e, d)
started none d = launch (open_store d)

-- run up to its select, from the errors of os.MkdirAll and sql.Open, if any
unfoldable pub start_up : Option ℕ → Option ℕ → Database → Started × Database
unfolding open_db started
start_up making failing d = started (open_db making failing) d
