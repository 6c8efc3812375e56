-- ===== src/Command.antt =====
-- cmd/tracewell/main.go: run, from the opened store to its return, with the requests in flight. The HTTP server, the
-- signals and the batcher's writer take turns as a step relation. A handler that panics is ended by net/http, which
-- recovers the panic; handlers of other routes, which send no spans, are left out.
pub mod Invariant
pub mod Reached
pub mod Shutdown
pub mod Returns
pub mod Startup
mod Examples
use tracewell.Prelude.{
  ℕ, String, Bool, true, false, List, [], ◌∷◌, ◌++◌, Option, none, some, ◌≡◌, ◌≢◌,
}
use tracewell.Store.Session.{Session}
use tracewell.Store.Columns.{Outside}
use tracewell.Collector.Batcher.{
  SpanWithProject, Batcher, new_batcher, accepted, panicked, send, close,
}
use tracewell.Collector.Batcher as Batcher
use tracewell.Server.{ServerError, listen_and_serve}

-- Where run stands: in its select, in srv.Shutdown, in batcher.Close with the error that it will return, or returned,
-- the database closed.
pub data Phase : Type 0 where
  serving : Phase
  shutting_down : Phase
  closing : Option ServerError → Phase
  returned : Option ServerError → Phase

-- `connected` tells that the server may still read requests from its connections; each handler holds the
-- spans that AddAll has yet to send.
pub record Process : Type 0 where
  pub phase : Phase
  pub connected : Bool
  pub handlers : List (List SpanWithProject)
  pub batcher : Batcher

-- after NewBatcher and server.New
abbrev pub launched : Session → Process
launched s = record { phase = serving; connected = true; handlers = []; batcher = new_batcher s }

unfoldable pub is_returned : Phase → Bool
is_returned (returned r) = true
is_returned _ = false

module _ (o : Outside) (steps : ℕ) (now : String) where
  -- One turn, with the spans of a request that it takes and the spans that it hands over to the batcher.
  pub data Step (p p' : Process) : List SpanWithProject → List SpanWithProject → Type 0 where
    -- a request to POST /v1/traces is decoded
    requests :
        (spans : List SpanWithProject)
        → is_returned p.phase ≡ false
        → p.connected ≡ true
        → p' ≡ record p { handlers = spans ∷ p.handlers }
        → Step p p' spans []
    -- one round of AddAll
    hands_over :
        (before after : List (List SpanWithProject)) (q : SpanWithProject)
        (qs : List SpanWithProject) (b : Batcher)
        → is_returned p.phase ≡ false
        → p.handlers ≡ before ++ (q ∷ qs) ∷ after
        → send q p.batcher ≡ accepted b
        → p' ≡ record p { handlers = before ++ qs ∷ after; batcher = b }
        → Step p p' [] (q ∷ [])
    panics :
        (before after : List (List SpanWithProject)) (q : SpanWithProject)
        (qs : List SpanWithProject)
        → is_returned p.phase ≡ false
        → p.handlers ≡ before ++ (q ∷ qs) ∷ after
        → send q p.batcher ≡ panicked
        → p' ≡ record p { handlers = before ++ after }
        → Step p p' [] []
    answers :
        (before after : List (List SpanWithProject))
        → is_returned p.phase ≡ false
        → p.handlers ≡ before ++ [] ∷ after
        → p' ≡ record p { handlers = before ++ after }
        → Step p p' [] []
    -- a turn of the writer or its ticker
    writes :
        (b : Batcher)
        → is_returned p.phase ≡ false
        → Batcher.Step o steps now p.batcher b []
        → b.closed ≡ p.batcher.closed
        → p' ≡ record p { batcher = b }
        → Step p p' [] []
    -- case <-ctx.Done()
    signals : p.phase ≡ serving → p' ≡ record p { phase = shutting_down } → Step p p' [] []
    -- case err := <-errCh, which is not nil: Serve returns http.ErrServerClosed only after a Shutdown. Connections
    -- outlive a listener that failed.
    fails :
        (listened : Option ServerError) (served e : ServerError)
        → p.phase ≡ serving
        → listen_and_serve listened served ≡ some e
        → p' ≡ record p { phase = closing (some e); batcher = close p.batcher }
        → Step p p' [] []
    -- srv.Shutdown returns nil once no connection is active
    drains :
        p.phase ≡ shutting_down
        → p.handlers ≡ []
        → p' ≡ record p { phase = closing none; connected = false; batcher = close p.batcher }
        → Step p p' [] []
    -- srv.Shutdown returns the error of its context
    gives_up :
        (e : ServerError)
        → p.phase ≡ shutting_down
        → p' ≡ record p { phase = closing (some e); batcher = close p.batcher }
        → Step p p' [] []
    -- batcher.Close returns, and run with the deferred db.Close
    returns :
        (r : Option ServerError)
        → p.phase ≡ closing r
        → p.batcher.done ≡ true
        → p' ≡ record p { phase = returned r }
        → Step p p' [] []

  -- Any number of turns, with the spans of all requests taken, and those handed over, in order.
  pub data Runs (p : Process) : Process → List SpanWithProject → List SpanWithProject → Type 0 where
    start : Runs p p [] []
    then_ :
        {p' p'' : Process}
        {taken sent more_taken more_sent all_taken all_sent : List SpanWithProject}
        → Runs p p' taken sent
        → Step p' p'' more_taken more_sent
        → all_taken ≡ taken ++ more_taken
        → all_sent ≡ sent ++ more_sent
        → Runs p p'' all_taken all_sent
