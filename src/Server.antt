-- ===== src/Server.antt =====
-- internal/server/server.go: what the server returns. Its log lines are left out.
pub mod Mux
pub mod Routes
use tracewell.Prelude.{ℕ, Bool, true, false, Option, none, some, if◌then◌else◌}

-- http.ErrServerClosed, and the other errors, told apart by a number.
pub data ServerError : Type 0 where
  server_closed : ServerError
  failure : ℕ → ServerError

-- errors.Is(err, http.ErrServerClosed)
unfoldable pub is_server_closed : ServerError → Bool
is_server_closed server_closed = true
is_server_closed (failure n) = false

-- ListenAndServe, from the error of net.Listen, if any, and that of Serve, which is never nil
unfoldable pub listen_and_serve : Option ServerError → ServerError → Option ServerError
unfolding is_server_closed
listen_and_serve (some e) served = some e
listen_and_serve none served = if is_server_closed served then none else some served
