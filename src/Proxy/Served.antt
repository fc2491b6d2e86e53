-- ===== src/Proxy/Served.antt =====
-- internal/proxy/server.go, handleWebSocket with the session that it runs: the handlers of
-- Connections, each with the goroutines of its own session.Run of internal/proxy/session.go.
pub mod Refines
pub mod Released
mod Examples
use workspace_websocket_prox.Base.{ℕ, Bool, true, false, not, List, [], ◌∷◌, replicate}
use workspace_websocket_prox.Base.Threads
use workspace_websocket_prox.Base.Threads.{System}
use workspace_websocket_prox.Base.Nested.{Host, nested}
use workspace_websocket_prox.Base.Int.{ℤ}
use workspace_websocket_prox.Proxy.Session as Session
use workspace_websocket_prox.Proxy.Session.{Session, new_session, returned}
use workspace_websocket_prox.Proxy.Connections.{
  Server, new_server, Stage, loading, running, handle_step,
}

-- A handler with its session.
abbrev pub Handler : Type 0
Handler = Host Stage Session

-- A turn of a handler: whether its next call succeeds, or what one of the goroutines of its session
-- does.
pub record Turn : Type 0 where
  pub ok : Bool
  pub action : Session.Action

abbrev pub turn_step : Turn → Session → Session
turn_step a t = Session.step t a.action

abbrev pub has_returned : Session.Main → Bool
has_returned (returned e) = true
has_returned _ = false

-- In session.Run, until that has returned.
abbrev pub in_run : Stage → Session → Bool
in_run running t = not (has_returned t.main)
in_run _ t = false

abbrev pub succeeds : Turn → Bool
succeeds a = a.ok

-- The next access of a handler, or in session.Run a step of its session.
abbrev pub handler_step : Turn → Server → Handler → Server × Handler
handler_step = nested handle_step turn_step succeeds in_run

abbrev pub Served : Type 0
Served = System Server Handler

abbrev pub arriving : Handler
arriving = record { stage = loading; session = new_session }

unfoldable pub start : ℤ → ℕ → Served
start max n = record { shared = new_server max; threads = replicate n arriving }

unfoldable pub run : Served → List (ℕ × Turn) → Served
unfolding Threads.run
run = Threads.run handler_step
