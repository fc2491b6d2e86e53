-- ===== src/Proxy/Serving.antt =====
-- cmd/ws-proxy/main.go, and ListenAndServe, Shutdown and handleHealth of internal/proxy/server.go:
-- the life of the proxy's process, as an interleaving of main, the goroutine that serves and the
-- prober.
pub mod Active
pub mod Stopped
mod Examples
use workspace_websocket_prox.Base.{
  ℕ, Bool, true, false, Option, none, some, List, [], ◌∷◌, ◌++◌, if◌then◌else◌,
}
use workspace_websocket_prox.Base.Text.{Text, codes, decimal_text}
use workspace_websocket_prox.Proxy.Config.{Config, Result, ok, err}
use workspace_websocket_prox.Proxy.Slots.{SessionManager, active_count}
use workspace_websocket_prox.Proxy.Health.Prober.{
  Prober, Stopper, returned, cancelling, waiting, not_called, new_prober, start_target_prober,
  stop_target_prober, stopper_step, loop_step,
}

pub record Response : Type 0 where
  pub status : ℕ
  pub content_type : Text
  pub body : Text

abbrev pub health_body : Text
health_body = codes "{\"status\":\"ok\",\"activeConnections\":"

unfoldable pub handle_health : SessionManager → Response
unfolding active_count
handle_health sm = record {
  status = 200;
  content_type = codes "application/json";
  body = health_body ++ decimal_text (active_count sm) ++ codes "}";
}

-- The errors of http.Server's ListenAndServe and Shutdown that main tells apart.
pub data ServeError : Type 0 where
  server_closed other : ServeError

-- The goroutine of main that serves: before ListenAndServe, in the HTTP server's own, and past the
-- close of errCh, and whether it has sent an error there.
pub data Serving : Type 0 where
  unstarted listening : Serving
  ended : (failed : Bool) → Serving

-- main: at its select, in stopTargetProber and in the HTTP server's Shutdown, both called by
-- Server.Shutdown, and at the end, with the exit status.
pub data Main : Type 0 where
  selecting stopping draining : Main
  exited : (status : ℕ) → Main

pub record Proxy : Type 0 where
  pub prober : Prober
  pub serving : Serving
  pub main : Main

abbrev loaded : Result Config → Main
loaded (ok c) = selecting
loaded (err e) = exited 1

-- main up to its select, from what LoadConfig returns.
unfoldable pub new_proxy : Result Config → Proxy
unfolding new_prober
new_proxy r = record { prober = new_prober; serving = unstarted; main = loaded r }

abbrev is_failure : Option ServeError → Bool
is_failure (some other) = true
is_failure _ = false

-- The serving goroutine, with what the HTTP server's ListenAndServe returns.
unfoldable pub serving_step : Serving → Option ServeError → Proxy → Proxy
unfolding start_target_prober
serving_step unstarted e s = record s { prober = start_target_prober s.prober; serving = listening }
serving_step listening e s = record s { serving = ended (is_failure e) }
serving_step (ended failed) e s = s

-- The cases of main's select: the signal, which calls Shutdown, and errCh.
unfoldable pub on_signal : Main → Proxy → Proxy
unfolding stop_target_prober
on_signal selecting s = record s { prober = stop_target_prober s.prober; main = stopping }
on_signal _ s = s

unfoldable pub on_error : Main → Serving → Proxy → Proxy
on_error selecting (ended true) s = record s { main = exited 1 }
on_error selecting (ended false) s = record s { main = exited 0 }
on_error _ _ s = s

abbrev stop_on : Stopper → Proxy → Proxy
stop_on returned s = record s { main = draining }
stop_on t s = record s { prober = stopper_step t s.prober }

abbrev drained : Option ServeError → ℕ
drained none = 0
drained (some e) = 1

-- Server.Shutdown called by main, with what the HTTP server's Shutdown returns.
unfoldable pub shutdown_step : Main → Option ServeError → Proxy → Proxy
unfolding stopper_step
shutdown_step stopping e s = stop_on s.prober.stopper s
shutdown_step draining e s = record s { main = exited (drained e) }
shutdown_step _ e s = s

pub data Action : Type 0 where
  serving_moves : (e : Option ServeError) → Action
  signal_arrives error_arrives : Action
  shutdown_moves : (e : Option ServeError) → Action
  prober_moves : (tick : Bool) → Action

-- Whether the process is still there.
abbrev is_up : Main → Bool
is_up (exited status) = false
is_up _ = true

abbrev pub moved : Proxy → Action → Proxy
moved s (serving_moves e) = serving_step s.serving e s
moved s signal_arrives = on_signal s.main s
moved s error_arrives = on_error s.main s.serving s
moved s (shutdown_moves e) = shutdown_step s.main e s
moved s (prober_moves tick) = record s { prober = loop_step s.prober.loop tick s.prober }

unfoldable pub step : Proxy → Action → Proxy
unfolding serving_step on_signal on_error shutdown_step loop_step
step s a = if is_up s.main then moved s a else s

unfoldable pub run : Proxy → List Action → Proxy
run s [] = s
run s (a ∷ as') = run (step s a) as'
