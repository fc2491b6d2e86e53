-- ===== src/Proxy/Site.antt =====
-- internal/proxy/server.go: the HTTP server of the proxy. Requests go where NewServer's routes send
-- them, while the handlers of earlier requests, their sessions and the prober go on. What ServeMux
-- makes of the routes is a parameter.
pub mod Routes
pub mod Counted
pub mod Answers
mod Examples
use workspace_websocket_prox.Base.{ℕ, Bool, true, false, Option, none, some, List, [], ◌∷◌, ◌++◌}
use workspace_websocket_prox.Base.Int.{ℤ}
use workspace_websocket_prox.Base.Text.{Text, codes}
use workspace_websocket_prox.Base.Threads
use workspace_websocket_prox.Proxy.Health.{
  TargetHealth, new_target_health, Probe, State, probe_once,
}
use workspace_websocket_prox.Proxy.Serving.{Response, handle_health}
use workspace_websocket_prox.Proxy.Pages.{Fmt, target_page}
use workspace_websocket_prox.Proxy.Connections.{Server}
use workspace_websocket_prox.Proxy.Served.{Turn, Served, handler_step, arriving, start}

-- What is registered with the mux: handleHealth, handleTargetHealth, promhttp's handler and
-- handleWebSocket.
pub data Page : Type 0 where
  health target_health metrics web_socket : Page

abbrev pub health_path : Text
health_path = codes "/health"

abbrev pub target_health_path : Text
target_health_path = codes "/health/target"

abbrev pub metrics_path : Text
metrics_path = codes "/metrics"

-- The patterns that NewServer registers.
unfoldable pub routes : List (Text × Page)
routes =
    (health_path, health)
    ∷ (target_health_path, target_health)
    ∷ (metrics_path, metrics)
    ∷ (codes "/", web_socket)
    ∷ []

-- The handler that ServeMux chooses among the patterns for a path, if it does not reply itself.
abbrev pub Mux : Type 0
Mux = List (Text × Page) → Text → Option Page

pub record Site : Type 0 where
  pub served : Served
  pub target_health : TargetHealth

-- NewServer, before any request.
unfoldable pub new_site : ℤ → Site
unfolding start new_target_health
new_site max = record { served = start max 0; target_health = new_target_health }

-- A handler of its own is started for each WebSocket.
abbrev pub joined : Served → Served
joined s = record s { threads = s.threads ++ arriving ∷ [] }

abbrev pub turned : ℕ → Turn → Site → Site
turned i a s = record s { served = Threads.step handler_step s.served (i, a) }

-- A probe writes the result and the gauge.
abbrev pub probed : Text → Probe → Site → Site
probed prefix' p s =
    let r =
      probe_once prefix' p
        (record { target_health = s.target_health; metrics = s.served.shared.metrics }) in
    record s {
      target_health = r.target_health;
      served = record s.served { shared = record s.served.shared { metrics = r.metrics } };
    }

pub data Event : Type 0 where
  requests : (path : Text) → Event
  turns : (i : ℕ) (a : Turn) → Event
  probes : (p : Probe) → Event

module _ (mux : Mux) (fmt : Fmt) (target prefix' : Text) where
  -- What a request does to the state, and its response where the server writes that at once; the
  -- page of promhttp and the replies of the mux are theirs.
  abbrev pub answered : Option Page → Site → Site × Option Response
  answered (some health) s = (s, some (handle_health s.served.shared.session_manager))
  answered (some target_health) s = (s, some (target_page fmt target s.target_health))
  answered (some web_socket) s = (record s { served = joined s.served }, none)
  answered _ s = (s, none)

  unfoldable pub serve : Text → Site → Site × Option Response
  unfolding routes handle_health target_page
  serve path s = answered (mux routes path) s

  unfoldable pub step : Site → Event → Site
  unfolding serve Threads.step probe_once
  step s (requests path) = (serve path s).0
  step s (turns i a) = turned i a s
  step s (probes p) = probed prefix' p s

  unfoldable pub run : Site → List Event → Site
  run s [] = s
  run s (e ∷ es) = run (step s e) es
