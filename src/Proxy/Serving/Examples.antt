-- ===== src/Proxy/Serving/Examples.antt =====
-- The proxy's process: a signal that arrives before the serving goroutine has run, and a health check.
use workspace_websocket_prox.Base.{ℕ, ◌≡◌, refl, Bool, true, none, some, List, [], ◌∷◌, ◌++◌, tally}
use workspace_websocket_prox.Base.Int.{pos, int32}
use workspace_websocket_prox.Base.Text.{Text, codes, itoa}
use workspace_websocket_prox.Base.Text.Parse.{atoi}
use workspace_websocket_prox.Proxy.Config.{Config, ok}
use workspace_websocket_prox.Proxy.Slots.{
  new_session_manager, active_count, load_active, compare_and_swap, release,
}
use workspace_websocket_prox.Proxy.Connections
use workspace_websocket_prox.Proxy.Connections.{start, handle_step}
use workspace_websocket_prox.Proxy.Connections.Counts.{holds}
use workspace_websocket_prox.Proxy.Health.Prober.{
  new_prober, start_target_prober, stop_target_prober, stopper_step, loop_step,
}
use workspace_websocket_prox.Proxy.Serving.{
  exited, new_proxy, handle_health, health_body, server_closed, Action, serving_moves,
  signal_arrives, shutdown_moves, step, run, serving_step, on_signal, on_error, shutdown_step,
}
use workspace_websocket_prox.Proxy.Serving.Active.{handle_health-run}
use workspace_websocket_prox.Proxy.Serving.Stopped.{IsOrderly, run-IsOrderly}

abbrev early_signal : List Action
early_signal =
    signal_arrives
    ∷ shutdown_moves none
    ∷ serving_moves none
    ∷ shutdown_moves none
    ∷ shutdown_moves none
    ∷ serving_moves (some server_closed)
    ∷ shutdown_moves none
    ∷ []

abbrev config : Config
config = record {
  listen_addr = codes ":8080";
  target_host = codes "127.0.0.1";
  target_port = pos 2222;
  max_session_duration = pos 10;
  ping_interval = pos 3;
  ping_timeout = pos 6;
  max_connections = pos 1;
  read_limit = pos 65536;
  revalidation_interval = pos 5;
  revalidation_endpoint = [];
  target_health_banner_prefix = [];
  target_health_interval = pos 5;
}

early_exit :
    let s = run (new_proxy (ok config)) early_signal in (s.main ≡ exited 0) × (s.prober.spawned ≡ 0)
unfolding run step new_proxy serving_step on_signal on_error shutdown_step start_target_prober
    stop_target_prober stopper_step loop_step new_prober
early_exit = (refl, refl)

run-IsOrderly_example : IsOrderly (run (new_proxy (ok config)) early_signal)
run-IsOrderly_example = run-IsOrderly (ok config) early_signal

-- One handler has its slot.
abbrev admitted : List (ℕ × Bool)
admitted = (0, true) ∷ (0, true) ∷ []

admitted_body :
    (handle_health (Connections.run (start (pos 3) 1) admitted).shared.session_manager).body
    ≡ codes "{\"status\":\"ok\",\"activeConnections\":1}"
unfolding handle_health Connections.run start handle_step load_active compare_and_swap release
    new_session_manager int32 active_count itoa
admitted_body = refl

handle_health-run_test :
    let s = Connections.run (start (pos 3) 1) admitted in
    (digits : Text) × ((handle_health s.shared.session_manager).body
      ≡ health_body ++ digits ++ codes "}")
    × (atoi digits ≡ some (pos (tally holds s.threads)))
handle_health-run_test = handle_health-run (pos 3) 1 admitted
