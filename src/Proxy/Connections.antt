-- ===== src/Proxy/Connections.antt =====
-- internal/proxy/server.go, handleWebSocket: the handlers of all connections over one Server, as an
-- interleaving of their accesses to the slot counter and the collectors. What is private to a
-- handler (the upgrade, the session it runs) is an answer that the schedule supplies.
pub mod Counts
pub mod Capacity
pub mod Semaphore
pub mod Refines
mod Examples
use workspace_websocket_prox.Base.{
  ℕ, Bool, true, false, Option, none, some, List, [], ◌∷◌, get_elem?, set, replicate,
}
use workspace_websocket_prox.Base.Threads
use workspace_websocket_prox.Base.Threads.{System}
use workspace_websocket_prox.Base.Text.{Text, codes}
use workspace_websocket_prox.Base.Int.{ℤ, pos, negsuc}
use workspace_websocket_prox.Proxy.Metrics.{
  Metrics, new_metrics, inc_error, inc_total, add_active, capacity_exceeded, upgrade_failed,
}
use workspace_websocket_prox.Proxy.Slots.{
  SessionManager, new_session_manager, load_active, compare_and_swap, release,
}

abbrev pub capacity_retry_after_seconds : Text
capacity_retry_after_seconds = codes "5"

-- What a client sees: the plain HTTP reply of a refusal, the upgrader's own error reply, or a
-- WebSocket that was served to its end.
pub data Outcome : Type 0 where
  too_many_requests : (status : ℕ) (retry_after : Text) → Outcome
  bad_upgrade : Outcome
  served : Outcome

abbrev pub refusal : Outcome
refusal = too_many_requests 429 capacity_retry_after_seconds

-- Where a handler stands between two accesses to shared state.
pub data Stage : Type 0 where
  loading : Stage  -- at the head of Acquire's loop
  swapping : (current : ℤ) → Stage  -- before the compare-and-swap
  refusing : Stage  -- Acquire has returned false
  upgrading : Stage  -- Acquire has returned true
  established : Stage  -- before ConnectionsTotal.Inc
  totalled : Stage  -- before ActiveConnections.Inc
  running : Stage  -- in session.Run
  releasing : Outcome → Stage  -- before the deferred Release
  finished : Outcome → Stage

pub record Server : Type 0 where
  pub session_manager : SessionManager
  pub metrics : Metrics

abbrev pub new_server : ℤ → Server
new_server max = record { session_manager = new_session_manager max; metrics = new_metrics }

abbrev swapped : Option SessionManager → Server → Server × Stage
swapped none s = (s, loading)
swapped (some sm) s = (record s { session_manager = sm }, upgrading)

abbrev loaded : Option ℤ → Stage
loaded none = refusing
loaded (some current) = swapping current

-- One access of one handler. The answer says whether the upgrade succeeds.
unfoldable pub handle_step : Bool → Server → Stage → Server × Stage
handle_step ok s loading = (s, loaded (load_active s.session_manager))
handle_step ok s (swapping current) = swapped (compare_and_swap s.session_manager current) s
handle_step ok s refusing =
    (record s { metrics = inc_error capacity_exceeded s.metrics }, finished refusal)
handle_step true s upgrading = (s, established)
handle_step false s upgrading =
    (record s { metrics = inc_error upgrade_failed s.metrics }, releasing bad_upgrade)
handle_step ok s established = (record s { metrics = inc_total s.metrics }, totalled)
handle_step ok s totalled = (record s { metrics = add_active (pos 1) s.metrics }, running)
handle_step ok s running =
    (record s { metrics = add_active (negsuc 0) s.metrics }, releasing served)
handle_step ok s (releasing o) =
    (record s { session_manager = release s.session_manager }, finished o)
handle_step ok s (finished o) = (s, finished o)

abbrev pub Connections : Type 0
Connections = System Server Stage

-- `n` requests arrive at a new server.
unfoldable pub start : ℤ → ℕ → Connections
start max n = record { shared = new_server max; threads = replicate n loading }

-- The accesses that a schedule names, one after the other.
unfoldable pub run : Connections → List (ℕ × Bool) → Connections
unfolding Threads.run
run = Threads.run handle_step
