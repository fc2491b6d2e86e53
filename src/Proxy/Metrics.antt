-- ===== src/Proxy/Metrics.antt =====
-- internal/proxy/metrics.go: the collectors as numbers. A counter vector is a function from its
-- label; a gauge is an integer; the histogram is the list of what was observed, newest first.
use workspace_websocket_prox.Base.{ℕ, suc, ◌+◌, Bool, true, false, List, [], if◌then◌else◌}
use workspace_websocket_prox.Base.Int.{ℤ, pos, ◌+ℤ◌}

-- The values of the label `reason`.
pub data Reason : Type 0 where
  capacity_exceeded upgrade_failed tcp_dial_failed max_duration ping_failed : Reason

-- The values of the label `direction`.
pub data Direction : Type 0 where
  ws_to_tcp tcp_to_ws : Direction

abbrev pub same_reason : Reason → Reason → Bool
same_reason capacity_exceeded capacity_exceeded = true
same_reason upgrade_failed upgrade_failed = true
same_reason tcp_dial_failed tcp_dial_failed = true
same_reason max_duration max_duration = true
same_reason ping_failed ping_failed = true
same_reason _ _ = false

abbrev pub same_direction : Direction → Direction → Bool
same_direction ws_to_tcp ws_to_tcp = true
same_direction tcp_to_ws tcp_to_ws = true
same_direction _ _ = false

pub record Metrics : Type 0 where
  pub connections_total : ℕ
  pub active_connections : ℤ
  pub connection_errors : Reason → ℕ
  pub bytes_transferred : Direction → ℕ
  pub connection_duration : List ℕ
  pub target_reachable : ℤ

abbrev pub new_metrics : Metrics
new_metrics = record {
  connections_total = 0;
  active_connections = pos 0;
  connection_errors = λ _. 0;
  bytes_transferred = λ _. 0;
  connection_duration = [];
  target_reachable = pos 0;
}

-- `ConnectionErrors.WithLabelValues(reason).Inc()`
abbrev pub inc_error : Reason → Metrics → Metrics
inc_error r m = record m {
  connection_errors =
      λ q. if same_reason r q then suc (m.connection_errors q) else m.connection_errors q;
}

-- `BytesTransferred.WithLabelValues(direction).Add(n)`
abbrev pub add_bytes : Direction → ℕ → Metrics → Metrics
add_bytes d n m = record m {
  bytes_transferred =
      λ q. if same_direction d q then m.bytes_transferred q + n else m.bytes_transferred q;
}

abbrev pub inc_total : Metrics → Metrics
inc_total m = record m { connections_total = suc m.connections_total }

-- `ActiveConnections.Inc()` and `Dec()`, the latter with -1.
abbrev pub add_active : ℤ → Metrics → Metrics
add_active d m = record m { active_connections = m.active_connections +ℤ d }
