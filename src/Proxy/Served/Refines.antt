-- ===== src/Proxy/Served/Refines.antt =====
-- handleWebSocket of internal/proxy/server.go: the sessions do not change how the
-- handlers share the slots.
use workspace_websocket_prox.Base.{
  ℕ, ◌≡◌, ◌∙◌, ◌≤◌, sym, ap, tally, tally-map, Bool, List, arith, map-replicate,
}
use workspace_websocket_prox.Base.Int.{ℤ, pos, int32, pos_part}
use workspace_websocket_prox.Proxy.Slots.{active_count}
use workspace_websocket_prox.Proxy.Connections.Counts.{holds}
use workspace_websocket_prox.Proxy.Connections.Capacity.{active_count-run}
use workspace_websocket_prox.Proxy.Connections as Connections
use workspace_websocket_prox.Base.Nested as Nested
use workspace_websocket_prox.Base.Nested.{stages}
use workspace_websocket_prox.Proxy.Connections.{new_server, handle_step, Connections}
use workspace_websocket_prox.Proxy.Served.{
  Handler, Turn, turn_step, succeeds, in_run, Served, arriving, start, run,
}

-- The handlers with their sessions do to the slots and the collectors of the Server what some
-- interleaving of the handlers of Connections does, in which a session is one step.
pub stages-run :
    (max : ℤ) (n : ℕ) (ts : List (ℕ × Turn))
    → (cs : List (ℕ × Bool)) × (stages (run (start max n) ts)
        ≡ Connections.run (Connections.start max n) cs)
unfolding run start Connections.run Connections.start
stages-run max n ts =
    let (cs, e) = Nested.stages-run handle_step turn_step succeeds in_run (start max n) ts in
    (
      cs,
      e
          ∙ ap (λ ps. Connections.run (record { shared = new_server max; threads = ps }) cs)
              (map-replicate (λ (h : Handler). h.stage) n arriving),
    )

-- How many handlers hold a slot.
abbrev pub held : Served → ℕ
held s = tally (λ h. holds h.stage) s.threads

-- So with any interleaving of the handlers and of all the goroutines of their sessions, ActiveCount
-- is the number of handlers that hold a slot, which never passes MaxConnections as NewSessionManager
-- stores it.
pub held-run :
    (max : ℤ) (n : ℕ) (ts : List (ℕ × Turn))
    → let s = run (start max n) ts in
      (active_count s.shared.session_manager ≡ pos (held s)) × (held s ≤ pos_part (int32 max))
held-run max n ts =
    let s = run (start max n) ts in
    let (cs, e) = stages-run max n ts in
    let (counts, within) = active_count-run max n cs in
    let c = Connections.run (Connections.start max n) cs in
    let h =
      sym (tally-map (λ (g : Handler). g.stage) holds s.threads)
      ∙ ap (λ (c : Connections). tally holds c.threads) e in
    (
      ap (λ (c : Connections). active_count c.shared.session_manager) e ∙ counts ∙ ap pos (sym h),
      omega (arith, within, h),
    )
