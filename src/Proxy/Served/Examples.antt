-- ===== src/Proxy/Served/Examples.antt =====
-- handleWebSocket of internal/proxy/server.go with the session that it runs: two handlers for one
-- slot.
use workspace_websocket_prox.Base.{
  ◌≡◌, ◌≤◌, ℕ, suc, refl, Bool, true, some, List, [], ◌∷◌, ◌++◌, map, get_elem?, replicate,
}
use workspace_websocket_prox.Base.Int.{pos, int32, pos_part}
use workspace_websocket_prox.Base.Nested.{stages}
use workspace_websocket_prox.Proxy.Slots.{
  active_count, load_active, new_session_manager, compare_and_swap,
}
use workspace_websocket_prox.Proxy.Session as Session
use workspace_websocket_prox.Proxy.Session.{new_session}
use workspace_websocket_prox.Proxy.Connections as Connections
use workspace_websocket_prox.Proxy.Connections.{running, finished, refusal, served}
use workspace_websocket_prox.Proxy.Served.{Handler, Turn, start, run}
use workspace_websocket_prox.Proxy.Served.Refines.{held, stages-run, held-run}
use workspace_websocket_prox.Proxy.Served.Released.{to_finish, held-to_finish}

abbrev go : Session.Action → Turn
go a = record { ok = true; action = a }

abbrev first : ℕ × Turn
first = (0, go (Session.main_moves true))

abbrev second : ℕ × Turn
second = (1, go (Session.main_moves true))

-- The first handler takes the slot and dials, the second is refused.
abbrev turns : List (ℕ × Turn)
turns = replicate 5 first ++ second ∷ second ∷ first ∷ []

stages-run_test :
    (cs : List (ℕ × Bool)) × (stages (run (start (pos 1) 2) turns)
      ≡ Connections.run (Connections.start (pos 1) 2) cs)
stages-run_test = stages-run (pos 1) 2 turns

held-run_example :
    let s = run (start (pos 1) 2) turns in
    (active_count s.shared.session_manager ≡ pos (held s)) × (held s ≤ pos_part (int32 (pos 1)))
held-run_example = held-run (pos 1) 2 turns

abbrev handler : Handler
handler = record { stage = running; session = Session.step new_session (Session.main_moves true) }

held-to_finish_example :
    let s = run (start (pos 1) 2) turns in
    let s' = run s (map (λ a. (0, a)) to_finish) in
    (h' : Handler) × (get_elem? s'.threads 0 ≡ some h')
    × (h'.stage ≡ finished served)
    × (suc (held s') ≡ held s)
unfolding run start Connections.handle_step Session.step new_session load_active new_session_manager
    int32 compare_and_swap
held-to_finish_example = held-to_finish (pos 1) 2 turns 0 handler refl refl
