-- ===== src/Proxy/Connections/Examples.antt =====
-- Two requests at a server with one slot: the first is served, the second refused.
use workspace_websocket_prox.Base.{
  ℕ, ◌+◌, ◌≤◌, ◌≡◌, ◌↔◌, refl, Bool, true, List, [], ◌∷◌, arith, tally, replicate,
}
use workspace_websocket_prox.Base.Int.{◌≤ℤ◌, pos, int32, pos_part}
use workspace_websocket_prox.Proxy.Metrics.{capacity_exceeded, upgrade_failed}
use workspace_websocket_prox.Proxy.Slots.{
  new_session_manager, active_count, load_active, compare_and_swap, release, acquire,
}
use workspace_websocket_prox.Proxy.Slots.Acquire.{slots, acquire_lem, release-acquire}
use workspace_websocket_prox.Proxy.Connections.{
  loading, finished, refusing, served, refusal, handle_step, start, run,
}
use workspace_websocket_prox.Proxy.Connections.Counts.{holds, is_running}
use workspace_websocket_prox.Proxy.Connections.Capacity.{
  active_count-run, active_connections-run, loading-refusing, finished-counters, holds-overflow,
}
use workspace_websocket_prox.Proxy.Connections.Semaphore.{waiting, Reach}
use workspace_websocket_prox.Proxy.Connections.Refines.{guests, guests-run}
use Prim.Native.Nat.{◌^◌}
use mathlib.Core.Option.{some}

-- Both load the count before either swaps; the second has to load again.
abbrev contended : List (ℕ × Bool)
contended = (0, true) ∷ (1, true) ∷ (0, true) ∷ (1, true) ∷ (1, true) ∷ []

abbrev whole : List (ℕ × Bool)
whole =
    (0, true)
    ∷ (1, true)
    ∷ (0, true)
    ∷ (1, true)
    ∷ (1, true)
    ∷ (1, true)
    ∷ (0, true)
    ∷ (0, true)
    ∷ (0, true)
    ∷ (0, true)
    ∷ (0, true)
    ∷ []

whole_handlers : (run (start (pos 1) 2) whole).threads ≡ finished served ∷ finished refusal ∷ []
unfolding run start handle_step load_active compare_and_swap release new_session_manager int32
whole_handlers = refl

active_count-run_test :
    let s = run (start (pos 1) 2) contended in
    (active_count s.shared.session_manager ≡ pos (tally holds s.threads))
    × (tally holds s.threads ≤ pos_part (int32 (pos 1)))
active_count-run_test = active_count-run (pos 1) 2 contended

active_connections-run_test :
    let s = run (start (pos 1) 2) contended in
    (s.shared.metrics.active_connections ≡ pos (tally is_running s.threads))
    × (s.shared.metrics.active_connections ≤ℤ active_count s.shared.session_manager)
active_connections-run_test = active_connections-run (pos 1) 2 contended

loading-refusing_test :
    let s = run (start (pos 1) 2) contended in
    ((handle_step true s.shared loading).1 ≡ refusing)
    ↔ (tally holds s.threads ≡ pos_part (int32 (pos 1)))
loading-refusing_test = loading-refusing (pos 1) 2 contended true

finished-counters_example :
    let s = run (start (pos 1) 2) whole in
    (active_count s.shared.session_manager ≡ pos 0)
    × (s.shared.metrics.active_connections ≡ pos 0)
    × (s.shared.metrics.connections_total
          + s.shared.metrics.connection_errors capacity_exceeded
          + s.shared.metrics.connection_errors upgrade_failed
        ≡ 2)
unfolding run start handle_step load_active compare_and_swap release new_session_manager int32
finished-counters_example = finished-counters (pos 1) 2 whole (tt, (tt, tt))

holds-overflow_example : tally holds (run (start (pos (2 ^ 31)) 2) contended).threads ≡ 0
holds-overflow_example = holds-overflow (2 ^ 31) 2 contended (omega arith) (omega arith)

acquire_once : acquire 1 (slots (pos 3) 2) ≡ some (true, slots (pos 3) 3)
acquire_once = acquire_lem 0 2 (pos 3) (omega arith)

release_once : release (slots (pos 3) 3) ≡ slots (pos 3) 2
unfolding acquire load_active compare_and_swap int32
release_once = release-acquire 0 2 (pos 3) (omega arith) refl

guests-run_example :
    Reach (pos_part (int32 (pos 1))) (replicate 2 waiting) (guests (run (start (pos 1) 2) whole))
guests-run_example = guests-run (pos 1) 2 whole
