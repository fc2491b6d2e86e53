-- ===== src/Proxy/Connections/Capacity.antt =====
-- What the limit on connections guarantees, under every interleaving of the handlers.
use workspace_websocket_prox.Base.{
  ℕ, ◌+◌, ◌≤◌, ◌<◌, ◌≡◌, ◌^◌, ◌↔◌, ◌∙◌, refl, ap, Bool, List, arith, All, All-imp, length-replicate,
  tally, tally-All_zero, tally_mono, tally-share,
}
use workspace_websocket_prox.Base.Int.{ℤ, ◌≤ℤ◌, pos, pos_part, int32, int32-negative}
use workspace_websocket_prox.Base.Threads.{length-run}
use workspace_websocket_prox.Proxy.Metrics.{capacity_exceeded, upgrade_failed}
use workspace_websocket_prox.Proxy.Slots.{active_count, load_active}
use workspace_websocket_prox.Proxy.Connections.{
  Stage, too_many_requests, bad_upgrade, served, loading, refusing, finished, handle_step, start,
  run,
}
use workspace_websocket_prox.Proxy.Connections.Counts.{
  holds, is_running, was_established, was_refused, was_failed, reached-Inv,
}

-- Whatever the order of accesses, ActiveCount is the number of handlers that hold a slot, and that
-- number never passes MaxConnections as NewSessionManager stores it (0 where that is negative).
pub active_count-run :
    (max : ℤ) (n : ℕ) (cs : List (ℕ × Bool))
    → let s = run (start max n) cs in
      (active_count s.shared.session_manager ≡ pos (tally holds s.threads))
      × (tally holds s.threads ≤ pos_part (int32 max))
unfolding active_count
active_count-run max n cs = (v.active, v.within)
  where
    open (reached-Inv max n cs) use {shows as v}

running-le-holds : (p : Stage) → is_running p ≤ holds p
running-le-holds Stage.running = omega arith
running-le-holds _ = omega arith

-- The gauge ws_proxy_active_connections is the number of handlers in session.Run, and is never
-- above ActiveCount.
pub active_connections-run :
    (max : ℤ) (n : ℕ) (cs : List (ℕ × Bool))
    → let s = run (start max n) cs in
      (s.shared.metrics.active_connections ≡ pos (tally is_running s.threads))
      × (s.shared.metrics.active_connections ≤ℤ active_count s.shared.session_manager)
unfolding active_count
active_connections-run max n cs =
    let s = run (start max n) cs in
    (
      v.gauge,
      rw (v.gauge, v.active)
          (omega (arith, tally_mono is_running holds s.threads running-le-holds)),
    )
  where
    open (reached-Inv max n cs) use {shows as v}

-- A handler at the head of Acquire's loop is refused exactly when every slot is held.
pub loading-refusing :
    (max : ℤ) (n : ℕ) (cs : List (ℕ × Bool)) (ok : Bool)
    → let s = run (start max n) cs in
      ((handle_step ok s.shared loading).1 ≡ refusing)
      ↔ (tally holds s.threads ≡ pos_part (int32 max))
unfolding handle_step load_active
loading-refusing max n cs ok =
    let v = (reached-Inv max n cs).shows in (λ h. ground arith, λ h. ground arith)

abbrev pub IsFinished : Stage → Type 0
IsFinished (finished o) = Unit {0}
IsFinished _ = ⊥

finished-counts :
    (p : Stage)
    → IsFinished p
    → (was_established p + was_refused p + was_failed p ≡ 1) × (holds p ≡ 0) × (is_running p ≡ 0)
finished-counts (finished served) h = (refl, refl, refl)
finished-counts (finished bad_upgrade) h = (refl, refl, refl)
finished-counts (finished (too_many_requests _ _)) h = (refl, refl, refl)
finished-counts loading h = absurd h
finished-counts _ h = absurd h

-- When every handler has returned, no slot is held, the gauge is back at 0, and each request is
-- counted in exactly one of connections_total, capacity_exceeded and upgrade_failed.
pub finished-counters :
    (max : ℤ) (n : ℕ) (cs : List (ℕ × Bool))
    → let s = run (start max n) cs in
      All IsFinished s.threads
      → (active_count s.shared.session_manager ≡ pos 0)
        × (s.shared.metrics.active_connections ≡ pos 0)
        × (s.shared.metrics.connections_total
              + s.shared.metrics.connection_errors capacity_exceeded
              + s.shared.metrics.connection_errors upgrade_failed
            ≡ n)
unfolding active_count start run
finished-counters max n cs all =
    let s = run (start max n) cs in
    let shared = All-imp IsFinished _ s.threads (λ p h. (finished-counts p h).0) all in
    let idle = All-imp IsFinished _ s.threads (λ p h. (finished-counts p h).1) all in
    let quiet = All-imp IsFinished _ s.threads (λ p h. (finished-counts p h).2) all in
    (
      v.active ∙ ap pos (tally-All_zero holds s.threads idle),
      v.gauge ∙ ap pos (tally-All_zero is_running s.threads quiet),
      omega (
        arith,
        v.total,
        v.refused,
        v.failed,
        tally-share was_established was_refused was_failed s.threads shared,
        length-run handle_step (start max n) cs,
        length-replicate n loading,
      ),
    )
  where
    open (reached-Inv max n cs) use {shows as v}

-- MAX_CONNECTIONS is converted to an int32 unchecked: from 2^31 up to 2^32 - 1 no request ever
-- gets a slot.
pub holds-overflow :
    (max n : ℕ) (cs : List (ℕ × Bool))
    → 2 ^ 31 ≤ max
    → max < 2 ^ 32
    → tally holds (run (start (pos max) n) cs).threads ≡ 0
holds-overflow max n cs low high =
    omega (arith, (active_count-run (pos max) n cs).1, int32-negative max low high)
