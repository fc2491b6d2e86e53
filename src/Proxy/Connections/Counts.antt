-- ===== src/Proxy/Connections/Counts.antt =====
-- What the shared counters say about the handlers, kept by every access.
use workspace_websocket_prox.Base.{
  ℕ, ◌+◌, ◌^◌, ◌≤◌, ◌<◌, ◌≡◌, refl, Bool, true, false, List, arith, some, get_elem?, All, All-set,
  All-get_elem?, All-replicate, tally, tally-set, tally-ge, tally-replicate,
}
use workspace_websocket_prox.Base.Int.{
  ℤ, ◌<ℤ◌, pos, pos_part, int32, int32-succ, int32-pred, int32-lt,
}
use workspace_websocket_prox.Base.Threads.{accessed, run_inv}
use workspace_websocket_prox.Proxy.Metrics.{capacity_exceeded, upgrade_failed}
use workspace_websocket_prox.Proxy.Slots.{
  new_session_manager, load_active, compare_and_swap, release,
}
use workspace_websocket_prox.Proxy.Connections.{
  Connections, Outcome, too_many_requests, bad_upgrade, served, Stage, loading, swapping, upgrading,
  established, totalled, running, releasing, finished, Server, handle_step, start, run,
}

-- A handler holds a slot from its successful compare-and-swap to its Release.
abbrev pub holds : Stage → ℕ
holds upgrading = 1
holds established = 1
holds totalled = 1
holds running = 1
holds (releasing _) = 1
holds _ = 0

abbrev pub is_running : Stage → ℕ
is_running running = 1
is_running _ = 0

abbrev outcome_served : Outcome → ℕ
outcome_served served = 1
outcome_served _ = 0

abbrev outcome_refused : Outcome → ℕ
outcome_refused (too_many_requests _ _) = 1
outcome_refused _ = 0

abbrev outcome_failed : Outcome → ℕ
outcome_failed bad_upgrade = 1
outcome_failed _ = 0

-- Handlers whose connection was established, refused, or not upgraded.
abbrev pub was_established : Stage → ℕ
was_established totalled = 1
was_established running = 1
was_established (releasing o) = outcome_served o
was_established (finished o) = outcome_served o
was_established _ = 0

abbrev pub was_refused : Stage → ℕ
was_refused (releasing o) = outcome_refused o
was_refused (finished o) = outcome_refused o
was_refused _ = 0

abbrev pub was_failed : Stage → ℕ
was_failed (releasing o) = outcome_failed o
was_failed (finished o) = outcome_failed o
was_failed _ = 0

-- The counters of a server with the limit `cap`, at given counts of handlers.
pub record Shows (cap : ℤ) (s : Server) (held run est ref bad : ℕ) : Type 0 where
  pub limit : s.session_manager.max_connections ≡ cap
  pub active : s.session_manager.active ≡ pos held
  pub within : held ≤ pos_part cap
  pub gauge : s.metrics.active_connections ≡ pos run
  pub total : s.metrics.connections_total ≡ est
  pub refused : s.metrics.connection_errors capacity_exceeded ≡ ref
  pub failed : s.metrics.connection_errors upgrade_failed ≡ bad

-- A count that a handler is about to swap was read below the limit.
abbrev pub IsReady : ℤ → Stage → Type 0
IsReady cap (swapping current) = current <ℤ cap
IsReady cap _ = Unit {0}

pub record Inv (cap : ℤ) (s : Connections) : Type 0 where
  pub shows :
      Shows cap s.shared
        (tally holds s.threads)
        (tally is_running s.threads)
        (tally was_established s.threads)
        (tally was_refused s.threads)
        (tally was_failed s.threads)
  pub ready : All (IsReady cap) s.threads

module _ (cap : ℤ) (small : pos_part cap < 2 ^ 31) where
  -- One access moves the counters as it moves the counts.
  handle_step-Shows :
      (ok : Bool) (s : Server) (p : Stage) (h r e f b h' r' e' f' b' : ℕ)
      → Shows cap s h r e f b
      → IsReady cap p
      → holds p ≤ h
      → is_running p ≤ r
      → let q = (handle_step ok s p).1 in
        h' + holds p ≡ h + holds q
        → r' + is_running p ≡ r + is_running q
        → e' + was_established p ≡ e + was_established q
        → f' + was_refused p ≡ f + was_refused q
        → b' + was_failed p ≡ b + was_failed q
        → Shows cap (handle_step ok s p).0 h' r' e' f' b'
  unfolding handle_step load_active compare_and_swap release
  handle_step-Shows ok s loading h r e f b h' r' e' f' b' v rd hp rp dh dr de df db = ground arith
  handle_step-Shows ok s (swapping c) h r e f b h' r' e' f' b' v rd hp rp dh dr de df db =
      ground (arith, int32-succ h)
  handle_step-Shows true s upgrading h r e f b h' r' e' f' b' v rd hp rp dh dr de df db =
      ground arith
  handle_step-Shows false s upgrading h r e f b h' r' e' f' b' v rd hp rp dh dr de df db =
      ground arith
  handle_step-Shows ok s (releasing o) h r e f b h' r' e' f' b' v rd hp rp dh dr de df db =
      ground (arith, int32-pred h)
  handle_step-Shows ok s _ h r e f b h' r' e' f' b' v rd hp rp dh dr de df db = ground arith

  handle_step-IsReady :
      (ok : Bool) (s : Server) (p : Stage)
      → s.session_manager.max_connections ≡ cap
      → IsReady cap (handle_step ok s p).1
  unfolding handle_step load_active compare_and_swap
  handle_step-IsReady ok s loading e = ground arith
  handle_step-IsReady ok s (swapping c) e = ground arith
  handle_step-IsReady true s upgrading e = tt
  handle_step-IsReady false s upgrading e = tt
  handle_step-IsReady ok s _ e = tt

  pub access-Inv :
      (s : Connections) (i : ℕ) (ok : Bool) (p : Stage)
      → get_elem? s.threads i ≡ some p
      → Inv cap s
      → Inv cap (accessed handle_step s i ok p)
  access-Inv s i ok p e v =
      let q = (handle_step ok s.shared p).1 in
      record {
        shows =
            handle_step-Shows ok s.shared p _ _ _ _ _ _ _ _ _ _ v.shows
              (All-get_elem? (IsReady cap) s.threads i v.ready e) (tally-ge holds s.threads i p e)
              (tally-ge is_running s.threads i p e) (tally-set holds s.threads i p q e)
              (tally-set is_running s.threads i p q e) (tally-set was_established s.threads i p q e)
              (tally-set was_refused s.threads i p q e) (tally-set was_failed s.threads i p q e);
        ready =
            All-set (IsReady cap) s.threads i q v.ready
              (handle_step-IsReady ok s.shared p v.shows.limit);
      }

pub start-Inv : (max : ℤ) (n : ℕ) → Inv (int32 max) (start max n)
unfolding start new_session_manager
start-Inv max n = record {
  shows = record {
    limit = refl;
    active = rw (tally-replicate holds n loading refl);
    within = omega (arith, tally-replicate holds n loading refl);
    gauge = rw (tally-replicate is_running n loading refl);
    total = omega (arith, tally-replicate was_established n loading refl);
    refused = omega (arith, tally-replicate was_refused n loading refl);
    failed = omega (arith, tally-replicate was_failed n loading refl);
  };
  ready = All-replicate (IsReady (int32 max)) n tt;
}

-- In every state that any schedule of any number of requests reaches.
pub reached-Inv : (max : ℤ) (n : ℕ) (cs : List (ℕ × Bool)) → Inv (int32 max) (run (start max n) cs)
unfolding run
reached-Inv max n cs =
    run_inv handle_step (Inv (int32 max)) (access-Inv (int32 max) (int32-lt max)) (start max n) cs
      (start-Inv max n)
