-- ===== src/Proxy/Session/Counted.antt =====
-- What one session adds to the error counters.
use workspace_websocket_prox.Base.{
  ℕ, ◌≡◌, ◌⊎◌, ◌≤◌, ◌+◌, inl, refl, Bool, Option, List, [], ◌∷◌, arith,
}
use workspace_websocket_prox.Proxy.Session.{
  Main, setting_deadline, dialing, selecting, stopping, cancelling, joining, closing, observing,
  returned, Ping, unstarted, ended, Timer, unset, grace, expired, BridgeRun, Session, new_session,
  run_step, Turn, ping_step, timer_step, bridge_step, Action, main_moves, ping_moves, timer_moves,
  bridge_returns, context_ends, step, run,
}
use workspace_websocket_prox.Proxy.Session.Ends.{MainAgrees, step-MainAgrees, started-MainAgrees}

abbrev TimerAgrees : Timer → ℕ → Type 0
TimerAgrees grace n = n ≡ 1
TimerAgrees expired n = n ≡ 1
TimerAgrees _ n = n ≡ 0

abbrev PingAgrees : Ping → ℕ → Type 0
PingAgrees ended n = n ≤ 1
PingAgrees _ n = n ≡ 0

abbrev IsLate : Main → Type 0
IsLate (observing r) = Unit {0}
IsLate (returned r) = Unit {0}
IsLate _ = ⊥

-- The dial has not failed, or it has and neither the timer nor the ping loop was ever started.
abbrev DialAgrees : Session → Type 0
DialAgrees s =
    (s.tcp_dial_failed ≡ 0)
    ⊎ ((s.tcp_dial_failed ≡ 1) × IsLate s.main × (s.timer ≡ unset) × (s.ping ≡ unstarted))

abbrev Counts : Session → Type 0
Counts s = TimerAgrees s.timer s.max_duration × PingAgrees s.ping s.ping_failed × DialAgrees s

run_step-Counts :
    (m : Main) (ok : Bool) (s : Session)
    → s.main ≡ m
    → MainAgrees m s
    → Counts s
    → Counts (run_step m ok s)
unfolding run_step
run_step-Counts setting_deadline ok s e h c = ground arith
run_step-Counts dialing ok s e h c = ground arith
run_step-Counts selecting ok s e h c = ground arith
run_step-Counts (stopping r) ok s e h c = ground arith
run_step-Counts (cancelling r) ok s e h c = ground arith
run_step-Counts (joining r) ok s e h c = ground arith
run_step-Counts (closing r) ok s e h c = ground arith
run_step-Counts (observing r) ok s e h c = ground arith
run_step-Counts (returned r) ok s e h c = ground arith

ping_step-Counts :
    (p : Ping) (t : Turn) (s : Session) → s.ping ≡ p → Counts s → Counts (ping_step p t s)
unfolding ping_step
ping_step-Counts p t s e c = ground arith

timer_step-Counts : (t : Timer) (s : Session) → s.timer ≡ t → Counts s → Counts (timer_step t s)
unfolding timer_step
timer_step-Counts t s e c = ground arith

bridge_step-Counts :
    (b : BridgeRun) (e : Option ℕ) (s : Session) → Counts s → Counts (bridge_step b e s)
unfolding bridge_step
bridge_step-Counts b e s c = ground arith

step-Counts : (s : Session) (a : Action) → MainAgrees s.main s → Counts s → Counts (step s a)
unfolding step
step-Counts s (main_moves ok) h c = run_step-Counts s.main ok s refl h c
step-Counts s (ping_moves t) h c = ping_step-Counts s.ping t s refl c
step-Counts s timer_moves h c = timer_step-Counts s.timer s refl c
step-Counts s (bridge_returns e) h c = bridge_step-Counts s.bridge e s c
step-Counts s context_ends h c = c

Counts-run : (s : Session) (as' : List Action) → MainAgrees s.main s → Counts s → Counts (run s as')
unfolding run
Counts-run s [] h c = c
Counts-run s (a ∷ as') h c = Counts-run (step s a) as' (step-MainAgrees s a h) (step-Counts s a h c)

started-Counts : Counts new_session
unfolding new_session
started-Counts = (refl, refl, inl refl)

-- The session is counted at most once under each of tcp_dial_failed, max_duration and
-- ping_failed, and if the dial failed under nothing else.
abbrev pub IsCountedOnce : Session → Type 0
IsCountedOnce s =
    (s.max_duration ≤ 1)
    × (s.ping_failed ≤ 1)
    × (s.tcp_dial_failed ≤ 1)
    × ((s.tcp_dial_failed ≡ 0) ⊎ (s.max_duration + s.ping_failed ≡ 0))

counted : (s : Session) → Counts s → IsCountedOnce s
counted s c = ground arith

-- However a session goes, it adds at most one to each error counter, and if its dial failed it
-- adds to no other.
pub run-IsCountedOnce : (as' : List Action) → IsCountedOnce (run new_session as')
run-IsCountedOnce as' =
    counted (run new_session as') (Counts-run new_session as' started-MainAgrees started-Counts)
