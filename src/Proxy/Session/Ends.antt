-- ===== src/Proxy/Session/Ends.antt =====
-- How Run ends.
use workspace_websocket_prox.Base.{
  ℕ, ◌≡◌, ◌≢◌, ◌⊎◌, refl, sym, subst, Bool, true, Option, List, [], ◌∷◌, arith,
}
use workspace_websocket_prox.Proxy.Session.{
  Main, setting_deadline, dialing, selecting, stopping, cancelling, joining, closing, observing,
  returned, Ping, unstarted, looping, ended, Timer, unset, armed, stopped, expired, BridgeRun,
  not_running, copying, undialed, opened, Session, new_session, run_step, Turn, ping_step,
  timer_step, bridge_step, Action, main_moves, ping_moves, timer_moves, bridge_returns,
  context_ends, step, run,
}

-- The ping loop, the connection and the timer, before the dial, after it, and once each deferred
-- call is through; a run that failed before it dialed has none of them.
abbrev Fresh : Session → Type 0
Fresh s = (s.ping ≡ unstarted) × (s.tcp ≡ undialed) × (s.timer ≡ unset) × (s.bridge ≡ not_running)

abbrev Live : Session → Type 0
Live s = (s.ping ≢ unstarted) × (s.bridge ≢ not_running) × (s.tcp ≢ undialed)

-- The timer of the longest duration is on its way, or has cancelled the context.
abbrev Timed : Timer → Bool → Type 0
Timed unset c = ⊥
Timed stopped c = ⊥
Timed expired c = c ≡ true
Timed _ c = Unit {0}

-- A bridge that still runs finds its connections closed.
abbrev Quiet : Session → Type 0
Quiet s = (s.bridge ≢ copying) ⊎ (s.ws_closed ≡ true)

abbrev Torn : Session → Type 0
Torn s = (s.ping ≢ looping) × (s.tcp ≢ opened) × (s.timer ≢ armed) × Quiet s

abbrev pub MainAgrees : Main → Session → Type 0
MainAgrees setting_deadline s = Fresh s × (s.observed ≡ 0)
MainAgrees dialing s = Fresh s × (s.observed ≡ 0)
MainAgrees selecting s = Live s × Timed s.timer s.cancelled × (s.observed ≡ 0)
MainAgrees (stopping r) s = Live s × Quiet s × (s.observed ≡ 0)
MainAgrees (cancelling r) s = Live s × Quiet s × (s.timer ≢ armed) × (s.observed ≡ 0)
MainAgrees (joining r) s =
    Live s × Quiet s × (s.timer ≢ armed) × (s.cancelled ≡ true) × (s.observed ≡ 0)
MainAgrees (closing r) s = (s.ping ≡ ended) × Quiet s × (s.timer ≢ armed) × (s.observed ≡ 0)
MainAgrees (observing r) s = Torn s × (s.observed ≡ 0)
MainAgrees (returned r) s = Torn s × (s.observed ≡ 1)

run_step-MainAgrees :
    (m : Main) (ok : Bool) (s : Session)
    → s.main ≡ m
    → MainAgrees m s
    → MainAgrees (run_step m ok s).main (run_step m ok s)
unfolding run_step
run_step-MainAgrees setting_deadline ok s e h = ground arith
run_step-MainAgrees dialing ok s e h = ground arith
run_step-MainAgrees selecting ok s e h = ground arith
run_step-MainAgrees (stopping r) ok s e h = ground arith
run_step-MainAgrees (cancelling r) ok s e h = ground arith
run_step-MainAgrees (joining r) ok s e h = ground arith
run_step-MainAgrees (closing r) ok s e h = ground arith
run_step-MainAgrees (observing r) ok s e h = ground arith
run_step-MainAgrees (returned r) ok s e h = ground arith

-- A step of another goroutine keeps what the handler relies on.
others-MainAgrees :
    (m : Main) (s : Session)
    → s.main ≡ m
    → MainAgrees m s
    → ((t : Turn) → MainAgrees m (ping_step s.ping t s))
      × (MainAgrees m (timer_step s.timer s))
      × ((e : Option ℕ) → MainAgrees m (bridge_step s.bridge e s))
unfolding ping_step timer_step bridge_step
others-MainAgrees setting_deadline s e h = (λ t. ground arith, ground arith, λ x. ground arith)
others-MainAgrees dialing s e h = (λ t. ground arith, ground arith, λ x. ground arith)
others-MainAgrees selecting s e h = (λ t. ground arith, ground arith, λ x. ground arith)
others-MainAgrees (stopping r) s e h = (λ t. ground arith, ground arith, λ x. ground arith)
others-MainAgrees (cancelling r) s e h = (λ t. ground arith, ground arith, λ x. ground arith)
others-MainAgrees (joining r) s e h = (λ t. ground arith, ground arith, λ x. ground arith)
others-MainAgrees (closing r) s e h = (λ t. ground arith, ground arith, λ x. ground arith)
others-MainAgrees (observing r) s e h = (λ t. ground arith, ground arith, λ x. ground arith)
others-MainAgrees (returned r) s e h = (λ t. ground arith, ground arith, λ x. ground arith)

ping_step-main : (p : Ping) (t : Turn) (s : Session) → (ping_step p t s).main ≡ s.main
unfolding ping_step
ping_step-main p t s = ground arith

timer_step-main : (t : Timer) (s : Session) → (timer_step t s).main ≡ s.main
unfolding timer_step
timer_step-main t s = ground arith

bridge_step-main : (b : BridgeRun) (e : Option ℕ) (s : Session) → (bridge_step b e s).main ≡ s.main
unfolding bridge_step
bridge_step-main b e s = ground arith

pub step-MainAgrees :
    (s : Session) (a : Action) → MainAgrees s.main s → MainAgrees (step s a).main (step s a)
unfolding step
step-MainAgrees s (main_moves ok) h = run_step-MainAgrees s.main ok s refl h
step-MainAgrees s (ping_moves t) h =
    subst (λ m. MainAgrees m (ping_step s.ping t s)) (sym (ping_step-main s.ping t s))
      ((others-MainAgrees s.main s refl h).0 t)
step-MainAgrees s timer_moves h =
    subst (λ m. MainAgrees m (timer_step s.timer s)) (sym (timer_step-main s.timer s))
      (others-MainAgrees s.main s refl h).1
step-MainAgrees s (bridge_returns e) h =
    subst (λ m. MainAgrees m (bridge_step s.bridge e s)) (sym (bridge_step-main s.bridge e s))
      ((others-MainAgrees s.main s refl h).2 e)
step-MainAgrees s context_ends h = ground arith

pub MainAgrees-run :
    (s : Session) (as' : List Action)
    → MainAgrees s.main s
    → MainAgrees (run s as').main (run s as')
unfolding run
MainAgrees-run s [] h = h
MainAgrees-run s (a ∷ as') h = MainAgrees-run (step s a) as' (step-MainAgrees s a h)

pub started-MainAgrees : MainAgrees new_session.main new_session
unfolding new_session
started-MainAgrees = ((refl, refl, refl, refl), refl)

pub reachable-MainAgrees :
    (as' : List Action) → MainAgrees (run new_session as').main (run new_session as')
reachable-MainAgrees as' = MainAgrees-run new_session as' started-MainAgrees

abbrev pub IsReturned : Main → Type 0
IsReturned (returned r) = Unit {0}
IsReturned _ = ⊥

-- The ping loop does not run, the connection to the target is not open, the timer will not fire,
-- and a bridge that has not returned has lost its connections.
abbrev pub IsTornDown : Session → Type 0
IsTornDown s =
    (s.ping ≢ looping)
    × (s.tcp ≢ opened)
    × (s.timer ≢ armed)
    × ((s.bridge ≢ copying) ⊎ (s.ws_closed ≡ true))

torn_lem :
    (m : Main) (s : Session) → MainAgrees m s → IsReturned m → IsTornDown s × (s.observed ≡ 1)
torn_lem m s h e = ground arith

-- However a session goes, when Run has returned the ping loop has ended or never started, the
-- connection to the target is not open, the timer of the longest duration is not set, a bridge
-- that has not returned finds the WebSocket closed, and the duration was observed exactly once.
pub run-IsTornDown :
    (as' : List Action)
    → IsReturned (run new_session as').main
    → IsTornDown (run new_session as') × ((run new_session as').observed ≡ 1)
run-IsTornDown as' e =
    torn_lem (run new_session as').main (run new_session as') (reachable-MainAgrees as') e
