-- ===== src/Proxy/Session.antt =====
-- internal/proxy/session.go: Session.Run and pingLoop.
--
-- One session is its handler, the ping loop, the bridge, the timer of the longest duration and
-- everything outside that cancels the context. An action names who moves and what a call answers.
pub mod Ends
pub mod Counted
pub mod Over
mod Examples
use workspace_websocket_prox.Base.{
  ℕ, suc, Bool, true, false, Option, none, some, List, [], ◌∷◌, if◌then◌else◌,
}

-- What Run returns. A bridge error stands for whatever Bridge.Run returned.
pub data RunError : Type 0 where
  deadline_failed dial_failed canceled : RunError
  bridge_error : ℕ → RunError

-- The handler in Run; from `stopping` on it is in the deferred calls.
pub data Main : Type 0 where
  setting_deadline : Main
  dialing : Main
  selecting : Main
  stopping : Option RunError → Main  -- before maxDurationTimer.Stop
  cancelling : Option RunError → Main  -- before s.cancel
  joining : Option RunError → Main  -- at <-pingDone
  closing : Option RunError → Main  -- before tcp.Close
  observing : Option RunError → Main  -- before ConnectionDuration.Observe
  returned : Option RunError → Main

pub data Ping : Type 0 where
  unstarted looping ended : Ping

pub data Timer : Type 0 where
  unset armed stopped : Timer
  firing : Timer  -- the function of the timer has been started
  grace : Timer  -- it has written the close frame and set the second timer
  expired : Timer  -- the second timer has cancelled the context

pub data BridgeRun : Type 0 where
  not_running copying : BridgeRun
  result : Option RunError → BridgeRun

pub data Conn : Type 0 where
  undialed opened closed : Conn

pub record Session : Type 0 where
  pub main : Main
  pub ping : Ping
  pub timer : Timer
  pub bridge : BridgeRun
  pub tcp : Conn
  pub ws_closed : Bool
  pub cancelled : Bool
  pub max_duration : ℕ
  pub ping_failed : ℕ
  pub tcp_dial_failed : ℕ
  pub observed : ℕ

unfoldable pub new_session : Session
new_session = record {
  main = setting_deadline;
  ping = unstarted;
  timer = unset;
  bridge = not_running;
  tcp = undialed;
  ws_closed = false;
  cancelled = false;
  max_duration = 0;
  ping_failed = 0;
  tcp_dial_failed = 0;
  observed = 0;
}

abbrev close_conn : Conn → Conn
close_conn opened = closed
close_conn c = c

abbrev stop_timer : Timer → Timer
stop_timer armed = stopped
stop_timer t = t

abbrev take_bridge : BridgeRun → Session → Session
take_bridge (result e) s = record s { main = stopping e }
take_bridge _ s = s

abbrev join : Ping → Option RunError → Session → Session
join ended r s = record s { main = closing r }
join _ r s = s

-- One step of Run. The Boolean is the success of the call, and in the select the case it takes:
-- the bridge's result, or the end of the context.
unfoldable pub run_step : Main → Bool → Session → Session
run_step setting_deadline true s = record s { main = dialing }
run_step setting_deadline false s = record s { main = observing (some deadline_failed) }
run_step dialing true s = record s {
  main = selecting;
  ping = looping;
  timer = armed;
  bridge = copying;
  tcp = opened;
}
run_step dialing false s = record s {
  tcp_dial_failed = suc s.tcp_dial_failed;
  main = observing (some dial_failed);
}
run_step selecting true s = take_bridge s.bridge s
run_step selecting false s =
    if s.cancelled
    then record s { ws_closed = true; tcp = close_conn s.tcp; main = stopping (some canceled) }
    else s
run_step (stopping r) ok s = record s { timer = stop_timer s.timer; main = cancelling r }
run_step (cancelling r) ok s = record s { cancelled = true; main = joining r }
run_step (joining r) ok s = join s.ping r s
run_step (closing r) ok s = record s { tcp = close_conn s.tcp; main = observing r }
run_step (observing r) ok s = record s { observed = suc s.observed; main = returned r }
run_step (returned r) ok s = s

-- A turn of pingLoop: it sees the end of the context, or a tick whose ping succeeds or fails.
pub data Turn : Type 0 where
  see_done : Turn
  tick : (written : Bool) → Turn

unfoldable pub ping_step : Ping → Turn → Session → Session
ping_step looping see_done s = if s.cancelled then record s { ping = ended } else s
ping_step looping (tick true) s = s
ping_step looping (tick false) s = record s {
  ping_failed = suc s.ping_failed;
  cancelled = true;
  ping = ended;
}
ping_step _ t s = s

-- The timer of MaxSessionDuration, its function and the timer of the grace period.
unfoldable pub timer_step : Timer → Session → Session
timer_step armed s = record s { timer = firing }
timer_step firing s = record s { max_duration = suc s.max_duration; timer = grace }
timer_step grace s = record s { cancelled = true; timer = expired }
timer_step _ s = s

-- Bridge.Run returns and has closed both connections.
unfoldable pub bridge_step : BridgeRun → Option ℕ → Session → Session
bridge_step copying none s = record s {
  bridge = result none;
  ws_closed = true;
  tcp = close_conn s.tcp;
}
bridge_step copying (some e) s = record s {
  bridge = result (some (bridge_error e));
  ws_closed = true;
  tcp = close_conn s.tcp;
}
bridge_step _ e s = s

pub data Action : Type 0 where
  main_moves : Bool → Action
  ping_moves : Turn → Action
  timer_moves : Action
  bridge_returns : Option ℕ → Action
  context_ends : Action

unfoldable pub step : Session → Action → Session
unfolding run_step ping_step timer_step bridge_step
step s (main_moves ok) = run_step s.main ok s
step s (ping_moves t) = ping_step s.ping t s
step s timer_moves = timer_step s.timer s
step s (bridge_returns e) = bridge_step s.bridge e s
step s context_ends = record s { cancelled = true }

unfoldable pub run : Session → List Action → Session
run s [] = s
run s (a ∷ as') = run (step s a) as'
