-- ===== src/Proxy/Keepalive.antt =====
-- internal/proxy/session.go: the read deadline that Session.Run sets and its pong handler moves, and
-- the ticker of pingLoop, in time. A time and a duration are numbers of nanoseconds. A ReadMessage
-- of the WebSocket fails once the time has come to the deadline.
pub mod Deadline
mod Examples
use workspace_websocket_prox.Base.{ℕ, ◌+◌, List, [], ◌∷◌, leb, if◌then◌else◌}

-- PingInterval and PingTimeout of Config.
pub record Timing : Type 0 where
  pub ping_interval : ℕ
  pub ping_timeout : ℕ

pub record Link : Type 0 where
  pub now : ℕ
  pub read_deadline : ℕ
  pub next_tick : ℕ
  pub pings : ℕ

-- Run sets the deadline at time `t`, then takes `dial` to reach the target, and then starts
-- pingLoop, whose ticker fires for the first time one interval later.
unfoldable pub open_link : Timing → (t dial : ℕ) → Link
open_link c t dial = record {
  now = t + dial;
  read_deadline = t + c.ping_timeout;
  next_tick = t + dial + c.ping_interval;
  pings = 0;
}

-- The pong handler, called by ReadMessage.
unfoldable pub on_pong : Timing → Link → Link
on_pong c s = record s { read_deadline = s.now + c.ping_timeout }

-- A turn of pingLoop: the ticker has fired and a ping is sent. The loop keeps up with its ticker,
-- which drops no tick.
unfoldable pub on_tick : Timing → Link → Link
on_tick c s =
    if leb s.next_tick s.now
    then record s { next_tick = s.next_tick + c.ping_interval; pings = s.pings + 1 }
    else s

pub data Event : Type 0 where
  elapses : (d : ℕ) → Event
  ticks pongs : Event

unfoldable pub step : Timing → Link → Event → Link
unfolding on_pong on_tick
step c s (elapses d) = record s { now = s.now + d }
step c s ticks = on_tick c s
step c s pongs = on_pong c s

unfoldable pub run : Timing → Link → List Event → Link
run c s [] = s
run c s (e ∷ es) = run c (step c s e) es
