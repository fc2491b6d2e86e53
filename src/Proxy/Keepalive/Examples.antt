-- ===== src/Proxy/Keepalive/Examples.antt =====
-- The keepalive of internal/proxy/session.go with an interval of 30 and a timeout of 60.
use workspace_websocket_prox.Base.{◌+◌, ◌≤◌, ◌<◌, ◌≡◌, refl, List, [], ◌∷◌, ◌++◌, arith}
use workspace_websocket_prox.Proxy.Keepalive.{
  Timing, Event, elapses, ticks, pongs, open_link, on_pong, on_tick, step, run,
}
use workspace_websocket_prox.Proxy.Keepalive.Deadline.{
  now-lt-read_deadline, read_deadline-pongs, read_deadline-slow_dial,
}

abbrev timing : Timing
timing = record { ping_interval = 30; ping_timeout = 60 }

-- Two pings, each answered after 2.
abbrev answered : List Event
answered =
    elapses 30
    ∷ ticks
    ∷ elapses 2
    ∷ pongs
    ∷ elapses 28
    ∷ ticks
    ∷ elapses 2
    ∷ pongs
    ∷ elapses 20
    ∷ []

answered_end : (run timing (open_link timing 100 5) answered).read_deadline ≡ 227
unfolding run step open_link on_pong on_tick
answered_end = refl

now-lt-read_deadline_example :
    let s = run timing (open_link timing 100 5) answered in s.now < s.read_deadline
unfolding open_link step on_pong on_tick
now-lt-read_deadline_example =
    now-lt-read_deadline timing 100 5 3 answered (omega arith) (omega arith)

-- The client falls silent after its first pong.
read_deadline-pongs_test :
    (run timing
      (open_link timing 100 5)
      ((elapses 30 ∷ ticks ∷ []) ++ pongs ∷ elapses 30 ∷ ticks ∷ [])).read_deadline
    ≡ (run timing (open_link timing 100 5) (elapses 30 ∷ ticks ∷ [])).now + 60
read_deadline-pongs_test =
    read_deadline-pongs timing (open_link timing 100 5) (elapses 30 ∷ ticks ∷ [])
      (elapses 30 ∷ ticks ∷ []) tt

-- A valid configuration with 57 and 60, and a dial of 4.
abbrev tight : Timing
tight = record { ping_interval = 57; ping_timeout = 60 }

abbrev first_ping : List Event
first_ping = elapses 57 ∷ ticks ∷ []

read_deadline-slow_dial_example :
    (run tight (open_link tight 0 4) first_ping).read_deadline
    ≤ (run tight (open_link tight 0 4) first_ping).now
unfolding run step open_link on_tick
read_deadline-slow_dial_example =
    read_deadline-slow_dial tight 0 4 first_ping (omega arith) tt (omega arith)
