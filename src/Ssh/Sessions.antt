-- ===== src/Ssh/Sessions.antt =====
-- internal/sshserver/server.go: acquireSession, releaseSession and the handlers that call them, as
-- an interleaving of their accesses to the atomic count. The count is an int64: what it holds stays
-- far below 2^63, so it is an integer without a bound here.
pub mod Limit
pub mod Unlimited
mod Examples
use workspace_websocket_prox.Base.{
  ℕ, Bool, true, false, Option, none, some, List, [], ◌∷◌, replicate, if◌then◌else◌,
}
use workspace_websocket_prox.Base.Int.{ℤ, pos, negsuc, ◌+ℤ◌, leb_ℤ, ltb_ℤ}
use workspace_websocket_prox.Base.Threads
use workspace_websocket_prox.Base.Threads.{System}

-- Config.MaxSessions and the count.
pub record Slots : Type 0 where
  pub max_sessions : ℤ
  pub sessions : ℤ

-- Where a handler stands.
pub data Stage : Type 0 where
  entering : Stage  -- at the start of acquireSession
  backing_out : Stage  -- past the limit, before its own Add(-1)
  refused : Stage  -- acquireSession has returned false
  serving : Stage  -- acquireSession has returned true
  finished : Stage  -- after releaseSession

-- A non-positive MaxSessions disables the limit.
abbrev pub is_unlimited : Slots → Bool
is_unlimited s = leb_ℤ s.max_sessions (pos 0)

-- One access. `sessions.Add` returns the new count, so the test belongs to it.
unfoldable pub session_step : Unit {0} → Slots → Stage → Slots × Stage
session_step a s entering =
    if is_unlimited s
    then (s, serving)
    else let count = s.sessions +ℤ pos 1 in
      (record s { sessions = count }, if ltb_ℤ s.max_sessions count then backing_out else serving)
session_step a s backing_out = (record s { sessions = s.sessions +ℤ negsuc 0 }, refused)
session_step a s serving =
    if is_unlimited s
    then (s, finished)
    else (record s { sessions = s.sessions +ℤ negsuc 0 }, finished)
session_step a s refused = (s, refused)
session_step a s finished = (s, finished)

abbrev pub Sessions : Type 0
Sessions = System Slots Stage

unfoldable pub start : ℤ → ℕ → Sessions
start max n = record {
  shared = record { max_sessions = max; sessions = pos 0 };
  threads = replicate n entering;
}

unfoldable pub run : Sessions → List (ℕ × Unit {0}) → Sessions
unfolding Threads.run
run = Threads.run session_step
