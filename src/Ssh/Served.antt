-- ===== src/Ssh/Served.antt =====
-- internal/sshserver/server.go, handleSession: the handlers of Sessions, each with the command that
-- it starts and with the goroutine that watches for the client's disconnect.
pub mod Abandoned
mod Examples
use workspace_websocket_prox.Base.{ℕ, Bool, true, false, not, List, [], ◌∷◌, replicate}
use workspace_websocket_prox.Base.Threads
use workspace_websocket_prox.Base.Threads.{System}
use workspace_websocket_prox.Base.Nested.{Host, nested}
use workspace_websocket_prox.Base.Int.{ℤ, pos}
use workspace_websocket_prox.Ssh.Process as Process
use workspace_websocket_prox.Ssh.Process.{Session, started, returned}
use workspace_websocket_prox.Ssh.Sessions.{Slots, Stage, entering, serving, session_step}

-- What handleSession runs in its slot: up to the start of the command, after a start that failed, or
-- the session of a started command.
pub data InSlot : Type 0 where
  launching failed : InSlot
  launched : Session → InSlot

abbrev pub Handler : Type 0
Handler = Host Stage InSlot

-- A turn of a handler: whether the start of its command succeeds and whether the client has asked for
-- a terminal, or what moves in its session.
pub record Turn : Type 0 where
  pub ok : Bool
  pub pty : Bool
  pub action : Process.Action

abbrev pub launch : Bool → Bool → InSlot
launch true pty = launched (started pty)
launch false pty = failed

abbrev pub slot_step : Turn → InSlot → InSlot
slot_step a launching = launch a.ok a.pty
slot_step a failed = failed
slot_step a (launched t) = launched (Process.step t a.action)

abbrev pub has_returned : Process.Main → Bool
has_returned returned = true
has_returned _ = false

abbrev pub is_open : InSlot → Bool
is_open launching = true
is_open failed = false
is_open (launched t) = not (has_returned t.main)

-- Between acquireSession and the deferred releaseSession.
abbrev pub in_slot : Stage → InSlot → Bool
in_slot serving t = is_open t
in_slot _ t = false

abbrev pub access_of : Turn → Unit {0}
access_of a = tt

-- The next access of a handler, or in its slot a step of what it runs there.
abbrev pub handler_step : Turn → Slots → Handler → Slots × Handler
handler_step = nested session_step slot_step access_of in_slot

abbrev pub Served : Type 0
Served = System Slots Handler

abbrev pub arriving : Handler
arriving = record { stage = entering; session = launching }

unfoldable pub start : ℤ → ℕ → Served
start max n = record {
  shared = record { max_sessions = max; sessions = pos 0 };
  threads = replicate n arriving;
}

unfoldable pub run : Served → List (ℕ × Turn) → Served
unfolding Threads.run
run = Threads.run handler_step
