-- ===== src/Ssh/Process.antt =====
-- internal/sshserver/server.go: sessionCmd, terminateOnDisconnect and finish, for one session whose
-- command has been started.
--
-- Two goroutines run beside the child and the client: the handler, which waits for the child,
-- marks it reaped, sends the exit status and then stops the watch, and the watcher. An action names
-- who moves; a select with several ready cases may take any of them.
pub mod Signals
pub mod Order
pub mod Finish
mod Blocked
pub mod Abandoned
mod Examples
use workspace_websocket_prox.Base.{
  ℕ, suc, zero, Bool, true, false, ◌&&◌, not, Option, none, some, List, [], ◌∷◌, if◌then◌else◌,
}
use workspace_websocket_prox.Base.Int.{ℤ}
use workspace_websocket_prox.Ssh.Exit.{
  WaitStatus, exited, WaitError, nil, exit_error, other_error, exit_code,
}

-- The child as the kernel sees it. Once it is gone its process id may name another process.
pub data Child : Type 0 where
  alive : Child
  zombie : WaitStatus → Child
  gone : Child

pub data Signal : Type 0 where
  sighup sigkill : Signal

-- A signal sent to the process group, with the child at that moment.
pub record Sent : Type 0 where
  pub signal : Signal
  pub target : Child

-- The handler: in the output copy of runWithPty, in cmd.Wait before and after it has reaped the
-- child (it then waits for the copies of the output to complete), between the return of cmd.Wait
-- and the lock of wait, before session.Exit, before and in the deferred stopWatch, and returned.
pub data Main : Type 0 where
  copying : Main
  waiting : Main
  draining : WaitStatus → Main
  waited : WaitError → Main
  marked : WaitError → Main
  exiting : Main
  joining : Main
  returned : Main

-- The goroutine of terminateOnDisconnect.
pub data Watcher : Type 0 where
  watching : Watcher
  hanging_up : Watcher
  grace : Watcher
  killing : Watcher
  finished : Watcher

pub record Session : Type 0 where
  pub child : Child
  pub reaped : Bool
  pub client_gone : Bool
  pub done : Bool
  pub signals : List Sent
  pub exit_status : List ℤ
  pub main : Main
  pub watcher : Watcher
  -- Whether the command has a terminal, as in runWithPty.
  pub pty : Bool
  -- Some process holds the terminal, or a pipe that the output is copied from.
  pub output_open : Bool

abbrev first_stage : Bool → Main
first_stage true = copying
first_stage false = waiting

unfoldable pub started : (pty : Bool) → Session
started pty = record {
  child = alive;
  reaped = false;
  client_gone = false;
  done = false;
  signals = [];
  exit_status = [];
  main = first_stage pty;
  watcher = watching;
  pty = pty;
  output_open = true;
}

-- signalGroup; the newest signal stands first.
unfoldable pub signal_group : Signal → Session → Session
signal_group sig s =
    if s.reaped
    then s
    else record s { signals = record { signal = sig; target = s.child } ∷ s.signals }

-- What exec.Cmd.Wait makes of a status, and of a failure to copy the output.
abbrev pub wait_error : WaitStatus → Bool → WaitError
wait_error (exited zero) false = nil
wait_error (exited zero) true = other_error
wait_error s _ = exit_error s

abbrev reap : Child → Session → Session
reap (zombie status) s = record s { child = gone; main = draining status }
reap _ s = s

abbrev is_finished : Watcher → Bool
is_finished finished = true
is_finished _ = false

-- Whether a copy of the output goes on: it returns at the end of the output, which comes when no
-- process holds the terminal or the pipe any more, be it the child or one that the child has left
-- behind, and when a write to the client fails.
abbrev pub is_copying : Bool → Session → Bool
is_copying copy_failed s = s.output_open && not copy_failed

-- One step of the handler. The Boolean says whether the copies of the output have returned and one
-- of them has failed. With a terminal the handler copies the output itself, without one cmd.Wait
-- waits for the copies.
unfoldable pub main_step : Main → Bool → Session → Session
main_step copying copy_failed s =
    if is_copying copy_failed s then s else record s { main = waiting }
main_step waiting copy_failed s = reap s.child s
main_step (draining status) copy_failed s =
    if s.pty
    then record s { main = waited (wait_error status false) }
    else if is_copying copy_failed s
    then s
    else record s { main = waited (wait_error status copy_failed) }
main_step (waited e) copy_failed s = record s { reaped = true; main = marked e }
main_step (marked e) copy_failed s = record s {
  exit_status = exit_code e ∷ s.exit_status;
  main = exiting;
}
main_step exiting copy_failed s = record s { done = true; main = joining }
main_step joining copy_failed s = if is_finished s.watcher then record s { main = returned } else s
main_step returned copy_failed s = s

-- The case that a select of the watcher takes.
pub data Choice : Type 0 where
  take_done take_client take_timer : Choice

unfoldable pub watcher_step : Watcher → Choice → Session → Session
unfolding signal_group
watcher_step watching take_done s = if s.done then record s { watcher = finished } else s
watcher_step watching take_client s = if s.client_gone then record s { watcher = hanging_up } else s
watcher_step hanging_up c s = record (signal_group sighup s) { watcher = grace }
watcher_step grace take_done s = if s.done then record s { watcher = finished } else s
watcher_step grace take_timer s = record s { watcher = killing }
watcher_step killing c s = record (signal_group sigkill s) { watcher = finished }
watcher_step _ _ s = s

-- The handler, the watcher, the end of the child, the end of the last process that holds the output,
-- the end of the client.
pub data Action : Type 0 where
  main_moves : (copy_failed : Bool) → Action
  watcher_moves : Choice → Action
  child_ends : WaitStatus → Action
  output_ends : Action
  client_leaves : Action

abbrev ended : Child → WaitStatus → Child
ended alive status = zombie status
ended c status = c

unfoldable pub step : Session → Action → Session
unfolding main_step watcher_step
step s (main_moves copy_failed) = main_step s.main copy_failed s
step s (watcher_moves c) = watcher_step s.watcher c s
step s (child_ends status) = record s { child = ended s.child status }
step s output_ends = record s { output_open = false }
step s client_leaves = record s { client_gone = true }

unfoldable pub run : Session → List Action → Session
run s [] = s
run s (a ∷ as') = run (step s a) as'
