-- ===== src/Ssh/Handler.antt =====
-- internal/sshserver/server.go: handleSession, runWithPty and runWithoutPty, as the sequence of what
-- the handler's own goroutine does. What the goroutines beside it do meanwhile is in Process,
-- Window and Sessions.
pub mod Trace
pub mod Child
mod Examples
use workspace_websocket_prox.Base.{
  ℕ, ◌%◌, ◌^◌, Bool, true, false, Option, none, some, List, [], ◌∷◌, ◌++◌, if◌then◌else◌,
}
use workspace_websocket_prox.Base.Int.{ℤ}
use workspace_websocket_prox.Base.Text.{Text, codes}
use workspace_websocket_prox.Ssh.Shell.{Cmd}
use workspace_websocket_prox.Ssh.Exit.{
  WaitError, exit_code, exit_code_general_error, exit_code_command_not_executable, Launch,
  pty_failed, stdin_failed, start_failed, launched,
}

-- What a client asks for a terminal: its type and its size.
pub record Pty : Type 0 where
  pub term : Text
  pub height : ℕ
  pub width : ℕ

-- What the handler does: a line for the client's stderr, the exit status, the start of the command (in a terminal or
-- not), terminateOnDisconnect and the stop that it returns, setWinsize, the two ends of
-- watchWindowSize, the end of the copy of the terminal's output, its close, the return of cmd.Wait,
-- and releaseSession.
pub data Event : Type 0 where
  says : Text → Event
  sends_exit : ℤ → Event
  starts : (terminal : Bool) → Cmd → Event
  watches unwatches : Event
  resizes : (rows cols : ℕ) → Event
  watches_windows unwatches_windows : Event
  copies_output closes_terminal : Event
  waits : Event
  releases : Event

-- What the calls outside the program answer: the errors of cmd.StdinPipe and of the start, by their
-- messages, and what cmd.Wait returns.
pub record Answers : Type 0 where
  pub stdin_error : Bool
  pub start_error : Option Text
  pub wait_error : WaitError

-- The two variables of a terminal, behind those of the session.
unfoldable pub pty_command : Pty → Cmd → Cmd
pty_command p cmd = record cmd {
  env = cmd.env ++ (codes "TERM=" ++ p.term) ∷ codes "COLORTERM=truecolor" ∷ [];
}

unfoldable pub finish : WaitError → List Event
unfolding exit_code
finish e = waits ∷ sends_exit (exit_code e) ∷ []

-- The argument of Fprintln, or a message that ends so.
abbrev line : Text → Text
line s = s ++ 10 ∷ []

abbrev no_pty : Text → List Event
no_pty e =
    says (line (codes "failed to allocate pty: " ++ e)) ∷ sends_exit exit_code_general_error ∷ []

-- The call of setWinsize, which converts the size to 16 bits.
abbrev winsize : Pty → Event
winsize p = resizes (p.height % 2 ^ 16) (p.width % 2 ^ 16)

abbrev with_terminal : Pty → WaitError → List Event
with_terminal p e =
    watches
    ∷ winsize p
    ∷ watches_windows
    ∷ copies_output
    ∷ unwatches_windows
    ∷ closes_terminal
    ∷ (finish e ++ unwatches ∷ [])

unfoldable pub run_with_pty : Pty → Answers → Cmd → List Event
unfolding pty_command finish
run_with_pty p a cmd = elim (a.start_error) [
  | some e ↦ no_pty e
  | none ↦ starts true (pty_command p cmd) ∷ with_terminal p a.wait_error
]

abbrev started : Answers → Cmd → Option Text → List Event
started a cmd (some e) =
    says (line (codes "failed to start command: " ++ e))
    ∷ sends_exit exit_code_command_not_executable
    ∷ []
started a cmd none = starts false cmd ∷ watches ∷ (finish a.wait_error ++ unwatches ∷ [])

unfoldable pub run_without_pty : Answers → Cmd → List Event
unfolding finish
run_without_pty a cmd =
    if a.stdin_error then sends_exit exit_code_general_error ∷ [] else started a cmd a.start_error

-- The path by what session.Pty returns.
abbrev dispatch : Option Pty → Answers → Cmd → List Event
dispatch (some p) a cmd = run_with_pty p a cmd
dispatch none a cmd = run_without_pty a cmd

-- `acquired` is what acquireSession returns, and `cmd` is the command of Shell.
unfoldable pub handle_session : Bool → Option Pty → Answers → Cmd → List Event
unfolding run_with_pty run_without_pty
handle_session acquired pty a cmd =
    if acquired
    then dispatch pty a cmd ++ releases ∷ []
    else says (line (codes "remote access server at capacity"))
      ∷ sends_exit exit_code_general_error
      ∷ []

-- How the launch went, as the exit status tells it.
unfoldable pub launch : Option Pty → Answers → Launch
launch (some p) a = elim (a.start_error) [ some e ↦ pty_failed | none ↦ launched a.wait_error ]
launch none a =
    if a.stdin_error
    then stdin_failed
    else elim (a.start_error) [ some e ↦ start_failed | none ↦ launched a.wait_error ]
