-- ===== src/Ssh/Exit.antt =====
-- internal/sshserver/server.go: exitCode, and the exit status on every path through handleSession
-- and handleSFTP.
pub mod Codes
use workspace_websocket_prox.Base.{ℕ, ◌+◌, Bool, true, false, Option, none, some, if◌then◌else◌}
use workspace_websocket_prox.Base.Int.{ℤ, pos, negsuc, leb_ℤ}

abbrev pub exit_code_general_error : ℤ
exit_code_general_error = pos 1

abbrev pub exit_code_command_not_executable : ℤ
exit_code_command_not_executable = pos 127

abbrev pub signal_exit_code_base : ℕ
signal_exit_code_base = 128

-- `syscall.WaitStatus` of a process that has been waited for.
pub data WaitStatus : Type 0 where
  exited : ℕ → WaitStatus
  signaled : ℕ → WaitStatus
  other_status : WaitStatus

-- The error of exec.Cmd.Wait.
pub data WaitError : Type 0 where
  nil : WaitError
  exit_error : WaitStatus → WaitError
  other_error : WaitError

-- `ExitError.ExitCode`, which is -1 for a process that did not exit by itself.
abbrev pub status_code : WaitStatus → ℤ
status_code (exited n) = pos n
status_code _ = negsuc 0

abbrev signal_code : WaitStatus → ℤ
signal_code (signaled n) = pos (signal_exit_code_base + n)
signal_code _ = exit_code_general_error

unfoldable pub exit_code : WaitError → ℤ
exit_code nil = pos 0
exit_code other_error = exit_code_general_error
exit_code (exit_error s) = if leb_ℤ (pos 0) (status_code s) then status_code s else signal_code s

-- How far runWithPty and runWithoutPty get.
pub data Launch : Type 0 where
  pty_failed : Launch
  stdin_failed : Launch
  start_failed : Launch
  launched : WaitError → Launch

unfoldable pub launch_code : Launch → ℤ
unfolding exit_code
launch_code pty_failed = exit_code_general_error
launch_code stdin_failed = exit_code_general_error
launch_code start_failed = exit_code_command_not_executable
launch_code (launched e) = exit_code e

-- handleSession: the status that it sends, by whether acquireSession gave it a slot.
unfoldable pub session_code : Bool → Launch → ℤ
unfolding launch_code
session_code acquired l = if acquired then launch_code l else exit_code_general_error

-- What sftp.Server.Serve returns; errors.Is decides whether it is io.EOF.
pub data ServeError : Type 0 where
  served : ServeError
  end_of_file : ServeError
  serve_failed : ServeError

-- handleSFTP: the first argument says whether sftp.NewServer succeeds.
unfoldable pub sftp_code : Bool → ServeError → ℤ
sftp_code false e = exit_code_general_error
sftp_code true serve_failed = exit_code_general_error
sftp_code true _ = pos 0
