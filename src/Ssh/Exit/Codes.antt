-- ===== src/Ssh/Exit/Codes.antt =====
-- What the exit status tells a client.
use workspace_websocket_prox.Base.{◌≡◌, ◌↔◌, refl, Bool, true, false, arith}
use workspace_websocket_prox.Base.Int.{pos}
use workspace_websocket_prox.Ssh.Exit.{
  exited, signaled, other_status, nil, exit_error, other_error, Launch, pty_failed, stdin_failed,
  start_failed, launched, session_code,
}

-- The command ran to its end with status 0.
abbrev pub IsSuccess : Launch → Type 0
IsSuccess (launched nil) = Unit {0}
IsSuccess (launched (exit_error (exited n))) = n ≡ 0
IsSuccess _ = ⊥

-- A client sees status 0 exactly when the session got a slot, the command was started, and it
-- exited with 0: no failure of the server is reported as success.
pub session_code-zero :
    (acquired : Bool) (l : Launch)
    → (session_code acquired l ≡ pos 0) ↔ ((acquired ≡ true) × IsSuccess l)
unfolding session_code
session_code-zero false l = (λ h. ground arith, λ h. ground arith)
session_code-zero true pty_failed = (λ h. ground arith, λ h. absurd h.1)
session_code-zero true stdin_failed = (λ h. ground arith, λ h. absurd h.1)
session_code-zero true start_failed = (λ h. ground arith, λ h. absurd h.1)
session_code-zero true (launched nil) = (λ h. (refl, tt), λ h. refl)
session_code-zero true (launched other_error) = (λ h. ground arith, λ h. absurd h.1)
session_code-zero true (launched (exit_error (exited n))) = (λ h. ground arith, λ h. ground arith)
session_code-zero true (launched (exit_error (signaled n))) = (λ h. ground arith, λ h. absurd h.1)
session_code-zero true (launched (exit_error other_status)) = (λ h. ground arith, λ h. absurd h.1)
