-- ===== src/Ssh/Startup/Status.antt =====
-- When the server's process reports success.
use workspace_websocket_prox.Base.{◌≡◌, ◌↔◌, ◌⊎◌, Option, none, some, arith}
use workspace_websocket_prox.Ssh.Startup.{
  NewResult, server, bad_config, bad_host_key, ServeError, deadline_exceeded, canceled,
  server_closed, Wake, signaled, served, exit_status,
}

-- A drain that ended by itself, or by its deadline with the connections then closed.
abbrev pub IsDrained : Option ServeError → Option ServeError → Type 0
IsDrained drained close =
    (drained ≡ none)
    ⊎ (((drained ≡ some deadline_exceeded) ⊎ (drained ≡ some canceled)) × (close ≡ none))

abbrev pub IsClean : {Signer : Type 0} → NewResult Signer → Wake → Type 0
IsClean (server s) (signaled drained close) = IsDrained drained close
IsClean (server s) (served e) = (e ≡ none) ⊎ (e ≡ some server_closed)
IsClean _ w = ⊥

-- The process exits with 0 exactly when New succeeded and the server was stopped by a signal and
-- drained or severed, or ListenAndServe ended without an error but ErrServerClosed.
pub exit_status-zero :
    {Signer : Type 0} (r : NewResult Signer) (w : Wake) → (exit_status r w ≡ 0) ↔ IsClean r w
unfolding exit_status
exit_status-zero (bad_config e) w = (λ h. ground arith, λ h. absurd h)
exit_status-zero (bad_host_key k) w = (λ h. ground arith, λ h. absurd h)
exit_status-zero (server s) (signaled drained close) = (λ h. ground arith, λ h. ground arith)
exit_status-zero (server s) (served e) = (λ h. ground arith, λ h. ground arith)
