-- ===== src/Ssh/Served/Examples.antt =====
-- handleSession of internal/sshserver/server.go: two clients for one slot, the first of which leaves a
-- shell that ignores SIGHUP.
use workspace_websocket_prox.Base.{
  ℕ, suc, ◌≡◌, ◌≤◌, refl, true, some, List, [], ◌∷◌, map, get_elem?, arith,
}
use workspace_websocket_prox.Base.Int.{pos}
use workspace_websocket_prox.Ssh.Exit.{signaled}
use workspace_websocket_prox.Ssh.Process.{started, main_moves}
use workspace_websocket_prox.Ssh.Sessions.{serving, finished, session_step}
use workspace_websocket_prox.Ssh.Served.{Handler, Turn, launched, start, run}
use workspace_websocket_prox.Ssh.Served.Abandoned.{held, held-le-max, to_release, held-to_release}

abbrev go : Turn
go = record { ok = true; pty = true; action = main_moves true }

abbrev turns : List (ℕ × Turn)
turns = (0, go) ∷ (0, go) ∷ (1, go) ∷ []

abbrev handler : Handler
handler = record { stage = serving; session = launched (started true) }

held-le-max_example : held (run (start (pos 1) 2) turns) ≤ 1
held-le-max_example = held-le-max 1 2 turns (omega arith)

held-to_release_example :
    let s = run (start (pos 1) 2) turns in
    let s' = run s (map (λ a. (0, a)) (to_release (signaled 9))) in
    (h' : Handler) × (get_elem? s'.threads 0 ≡ some h')
    × (h'.stage ≡ finished)
    × (suc (held s') ≡ held s)
unfolding run start session_step
held-to_release_example =
    held-to_release (pos 1) 2 turns 0 handler (started true) (signaled 9) refl refl refl
