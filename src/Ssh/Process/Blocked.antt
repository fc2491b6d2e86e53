-- ===== src/Ssh/Process/Blocked.antt =====
-- runWithPty and finish of internal/sshserver/server.go: what the handler waits for.
use workspace_websocket_prox.Base.{◌≡◌, ◌≢◌, refl, Bool, true, false, List, [], ◌∷◌, arith}
use workspace_websocket_prox.Ssh.Process.{
  Main, copying, waiting, draining, returned, Watcher, Session, started, signal_group, main_step,
  watcher_step, Choice, Action, main_moves, watcher_moves, child_ends, client_leaves, output_ends,
  step, run,
}

-- No copy of the output fails, and some process goes on holding it.
abbrev IsHolding : Action → Type 0
IsHolding (main_moves copy_failed) = copy_failed ≡ false
IsHolding output_ends = ⊥
IsHolding _ = Unit {0}

abbrev AllHolding : List Action → Type 0
AllHolding [] = Unit {0}
AllHolding (a ∷ as') = IsHolding a × AllHolding as'

abbrev IsBlocked : Main → Session → Type 0
IsBlocked copying s = s.output_open ≡ true
IsBlocked waiting s = (s.output_open ≡ true) × (s.pty ≡ false)
IsBlocked (draining e) s = (s.output_open ≡ true) × (s.pty ≡ false)
IsBlocked _ s = ⊥

main_step-IsBlocked :
    (m : Main) (s : Session)
    → s.main ≡ m
    → IsBlocked m s
    → IsBlocked (main_step m false s).main (main_step m false s)
unfolding main_step
main_step-IsBlocked m s e h = ground arith

watcher_step-IsBlocked :
    (w : Watcher) (c : Choice) (s : Session)
    → IsBlocked s.main s
    → IsBlocked (watcher_step w c s).main (watcher_step w c s)
unfolding watcher_step signal_group
watcher_step-IsBlocked w c s h = ground arith

step-IsBlocked :
    (s : Session) (a : Action)
    → IsHolding a
    → IsBlocked s.main s
    → IsBlocked (step s a).main (step s a)
unfolding step
step-IsBlocked s (main_moves false) q h = main_step-IsBlocked s.main s refl h
step-IsBlocked s (main_moves true) q h = cc
step-IsBlocked s (watcher_moves c) q h = watcher_step-IsBlocked s.watcher c s h
step-IsBlocked s (child_ends status) q h = ground arith
step-IsBlocked s output_ends q h = absurd q
step-IsBlocked s client_leaves q h = ground arith

IsBlocked-run :
    (s : Session) (as' : List Action)
    → AllHolding as'
    → IsBlocked s.main s
    → IsBlocked (run s as').main (run s as')
unfolding run
IsBlocked-run s [] q h = h
IsBlocked-run s (a ∷ as') q h = IsBlocked-run (step s a) as' q.1 (step-IsBlocked s a q.0 h)

started-IsBlocked : (pty : Bool) → IsBlocked (started pty).main (started pty)
unfolding started
started-IsBlocked true = refl
started-IsBlocked false = (refl, refl)

blocked_lem : (m : Main) (s : Session) → IsBlocked m s → m ≢ returned
blocked_lem m s h e = ground arith

-- As long as some process holds the output and no copy of it fails, the handler does not return,
-- whatever the child, the client and the watcher do, SIGKILL included.
run-blocked :
    (pty : Bool) (as' : List Action) → AllHolding as' → (run (started pty) as').main ≢ returned
run-blocked pty as' q =
    let s = run (started pty) as' in
    blocked_lem s.main s (IsBlocked-run (started pty) as' q (started-IsBlocked pty))
