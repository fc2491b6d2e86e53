-- ===== src/Ssh/Process/Signals.antt =====
-- When signals are sent to the process group.
use workspace_websocket_prox.Base.{
  ◌≡◌, ◌≢◌, ◌⊎◌, refl, ◌∙◌, Bool, true, false, List, [], ◌∷◌, arith,
}
use workspace_websocket_prox.Ssh.Exit.{WaitStatus}
use workspace_websocket_prox.Ssh.Process.{
  gone, sighup, Main, copying, waiting, draining, waited, marked, exiting, joining, returned,
  Watcher, Session, started, signal_group, main_step, watcher_step, Choice, take_client, take_timer,
  Action, main_moves, watcher_moves, child_ends, client_leaves, output_ends, step, run,
}

-- The child is gone once cmd.Wait has reaped it, and marked reaped two steps later.
abbrev pub MainAgrees : Main → Session → Type 0
MainAgrees copying s = (s.child ≢ gone) × (s.reaped ≡ false)
MainAgrees waiting s = (s.child ≢ gone) × (s.reaped ≡ false)
MainAgrees (draining e) s = (s.child ≡ gone) × (s.reaped ≡ false)
MainAgrees (waited e) s = (s.child ≡ gone) × (s.reaped ≡ false)
MainAgrees _ s = (s.child ≡ gone) × (s.reaped ≡ true)

main_step-MainAgrees :
    (m : Main) (f : Bool) (s : Session)
    → s.main ≡ m
    → MainAgrees m s
    → MainAgrees (main_step m f s).main (main_step m f s)
unfolding main_step
main_step-MainAgrees copying f s e h = ground arith
main_step-MainAgrees waiting f s e h = ground arith
main_step-MainAgrees (draining x) f s e h = ground arith
main_step-MainAgrees (waited x) f s e h = ground arith
main_step-MainAgrees (marked x) f s e h = ground arith
main_step-MainAgrees exiting f s e h = ground arith
main_step-MainAgrees joining f s e h = ground arith
main_step-MainAgrees returned f s e h = ground arith

watcher_step-MainAgrees :
    (w : Watcher) (c : Choice) (s : Session)
    → MainAgrees s.main s
    → MainAgrees (watcher_step w c s).main (watcher_step w c s)
unfolding watcher_step signal_group
watcher_step-MainAgrees w c s h = ground arith

pub step-MainAgrees :
    (s : Session) (a : Action) → MainAgrees s.main s → MainAgrees (step s a).main (step s a)
unfolding step
step-MainAgrees s (main_moves f) h = main_step-MainAgrees s.main f s refl h
step-MainAgrees s (watcher_moves c) h = watcher_step-MainAgrees s.watcher c s h
step-MainAgrees s (child_ends status) h = ground arith
step-MainAgrees s output_ends h = ground arith
step-MainAgrees s client_leaves h = ground arith

MainAgrees-run :
    (s : Session) (as' : List Action)
    → MainAgrees s.main s
    → MainAgrees (run s as').main (run s as')
unfolding run
MainAgrees-run s [] h = h
MainAgrees-run s (a ∷ as') h = MainAgrees-run (step s a) as' (step-MainAgrees s a h)

pub started-MainAgrees : (pty : Bool) → MainAgrees (started pty).main (started pty)
unfolding started
started-MainAgrees pty = ground arith

pub reachable-MainAgrees :
    (pty : Bool) (as' : List Action)
    → MainAgrees (run (started pty) as').main (run (started pty) as')
reachable-MainAgrees pty as' = MainAgrees-run (started pty) as' (started-MainAgrees pty)

-- The handler is inside cmd.Wait after the reap, or between its return and the lock of wait.
abbrev pub IsBetween : Main → Type 0
IsBetween (draining _) = Unit {0}
IsBetween (waited _) = Unit {0}
IsBetween _ = ⊥

between_lem :
    (m : Main) (s : Session) → MainAgrees m s → s.reaped ≡ false → (s.child ≢ gone) ⊎ IsBetween m
between_lem m s h e = ground arith

step-signals : (s : Session) (a : Action) → (step s a).signals ≢ s.signals → s.reaped ≡ false
unfolding step main_step watcher_step signal_group
step-signals s a h = ground arith

-- Whatever has happened in a session, a step that sends a signal is taken while the child has not
-- been reaped, or else between the reap inside cmd.Wait and the assignment of `reaped`.
pub signals-step :
    (pty : Bool) (as' : List Action) (a : Action)
    → (step (run (started pty) as') a).signals ≢ (run (started pty) as').signals
    → ((run (started pty) as').child ≢ gone) ⊎ IsBetween (run (started pty) as').main
signals-step pty as' a h =
    between_lem (run (started pty) as').main (run (started pty) as') (reachable-MainAgrees pty as')
      (step-signals (run (started pty) as') a h)

step-reaped :
    (s : Session) (a : Action)
    → s.reaped ≡ true
    → ((step s a).reaped ≡ true) × ((step s a).signals ≡ s.signals)
unfolding step main_step watcher_step signal_group
step-reaped s a h = ground arith

-- Once `reaped` is set, no signal is sent any more, whatever happens.
pub signals-run :
    (s : Session) (as' : List Action) → s.reaped ≡ true → (run s as').signals ≡ s.signals
unfolding run
signals-run s [] h = refl
signals-run s (a ∷ as') h = let n = step-reaped s a h in signals-run (step s a) as' n.0 ∙ n.1

-- If a command without a terminal ends with any status just before the client's disconnect is acted on, the hangup
-- is sent after the child was reaped.
pub signals-reaped_child :
    (status : WaitStatus)
    → (run (started false) (
        client_leaves
        ∷ watcher_moves take_client
        ∷ child_ends status
        ∷ main_moves false
        ∷ watcher_moves take_timer
        ∷ [])).signals
      ≡ record { signal = sighup; target = gone } ∷ []
unfolding run step main_step watcher_step signal_group started
signals-reaped_child status = refl
