-- ===== src/Ssh/Process/Finish.antt =====
-- The exit status and the end of a session.
use workspace_websocket_prox.Base.{◌≡◌, refl, Bool, true, false, List, [], ◌∷◌, length, arith}
use workspace_websocket_prox.Ssh.Exit.{WaitStatus}
use workspace_websocket_prox.Ssh.Process.{
  Main, copying, waiting, draining, waited, marked, exiting, joining, returned, finished, Session,
  started, signal_group, main_step, watcher_step, Choice, take_done, Action, main_moves,
  watcher_moves, child_ends, client_leaves, output_ends, step, run,
}
use workspace_websocket_prox.Ssh.Process.Signals.{MainAgrees, reachable-MainAgrees}

-- The statuses sent, done and the watcher at each stage of the handler.
abbrev pub FinishAgrees : Main → Session → Type 0
FinishAgrees exiting s = (length s.exit_status ≡ 1) × (s.done ≡ false)
FinishAgrees joining s = (length s.exit_status ≡ 1) × (s.done ≡ true)
FinishAgrees returned s = (length s.exit_status ≡ 1) × (s.watcher ≡ finished)
FinishAgrees _ s = (s.exit_status ≡ []) × (s.done ≡ false)

main_step-FinishAgrees :
    (m : Main) (f : Bool) (s : Session)
    → s.main ≡ m
    → FinishAgrees m s
    → FinishAgrees (main_step m f s).main (main_step m f s)
unfolding main_step
main_step-FinishAgrees copying f s e h = ground arith
main_step-FinishAgrees waiting f s e h = ground arith
main_step-FinishAgrees (draining x) f s e h = ground arith
main_step-FinishAgrees (waited x) f s e h = ground arith
main_step-FinishAgrees (marked x) f s e h = ground arith
main_step-FinishAgrees exiting f s e h = ground arith
main_step-FinishAgrees joining f s e h = ground arith
main_step-FinishAgrees returned f s e h = ground arith

watcher_step-FinishAgrees :
    (m : Main) (c : Choice) (s : Session)
    → s.main ≡ m
    → FinishAgrees m s
    → FinishAgrees (watcher_step s.watcher c s).main (watcher_step s.watcher c s)
unfolding watcher_step signal_group
watcher_step-FinishAgrees copying c s e h = ground arith
watcher_step-FinishAgrees waiting c s e h = ground arith
watcher_step-FinishAgrees (draining x) c s e h = ground arith
watcher_step-FinishAgrees (waited x) c s e h = ground arith
watcher_step-FinishAgrees (marked x) c s e h = ground arith
watcher_step-FinishAgrees exiting c s e h = ground arith
watcher_step-FinishAgrees joining c s e h = ground arith
watcher_step-FinishAgrees returned c s e h = ground arith

pub step-FinishAgrees :
    (s : Session) (a : Action) → FinishAgrees s.main s → FinishAgrees (step s a).main (step s a)
unfolding step
step-FinishAgrees s (main_moves f) h = main_step-FinishAgrees s.main f s refl h
step-FinishAgrees s (watcher_moves c) h = watcher_step-FinishAgrees s.main c s refl h
step-FinishAgrees s (child_ends status) h = ground arith
step-FinishAgrees s output_ends h = ground arith
step-FinishAgrees s client_leaves h = ground arith

FinishAgrees-run :
    (s : Session) (as' : List Action)
    → FinishAgrees s.main s
    → FinishAgrees (run s as').main (run s as')
unfolding run
FinishAgrees-run s [] h = h
FinishAgrees-run s (a ∷ as') h = FinishAgrees-run (step s a) as' (step-FinishAgrees s a h)

pub started-FinishAgrees : (pty : Bool) → FinishAgrees (started pty).main (started pty)
unfolding started
started-FinishAgrees pty = ground arith

returned_lem :
    (m : Main) (s : Session)
    → FinishAgrees m s
    → m ≡ returned
    → (length s.exit_status ≡ 1) × (s.watcher ≡ finished)
returned_lem m s h e = ground arith

-- When the handler of a started command returns, exactly one exit status has been sent and the
-- watcher has ended.
pub run-returned :
    (pty : Bool) (as' : List Action)
    → (run (started pty) as').main ≡ returned
    → (length (run (started pty) as').exit_status ≡ 1)
      × ((run (started pty) as').watcher ≡ finished)
run-returned pty as' e =
    returned_lem (run (started pty) as').main (run (started pty) as')
      (FinishAgrees-run (started pty) as' (started-FinishAgrees pty)) e

-- The child ends, and so does every other process that holds its output, the handler gets to the end
-- of its deferred call, the watcher takes `done`.
abbrev pub to_end : WaitStatus → List Action
to_end status =
    child_ends status
    ∷ output_ends
    ∷ main_moves false
    ∷ main_moves false
    ∷ main_moves false
    ∷ main_moves false
    ∷ main_moves false
    ∷ main_moves false
    ∷ watcher_moves take_done
    ∷ watcher_moves take_done
    ∷ main_moves false
    ∷ []

end_lem :
    (status : WaitStatus) (m : Main) (s : Session)
    → s.main ≡ m
    → MainAgrees m s
    → FinishAgrees m s
    → (run s (to_end status)).main ≡ returned
unfolding run step main_step watcher_step signal_group
end_lem status copying s e h f = ground arith
end_lem status waiting s e h f = ground arith
end_lem status (draining x) s e h f = ground arith
end_lem status (waited x) s e h f = ground arith
end_lem status (marked x) s e h f = ground arith
end_lem status exiting s e h f = ground arith
end_lem status joining s e h f = ground arith
end_lem status returned s e h f = ground arith

-- From every state that a session can reach, the handler returns on the schedule in which the
-- child ends in any way, no process holds its output any more, the handler runs on and the watcher
-- takes `done`.
pub run-to_end :
    (pty : Bool) (as' : List Action) (status : WaitStatus)
    → (run (run (started pty) as') (to_end status)).main ≡ returned
run-to_end pty as' status =
    end_lem status (run (started pty) as').main (run (started pty) as') refl
      (reachable-MainAgrees pty as') (FinishAgrees-run (started pty) as' (started-FinishAgrees pty))
