-- ===== src/Ssh/Process/Examples.antt =====
-- Runs of one session.
use workspace_websocket_prox.Base.{
  ◌≡◌, ◌≢◌, ◌⊎◌, ◌↔◌, refl, true, false, List, [], ◌∷◌, length, arith,
}
use workspace_websocket_prox.Base.Int.{pos}
use workspace_websocket_prox.Ssh.Exit.{
  exited, signaled, exit_error, exit_code, launched, session_code,
}
use workspace_websocket_prox.Ssh.Exit.Codes.{IsSuccess, session_code-zero}
use workspace_websocket_prox.Ssh.Process.{
  alive, gone, sighup, returned, finished, started, signal_group, main_step, watcher_step,
  take_done, take_client, take_timer, Action, main_moves, watcher_moves, child_ends, output_ends,
  client_leaves, step, run,
}
use workspace_websocket_prox.Ssh.Process.Signals.{
  IsBetween, signals-step, signals-run, signals-reaped_child,
}
use workspace_websocket_prox.Ssh.Process.Order.{IsEscalation, run-IsEscalation}
use workspace_websocket_prox.Ssh.Process.Abandoned.{IsKilled, hang_up, run-hang_up}
use workspace_websocket_prox.Ssh.Process.Finish.{run-returned, run-to_end, to_end}

-- The client leaves, the process group is hung up, and after the grace period it is killed.
abbrev abandoned : List Action
abandoned =
    main_moves false
    ∷ client_leaves
    ∷ watcher_moves take_client
    ∷ watcher_moves take_timer
    ∷ watcher_moves take_timer
    ∷ watcher_moves take_timer
    ∷ []

-- The command exits with 3 while the client is there.
abbrev ordinary : List Action
ordinary =
    child_ends (exited 3)
    ∷ output_ends
    ∷ main_moves false
    ∷ main_moves false
    ∷ main_moves false
    ∷ main_moves false
    ∷ main_moves false
    ∷ main_moves false
    ∷ watcher_moves take_done
    ∷ main_moves false
    ∷ []

-- Everything up to the reap, with the client gone.
abbrev late : List Action
late =
    client_leaves
    ∷ watcher_moves take_client
    ∷ child_ends (exited 0)
    ∷ output_ends
    ∷ main_moves false
    ∷ main_moves false
    ∷ []

ordinary_status : (run (started true) ordinary).exit_status ≡ pos 3 ∷ []
unfolding run step main_step watcher_step signal_group started exit_code
ordinary_status = refl

run-IsEscalation_example : IsEscalation (run (started true) abandoned).signals
run-IsEscalation_example = run-IsEscalation true abandoned

ordinary_returned : (run (started true) ordinary).main ≡ returned
unfolding run step main_step watcher_step signal_group started
ordinary_returned = refl

run-returned_example :
    (length (run (started true) ordinary).exit_status ≡ 1)
    × ((run (started true) ordinary).watcher ≡ finished)
run-returned_example = run-returned true ordinary ordinary_returned

run-to_end_test : (run (run (started true) abandoned) (to_end (exited 0))).main ≡ returned
run-to_end_test = run-to_end true abandoned (exited 0)

ordinary_reaped : (run (started true) ordinary).reaped ≡ true
unfolding run step main_step watcher_step signal_group started
ordinary_reaped = refl

signals_after_end :
    (run (run (started true) ordinary) abandoned).signals ≡ (run (started true) ordinary).signals
signals_after_end = signals-run (run (started true) ordinary) abandoned ordinary_reaped

late_signals :
    (step (run (started true) late) (watcher_moves take_timer)).signals
    ≢ (run (started true) late).signals
unfolding run step main_step watcher_step signal_group started
late_signals = λ e. ground arith

signals-step_example :
    ((run (started true) late).child ≢ gone) ⊎ IsBetween (run (started true) late).main
signals-step_example = signals-step true late (watcher_moves take_timer) late_signals

signals-reaped_child_test :
    (run (started false) (
      client_leaves
      ∷ watcher_moves take_client
      ∷ child_ends (signaled 9)
      ∷ main_moves false
      ∷ watcher_moves take_timer
      ∷ [])).signals
    ≡ record { signal = sighup; target = gone } ∷ []
signals-reaped_child_test = signals-reaped_child (signaled 9)

session_code-zero_test :
    (session_code true (launched (exit_error (signaled 9))) ≡ pos 0)
    ↔ ((true ≡ true) × IsSuccess (launched (exit_error (signaled 9))))
session_code-zero_test = session_code-zero true (launched (exit_error (signaled 9)))

-- The client leaves a shell that sits at its prompt and ignores SIGHUP.
run-hang_up_example :
    let s = run (run (started true) (main_moves false ∷ [])) hang_up in
    (s.child ≡ alive → IsKilled s) × ((run s (to_end (signaled 9))).main ≡ returned)
run-hang_up_example = run-hang_up true (main_moves false ∷ []) (signaled 9)
