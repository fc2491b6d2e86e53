-- ===== src/Ssh/Process/Abandoned.antt =====
-- terminateOnDisconnect of internal/sshserver/server.go: a session whose client has left.
use workspace_websocket_prox.Base.{
  ◌≡◌, ◌∙◌, ap, sym, refl, Bool, false, Option, none, some, List, [], ◌∷◌, ◌++◌, arith,
}
use workspace_websocket_prox.Ssh.Exit.{WaitStatus}
use workspace_websocket_prox.Ssh.Process.{
  alive, sigkill, Sent, Main, returned, Watcher, finished, Session, started, signal_group,
  main_step, watcher_step, Choice, take_client, take_timer, Action, main_moves, watcher_moves,
  child_ends, client_leaves, output_ends, step, run,
}
use workspace_websocket_prox.Ssh.Process.Signals.{MainAgrees, step-MainAgrees, started-MainAgrees}
use workspace_websocket_prox.Ssh.Process.Finish.{
  FinishAgrees, step-FinishAgrees, started-FinishAgrees, run-to_end, to_end,
}

abbrev newest : List Sent → Option Sent
newest [] = none
newest (x ∷ xs) = some x

-- The newest signal is a SIGKILL to a child that was alive.
abbrev pub IsKilled : Session → Type 0
IsKilled s = newest s.signals ≡ some (record { signal = sigkill; target = alive })

record Inv (s : Session) : Type 0 where
  main : MainAgrees s.main s
  finish : FinishAgrees s.main s
  -- A watcher that has ended leaves no child behind without having killed it.
  watcher : s.watcher ≡ finished → s.child ≡ alive → IsKilled s

-- A child that is alive has not been reaped, and its handler is not done.
alive_lem :
    (m : Main) (s : Session)
    → MainAgrees m s
    → FinishAgrees m s
    → s.child ≡ alive
    → (s.reaped ≡ false) × (s.done ≡ false)
alive_lem m s h f e = ground arith

main_step-watcher :
    (m : Main) (f : Bool) (s : Session)
    → let s' = main_step m f s in
      (s'.watcher ≡ s.watcher) × (s'.signals ≡ s.signals) × (s'.child ≡ alive → s.child ≡ alive)
unfolding main_step
main_step-watcher m f s = (ground arith, ground arith, λ e. ground arith)

watcher_step-IsKilled :
    (w : Watcher) (c : Choice) (s : Session)
    → (s.child ≡ alive → (s.reaped ≡ false) × (s.done ≡ false))
    → (w ≡ finished → s.child ≡ alive → IsKilled s)
    → s.watcher ≡ w
    → (watcher_step w c s).watcher ≡ finished
    → (watcher_step w c s).child ≡ alive
    → IsKilled (watcher_step w c s)
unfolding watcher_step signal_group
watcher_step-IsKilled w c s l k v e a = ground arith

step-IsKilled :
    (s : Session) (a : Action)
    → Inv s
    → (step s a).watcher ≡ finished
    → (step s a).child ≡ alive
    → IsKilled (step s a)
unfolding step
step-IsKilled s (main_moves f) v e a = ground (arith, main_step-watcher s.main f s, v.watcher)
step-IsKilled s (watcher_moves c) v e a =
    watcher_step-IsKilled s.watcher c s (alive_lem s.main s v.main v.finish) v.watcher refl e a
step-IsKilled s (child_ends status) v e a = ground (arith, v.watcher)
step-IsKilled s output_ends v e a = v.watcher e a
step-IsKilled s client_leaves v e a = v.watcher e a

step-Inv : (s : Session) (a : Action) → Inv s → Inv (step s a)
unfolding step
step-Inv s a v = record {
  main = step-MainAgrees s a v.main;
  finish = step-FinishAgrees s a v.finish;
  watcher = step-IsKilled s a v;
}

run-Inv : (s : Session) (as' : List Action) → Inv s → Inv (run s as')
unfolding run
run-Inv s [] v = v
run-Inv s (a ∷ as') v = run-Inv (step s a) as' (step-Inv s a v)

started-Inv : (pty : Bool) → Inv (started pty)
unfolding started
started-Inv pty = record {
  main = started-MainAgrees pty;
  finish = started-FinishAgrees pty;
  watcher = λ e a. cc;
}

-- The client leaves, and the watcher has its turns until the grace period is over.
abbrev pub hang_up : List Action
hang_up =
    client_leaves
    ∷ watcher_moves take_client
    ∷ watcher_moves take_client
    ∷ watcher_moves take_timer
    ∷ watcher_moves take_timer
    ∷ []

hang_up-finished : (w : Watcher) (s : Session) → s.watcher ≡ w → (run s hang_up).watcher ≡ finished
unfolding run step watcher_step signal_group
hang_up-finished w s e = ground arith

pub run-append : (s : Session) (as' bs : List Action) → run s (as' ++ bs) ≡ run (run s as') bs
unfolding run
run-append s [] bs = refl
run-append s (a ∷ as') bs = run-append (step s a) as' bs

-- From every state that a session can reach, if the client leaves then after the watcher's turns a
-- child that is still alive has been sent SIGKILL, and once the child has ended, in whatever way, and
-- no process holds its output any more, the handler gets to its end by its own turns and the
-- watcher's.
pub run-hang_up :
    (pty : Bool) (as' : List Action) (status : WaitStatus)
    → let s = run (run (started pty) as') hang_up in
      (s.child ≡ alive → IsKilled s) × ((run s (to_end status)).main ≡ returned)
run-hang_up pty as' status =
    let s = run (started pty) as' in
    let v = run-Inv s hang_up (run-Inv (started pty) as' (started-Inv pty)) in
    (
      v.watcher (hang_up-finished s.watcher s refl),
      ap (λ t. (run t (to_end status)).main) (sym (run-append (started pty) as' hang_up))
          ∙ run-to_end pty (as' ++ hang_up) status,
    )
