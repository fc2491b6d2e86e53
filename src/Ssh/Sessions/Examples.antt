-- ===== src/Ssh/Sessions/Examples.antt =====
-- One slot: a second session is turned away, and a third although the first has left.
use workspace_websocket_prox.Base.{ℕ, ◌+◌, ◌≤◌, ◌≡◌, ◌↔◌, refl, List, [], ◌∷◌, arith, All, tally}
use workspace_websocket_prox.Base.Int.{pos}
use workspace_websocket_prox.Ssh.Sessions.{
  entering, backing_out, finished, session_step, start, run,
}
use workspace_websocket_prox.Ssh.Sessions.Limit.{
  is_serving, is_backing_out, serving-le-max, entering-backing_out,
}
use workspace_websocket_prox.Ssh.Sessions.Unlimited.{IsAdmitted, IsAdmitted-run}

abbrev overlapping : List (ℕ × Unit {0})
overlapping = (0, tt) ∷ (1, tt) ∷ (0, tt) ∷ (2, tt) ∷ []

-- No session runs, and two are being turned away.
overlapping_threads :
    (run (start (pos 1) 3) overlapping).threads ≡ finished ∷ backing_out ∷ backing_out ∷ []
unfolding run start session_step
overlapping_threads = refl

serving-le-max_test : tally is_serving (run (start (pos 1) 3) overlapping).threads ≤ 1
serving-le-max_test = serving-le-max 1 (omega arith) 3 overlapping

entering-backing_out_example :
    let s = run (start (pos 1) 3) overlapping in
    ((session_step tt s.shared entering).1 ≡ backing_out)
    ↔ (1 ≤ tally is_serving s.threads + tally is_backing_out s.threads)
entering-backing_out_example = entering-backing_out 1 (omega arith) 3 overlapping

IsAdmitted-run_test :
    let s = run (start (pos 0) 3) overlapping in
    All IsAdmitted s.threads × (s.shared.sessions ≡ pos 0)
IsAdmitted-run_test = IsAdmitted-run (pos 0) (omega arith) 3 overlapping
