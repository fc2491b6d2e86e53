-- ===== src/Ssh/Sessions/Unlimited.antt =====
-- With MaxSessions at 0 or below no session is ever turned away, and nothing is counted.
use workspace_websocket_prox.Base.{
  ℕ, ◌≡◌, ◌∙◌, ap, refl, List, arith, some, All, All-set, All-get_elem?, All-replicate, get_elem?,
}
use workspace_websocket_prox.Base.Int.{ℤ, pos, ◌≤ℤ◌}
use workspace_websocket_prox.Base.Threads.{accessed, run_inv}
use workspace_websocket_prox.Ssh.Sessions.{
  Slots, Stage, entering, backing_out, refused, serving, finished, session_step, Sessions, start,
  run,
}

abbrev pub IsAdmitted : Stage → Type 0
IsAdmitted backing_out = ⊥
IsAdmitted refused = ⊥
IsAdmitted _ = Unit {0}

module _ (max : ℤ) (unlimited : max ≤ℤ pos 0) where
  record Inv (s : Sessions) : Type 0 where
    limit : s.shared.max_sessions ≡ max
    none_counted : s.shared.sessions ≡ pos 0
    admitted : All IsAdmitted s.threads

  session_step_unlimited :
      (a : Unit {0}) (s : Slots) (p : Stage)
      → s.max_sessions ≡ max
      → IsAdmitted p
      → ((session_step a s p).0 ≡ s) × IsAdmitted (session_step a s p).1
  unfolding session_step
  session_step_unlimited a s entering e h = ground arith
  session_step_unlimited a s serving e h = ground arith
  session_step_unlimited a s backing_out e h = absurd h
  session_step_unlimited a s refused e h = absurd h
  session_step_unlimited a s finished e h = (refl, tt)

  access-Inv :
      (s : Sessions) (i : ℕ) (a : Unit {0}) (p : Stage)
      → get_elem? s.threads i ≡ some p
      → Inv s
      → Inv (accessed session_step s i a p)
  access-Inv s i a p e v =
      let (same, next) =
        session_step_unlimited a s.shared p v.limit
          (All-get_elem? IsAdmitted s.threads i v.admitted e) in
      record {
        limit = ap (λ (t : Slots). t.max_sessions) same ∙ v.limit;
        none_counted = ap (λ (t : Slots). t.sessions) same ∙ v.none_counted;
        admitted = All-set IsAdmitted s.threads i _ v.admitted next;
      }

  start-Inv : (n : ℕ) → Inv (start max n)
  unfolding start
  start-Inv n = record {
    limit = refl;
    none_counted = refl;
    admitted = All-replicate IsAdmitted n tt;
  }

  pub IsAdmitted-run :
      (n : ℕ) (cs : List (ℕ × Unit {0}))
      → let s = run (start max n) cs in All IsAdmitted s.threads × (s.shared.sessions ≡ pos 0)
  unfolding run
  IsAdmitted-run n cs =
      let v = run_inv session_step Inv access-Inv (start max n) cs (start-Inv n) in
      (v.admitted, v.none_counted)
