-- ===== src/Ssh/Sessions/Limit.antt =====
-- With a positive MaxSessions: the bound, and exactly when a session is refused.
use workspace_websocket_prox.Base.{
  ℕ, ◌+◌, ◌≤◌, ◌<◌, ◌≡◌, ◌↔◌, refl, List, arith, some, get_elem?, tally, tally-set, tally-ge,
  tally-replicate,
}
use workspace_websocket_prox.Base.Int.{pos}
use workspace_websocket_prox.Base.Threads.{accessed, run_inv}
use workspace_websocket_prox.Ssh.Sessions.{
  Slots, Stage, entering, backing_out, serving, session_step, Sessions, start, run,
}

abbrev pub is_serving : Stage → ℕ
is_serving serving = 1
is_serving _ = 0

abbrev pub is_backing_out : Stage → ℕ
is_backing_out backing_out = 1
is_backing_out _ = 0

module _ (max : ℕ) (limited : 0 < max) where
  -- The count stands for the sessions served and those about to be refused.
  record Counts (s : Slots) (held back : ℕ) : Type 0 where
    limit : s.max_sessions ≡ pos max
    count : s.sessions ≡ pos (held + back)
    within : held ≤ max

  abbrev Inv : Sessions → Type 0
  Inv s = Counts s.shared (tally is_serving s.threads) (tally is_backing_out s.threads)

  session_step-Counts :
      (a : Unit {0}) (s : Slots) (p : Stage) (h b h' b' : ℕ)
      → Counts s h b
      → is_serving p ≤ h
      → is_backing_out p ≤ b
      → let q = (session_step a s p).1 in
        h' + is_serving p ≡ h + is_serving q
        → b' + is_backing_out p ≡ b + is_backing_out q
        → Counts (session_step a s p).0 h' b'
  unfolding session_step
  session_step-Counts a s entering h b h' b' v hp bp dh db = ground arith
  session_step-Counts a s backing_out h b h' b' v hp bp dh db = ground arith
  session_step-Counts a s serving h b h' b' v hp bp dh db = ground arith
  session_step-Counts a s _ h b h' b' v hp bp dh db = ground arith

  access-Inv :
      (s : Sessions) (i : ℕ) (a : Unit {0}) (p : Stage)
      → get_elem? s.threads i ≡ some p
      → Inv s
      → Inv (accessed session_step s i a p)
  access-Inv s i a p e v =
      let q = (session_step a s.shared p).1 in
      session_step-Counts a s.shared p _ _ _ _ v (tally-ge is_serving s.threads i p e)
        (tally-ge is_backing_out s.threads i p e) (tally-set is_serving s.threads i p q e)
        (tally-set is_backing_out s.threads i p q e)

  start-Inv : (n : ℕ) → Inv (start (pos max) n)
  unfolding start
  start-Inv n = record {
    limit = refl;
    count = rw (
      tally-replicate is_serving n entering refl,
      tally-replicate is_backing_out n entering refl,
    );
    within = omega (arith, tally-replicate is_serving n entering refl);
  }

  reached-Inv : (n : ℕ) (cs : List (ℕ × Unit {0})) → Inv (run (start (pos max) n) cs)
  unfolding run
  reached-Inv n cs = run_inv session_step Inv access-Inv (start (pos max) n) cs (start-Inv n)

  -- With a positive MaxSessions no schedule lets more than MaxSessions sessions run at once.
  pub serving-le-max :
      (n : ℕ) (cs : List (ℕ × Unit {0}))
      → tally is_serving (run (start (pos max) n) cs).threads ≤ max
  serving-le-max n cs = (reached-Inv n cs).within

  -- With a positive MaxSessions, a session is turned away exactly when those running and those that
  -- are being turned away, but have not given their count back yet, together reach MaxSessions.
  pub entering-backing_out :
      (n : ℕ) (cs : List (ℕ × Unit {0}))
      → let s = run (start (pos max) n) cs in
        ((session_step tt s.shared entering).1 ≡ backing_out)
        ↔ (max ≤ tally is_serving s.threads + tally is_backing_out s.threads)
  unfolding session_step
  entering-backing_out n cs = let v = reached-Inv n cs in (λ h. ground arith, λ h. ground arith)
