-- ===== src/Proxy/Session/Over.antt =====
-- A session ends by its longest duration alone.
use workspace_websocket_prox.Base.{◌≡◌, refl, Bool, true, false, List, [], ◌∷◌, arith}
use workspace_websocket_prox.Proxy.Session.{
  Main, setting_deadline, dialing, selecting, stopping, cancelling, joining, closing, observing,
  returned, Ping, ended, Session, new_session, run_step, see_done, ping_step, timer_step, Action,
  main_moves, ping_moves, timer_moves, step, run,
}
use workspace_websocket_prox.Proxy.Session.Ends.{
  MainAgrees, MainAgrees-run, reachable-MainAgrees, IsReturned,
}

-- The first two calls succeed or fail, the timer runs out, its function waits for the grace period,
-- and each goroutine gets its turn. Neither the client nor the target does anything.
abbrev pub to_end : Bool → List Action
to_end ok =
    main_moves ok
    ∷ main_moves ok
    ∷ timer_moves
    ∷ timer_moves
    ∷ timer_moves
    ∷ main_moves false
    ∷ main_moves false
    ∷ main_moves false
    ∷ ping_moves see_done
    ∷ main_moves false
    ∷ main_moves false
    ∷ main_moves false
    ∷ []

abbrev Settled : Main → Type 0
Settled setting_deadline = ⊥
Settled dialing = ⊥
Settled _ = Unit {0}

-- In the select only with an ended context.
abbrev Leaving : Main → Bool → Type 0
Leaving setting_deadline c = ⊥
Leaving dialing c = ⊥
Leaving selecting c = c ≡ true
Leaving _ c = Unit {0}

abbrev Later : Main → Type 0
Later (closing r) = Unit {0}
Later (observing r) = Unit {0}
Later (returned r) = Unit {0}
Later _ = ⊥

-- Past s.cancel.
abbrev Late : Main → Type 0
Late (joining r) = Unit {0}
Late m = Later m

abbrev Joined : Main → Ping → Type 0
Joined (joining r) p = p ≡ ended
Joined m p = Later m

module _ (s : Session) where
  settles :
      (m : Main) (ok : Bool)
      → s.main ≡ m
      → Settled (run s (main_moves ok ∷ main_moves ok ∷ [])).main
  unfolding run step run_step
  settles setting_deadline ok e = ground arith
  settles dialing ok e = ground arith
  settles selecting ok e = ground arith
  settles (stopping r) ok e = ground arith
  settles (cancelling r) ok e = ground arith
  settles (joining r) ok e = ground arith
  settles (closing r) ok e = ground arith
  settles (observing r) ok e = ground arith
  settles (returned r) ok e = ground arith

  runs_out :
      (m : Main)
      → s.main ≡ m
      → Settled m
      → MainAgrees m s
      → Leaving
          (run s (timer_moves ∷ timer_moves ∷ timer_moves ∷ [])).main
          (run s (timer_moves ∷ timer_moves ∷ timer_moves ∷ [])).cancelled
  unfolding run step timer_step
  runs_out setting_deadline e l h = absurd l
  runs_out dialing e l h = absurd l
  runs_out selecting e l h = ground arith
  runs_out (stopping r) e l h = ground arith
  runs_out (cancelling r) e l h = ground arith
  runs_out (joining r) e l h = ground arith
  runs_out (closing r) e l h = ground arith
  runs_out (observing r) e l h = ground arith
  runs_out (returned r) e l h = ground arith

  leaves :
      (m : Main)
      → s.main ≡ m
      → Leaving m s.cancelled
      → Late (run s (main_moves false ∷ main_moves false ∷ main_moves false ∷ [])).main
  unfolding run step run_step
  leaves setting_deadline e l = absurd l
  leaves dialing e l = absurd l
  leaves selecting e l = ground arith
  leaves (stopping r) e l = ground arith
  leaves (cancelling r) e l = ground arith
  leaves (joining r) e l = ground arith
  leaves (closing r) e l = ground arith
  leaves (observing r) e l = ground arith
  leaves (returned r) e l = ground arith

  joins :
      (m : Main)
      → s.main ≡ m
      → Late m
      → MainAgrees m s
      → Joined (run s (ping_moves see_done ∷ [])).main (run s (ping_moves see_done ∷ [])).ping
  unfolding run step ping_step
  joins setting_deadline e l h = absurd l
  joins dialing e l h = absurd l
  joins selecting e l h = absurd l
  joins (stopping r) e l h = absurd l
  joins (cancelling r) e l h = absurd l
  joins (joining r) e l h = ground arith
  joins (closing r) e l h = ground arith
  joins (observing r) e l h = ground arith
  joins (returned r) e l h = ground arith

  returns :
      (m : Main)
      → s.main ≡ m
      → Joined m s.ping
      → IsReturned (run s (main_moves false ∷ main_moves false ∷ main_moves false ∷ [])).main
  unfolding run step run_step
  returns setting_deadline e l = absurd l
  returns dialing e l = absurd l
  returns selecting e l = absurd l
  returns (stopping r) e l = absurd l
  returns (cancelling r) e l = absurd l
  returns (joining r) e l = ground arith
  returns (closing r) e l = ground arith
  returns (observing r) e l = ground arith
  returns (returned r) e l = ground arith

end_lem : (s : Session) (ok : Bool) → MainAgrees s.main s → IsReturned (run s (to_end ok)).main
unfolding run
end_lem s ok h =
    let first = main_moves ok ∷ main_moves ok ∷ [] in
    let out = timer_moves ∷ timer_moves ∷ timer_moves ∷ [] in
    let three = main_moves false ∷ main_moves false ∷ main_moves false ∷ [] in
    let s₁ = run s first in
    let s₂ = run s₁ out in
    let s₃ = run s₂ three in
    let s₄ = run s₃ (ping_moves see_done ∷ []) in
    let h₁ = MainAgrees-run s first h in
    let h₂ = MainAgrees-run s₁ out h₁ in
    let h₃ = MainAgrees-run s₂ three h₂ in
    let l₂ = runs_out s₁ s₁.main refl (settles s s.main ok refl) h₁ in
    let l₃ = leaves s₂ s₂.main refl l₂ in
    let l₄ = joins s₃ s₃.main refl l₃ h₃ in returns s₄ s₄.main refl l₄

-- From every state that a session can reach, Run returns on the schedule in which the timer of the
-- longest duration runs out and the goroutines get their turns, though neither the client nor the
-- target does anything and no context outside ends.
pub IsReturned-to_end :
    (as' : List Action) (ok : Bool) → IsReturned (run (run new_session as') (to_end ok)).main
IsReturned-to_end as' ok = end_lem (run new_session as') ok (reachable-MainAgrees as')
