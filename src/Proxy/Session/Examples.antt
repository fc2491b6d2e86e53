-- ===== src/Proxy/Session/Examples.antt =====
-- Runs of one session.
use workspace_websocket_prox.Base.{◌≡◌, refl, true, false, some, List, [], ◌∷◌}
use workspace_websocket_prox.Proxy.Session.{
  canceled, returned, new_session, run_step, ping_step, timer_step, bridge_step, see_done, Action,
  main_moves, ping_moves, timer_moves, step, run,
}
use workspace_websocket_prox.Proxy.Session.Ends.{IsReturned, IsTornDown, run-IsTornDown}
use workspace_websocket_prox.Proxy.Session.Over.{to_end, IsReturned-to_end}
use workspace_websocket_prox.Proxy.Session.Counted.{IsCountedOnce, run-IsCountedOnce}

-- The session reaches its longest duration, and the client does not react.
abbrev over_time : List Action
over_time =
    main_moves true
    ∷ main_moves true
    ∷ timer_moves
    ∷ timer_moves
    ∷ timer_moves
    ∷ main_moves false
    ∷ main_moves true
    ∷ main_moves true
    ∷ ping_moves see_done
    ∷ main_moves true
    ∷ main_moves true
    ∷ main_moves true
    ∷ []

over_time_end : (run new_session over_time).main ≡ returned (some canceled)
unfolding run step run_step ping_step timer_step bridge_step new_session
over_time_end = refl

over_time-IsReturned : IsReturned (run new_session over_time).main
unfolding run step run_step ping_step timer_step bridge_step new_session
over_time-IsReturned = tt

run-IsTornDown_example :
    IsTornDown (run new_session over_time) × ((run new_session over_time).observed ≡ 1)
run-IsTornDown_example = run-IsTornDown over_time over_time-IsReturned

IsReturned-to_end_test :
    IsReturned (run (run new_session (timer_moves ∷ main_moves true ∷ [])) (to_end true)).main
IsReturned-to_end_test = IsReturned-to_end (timer_moves ∷ main_moves true ∷ []) true

run-IsCountedOnce_test : IsCountedOnce (run new_session over_time)
run-IsCountedOnce_test = run-IsCountedOnce over_time
