-- ===== src/Ssh/Window/Examples.antt =====
-- A resize during teardown.
use workspace_websocket_prox.Base.{◌≡◌, refl, List, [], ◌∷◌}
use workspace_websocket_prox.Ssh.Window.{
  Action, main_moves, resizer_moves, take_window, watched, main_step, resizer_step, set_winsize,
  step, run, resized_closed-run, finishing, to_finish, run-to_finish,
}

abbrev late_resize : List Action
late_resize =
    main_moves
    ∷ resizer_moves take_window
    ∷ main_moves
    ∷ main_moves
    ∷ main_moves
    ∷ resizer_moves take_window
    ∷ []

late_resize_counted : (run watched late_resize).resized ≡ 1
unfolding run step main_step resizer_step set_winsize watched
late_resize_counted = refl

resized_closed-run_test : (run watched late_resize).resized_closed ≡ 0
resized_closed-run_test = resized_closed-run late_resize

late_resize_finishes : (run (run watched late_resize) to_finish).main ≡ finishing
late_resize_finishes = run-to_finish late_resize
