-- ===== src/Proxy/Health/Examples.antt =====
-- Probes of an SSH server.
use workspace_websocket_prox.Base.{◌≡◌, refl, true, false, none, some, List, [], ◌∷◌}
use workspace_websocket_prox.Base.Text.{Text, codes, strip_prefix, text_eq}
use workspace_websocket_prox.Proxy.Health.{
  Target, Probe, wrong_greeting, probe_target, probe_all, ok, handle_target_health,
}
use workspace_websocket_prox.Proxy.Health.Reported.{
  last_result, response, gauge, new_state, handle_target_health-probe_all,
}
use workspace_websocket_prox.Proxy.Health.Prober.{
  Action, starts, stops, stopper_moves, loop_moves, new_prober, run, IsStopped, run-IsStopped,
}

abbrev ssh : Text
ssh = codes "SSH-"

abbrev answering : Text → Target
answering banner = record { dial = none; deadline = none; banner = banner; read_error = none }

abbrev refusing : Target
refusing = record { dial = some (codes "refused"); deadline = none; banner = []; read_error = none }

good_greeting : probe_target ssh (answering (codes "SSH-2.0-Go")) ≡ none
unfolding probe_target text_eq strip_prefix
good_greeting = refl

bad_greeting :
    probe_target ssh (answering (codes "HTTP")) ≡ some (wrong_greeting (codes "HTTP") ssh)
unfolding probe_target text_eq strip_prefix
bad_greeting = refl

-- A failure, a success, and a probe that the shutdown cancels.
abbrev probes : List Probe
probes =
    record { canceled = false; now = 1; target = refusing }
    ∷ record { canceled = false; now = 2; target = answering (codes "SSH-2.0-Go") }
    ∷ record { canceled = true; now = 3; target = refusing }
    ∷ []

handle_target_health-probe_all_test :
    (handle_target_health (probe_all ssh probes new_state).target_health
      ≡ response (last_result ssh probes none))
    × ((probe_all ssh probes new_state).metrics.target_reachable
        ≡ gauge (last_result ssh probes none))
handle_target_health-probe_all_test = handle_target_health-probe_all ssh probes

probes_end : response (last_result ssh probes none) ≡ (200, ok 2)
unfolding probe_target text_eq strip_prefix
probes_end = refl

abbrev lifetime : List Action
lifetime =
    starts
    ∷ starts
    ∷ loop_moves true
    ∷ loop_moves true
    ∷ stops
    ∷ stopper_moves
    ∷ loop_moves true
    ∷ loop_moves false
    ∷ stopper_moves
    ∷ starts
    ∷ []

run-IsStopped_test : IsStopped (run new_prober lifetime)
run-IsStopped_test = run-IsStopped lifetime
