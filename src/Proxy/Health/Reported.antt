-- ===== src/Proxy/Health/Reported.antt =====
-- What the health endpoint and the gauge report.
use workspace_websocket_prox.Base.{
  ℕ, ◌≡◌, refl, Bool, true, false, Option, none, some, List, [], ◌∷◌, if◌then◌else◌,
}
use workspace_websocket_prox.Base.Int.{ℤ, pos}
use workspace_websocket_prox.Base.Text.{Text}
use workspace_websocket_prox.Proxy.Metrics.{new_metrics}
use workspace_websocket_prox.Proxy.Health.{
  new_target_health, ProbeError, probe_target, record_result, State, Probe, probe_once, probe_all,
  Body, unknown, ok, unreachable, handle_target_health,
}

-- The outcome of the last probe that was not cancelled, after `last`.
abbrev pub Last : Type 0
Last = Option (ℕ × Option ProbeError)

abbrev pub last_result : Text → List Probe → Last → Last
last_result prefix' [] last = last
last_result prefix' (p ∷ ps) last =
    last_result prefix' ps
      (if p.canceled then last else some (p.now, probe_target prefix' p.target))

-- The response and the gauge for such an outcome.
abbrev pub response : Last → ℕ × Body
response none = (503, unknown)
response (some (at, none)) = (200, ok at)
response (some (at, some e)) = (503, unreachable at (some e))

abbrev pub gauge : Last → ℤ
gauge (some (at, none)) = pos 1
gauge _ = pos 0

abbrev pub Agrees : State → Last → Type 0
Agrees s last =
    (handle_target_health s.target_health ≡ response last)
    × (s.metrics.target_reachable ≡ gauge last)

pub probed :
    (prefix' : Text) (p : Probe) (s : State) (last : Last) (b : Bool) (e : Option ProbeError)
    → p.canceled ≡ b
    → probe_target prefix' p.target ≡ e
    → Agrees s last
    → Agrees (probe_once prefix' p s) (if b then last else some (p.now, e))
unfolding probe_once record_result handle_target_health
probed prefix' p s last true e c t h = rw c h
probed prefix' p s last false none c t h = rw (c, t) (refl, refl)
probed prefix' p s last false (some e) c t h = rw (c, t) (refl, refl)

probe_all-Agrees :
    (prefix' : Text) (ps : List Probe) (s : State) (last : Last)
    → Agrees s last
    → Agrees (probe_all prefix' ps s) (last_result prefix' ps last)
unfolding probe_all
probe_all-Agrees prefix' [] s last h = h
probe_all-Agrees prefix' (p ∷ ps) s last h =
    probe_all-Agrees prefix' ps (probe_once prefix' p s)
      (if p.canceled then last else some (p.now, probe_target prefix' p.target))
      (probed prefix' p s last p.canceled (probe_target prefix' p.target) refl refl h)

abbrev pub new_state : State
new_state = record { target_health = new_target_health; metrics = new_metrics }

pub new_state-Agrees : Agrees new_state none
unfolding handle_target_health new_target_health
new_state-Agrees = (refl, refl)

-- After any probes, the endpoint answers 200 and the gauge is 1 exactly when the last probe that
-- was not cancelled succeeded; otherwise it answers 503, with the time and the error of that
-- probe, or as unknown if there was none.
pub handle_target_health-probe_all :
    (prefix' : Text) (ps : List Probe)
    → (handle_target_health (probe_all prefix' ps new_state).target_health
        ≡ response (last_result prefix' ps none))
      × ((probe_all prefix' ps new_state).metrics.target_reachable
          ≡ gauge (last_result prefix' ps none))
handle_target_health-probe_all prefix' ps =
    probe_all-Agrees prefix' ps new_state none new_state-Agrees
