-- ===== src/Proxy/Health.antt =====
-- internal/proxy/targethealth.go, with probeTarget and handleTargetHealth of
-- internal/proxy/server.go.
--
-- The outcomes of the network calls of a probe are its arguments. A time is a number.
pub mod Reported
pub mod Prober
mod Examples
use workspace_websocket_prox.Base.{
  ℕ, suc, Bool, true, false, Option, none, some, List, [], ◌∷◌, if◌then◌else◌, ite, not, ◌||◌,
}
use workspace_websocket_prox.Base.Int.{ℤ, pos}
use workspace_websocket_prox.Base.Text.{Text, text_eq, strip_prefix}
use workspace_websocket_prox.Proxy.Metrics.{Metrics}

-- The errors of a probe, with what their messages are formatted from.
pub data ProbeError : Type 0 where
  dial_failed : Text → ProbeError
  deadline_failed : Text → ProbeError
  no_greeting : Text → ProbeError
  wrong_greeting : (banner : Text) → (prefix' : Text) → ProbeError

-- `err` is the error in place of its message, and none for the empty string.
pub record TargetHealth : Type 0 where
  pub checked : Bool
  pub reachable : Bool
  pub at : ℕ
  pub err : Option ProbeError

unfoldable pub new_target_health : TargetHealth
new_target_health = record { checked = false; reachable = false; at = 0; err = none }

-- What the network answers: the error of the dial, that of SetReadDeadline, and of ReadString the
-- greeting with its error.
pub record Target : Type 0 where
  pub dial : Option Text
  pub deadline : Option Text
  pub banner : Text
  pub read_error : Option Text

abbrev has_prefix : Text → Text → Bool
has_prefix banner prefix' = elim (strip_prefix prefix' banner) [ none ↦ false | some _ ↦ true ]

abbrev check_banner : Text → Text → Option ProbeError
check_banner prefix' banner =
    if has_prefix banner prefix' then none else some (wrong_greeting banner prefix')

-- A read that fails before it has read anything is an error.
abbrev greeted : Text → Option Text → Text → Option ProbeError
greeted prefix' (some e) [] = some (no_greeting e)
greeted prefix' e banner = check_banner prefix' banner

abbrev read_greeting : Text → Target → Option ProbeError
read_greeting prefix' t = elim (t.deadline) [
  | some e ↦ some (deadline_failed e)
  | none ↦ greeted prefix' t.read_error t.banner
]

abbrev dialed : Text → Target → Option Text → Option ProbeError
dialed prefix' t (some e) = some (dial_failed e)
dialed prefix' t none = ite (text_eq prefix' []) none (read_greeting prefix' t)

unfoldable pub probe_target : Text → Target → Option ProbeError
probe_target prefix' t = dialed prefix' t t.dial

-- targetHealth.record at the time `now`.
unfoldable pub record_result : ℕ → Bool → Option ProbeError → TargetHealth → TargetHealth
record_result now reachable e h = record {
  checked = true;
  reachable = reachable;
  at = now;
  err = e;
}

-- The part of Server that a probe writes.
pub record State : Type 0 where
  pub target_health : TargetHealth
  pub metrics : Metrics

abbrev is_none : Option ProbeError → Bool
is_none none = true
is_none (some e) = false

abbrev set_reachable : Option ProbeError → Metrics → Metrics
set_reachable none m = record m { target_reachable = pos 1 }
set_reachable (some e) m = record m { target_reachable = pos 0 }

-- One probe: whether its context was cancelled by the time it ended, when, and the target.
pub record Probe : Type 0 where
  pub canceled : Bool
  pub now : ℕ
  pub target : Target

unfoldable pub probe_once : Text → Probe → State → State
unfolding probe_target record_result
probe_once prefix' p s =
    let e = probe_target prefix' p.target in
    if p.canceled then s else record {
      target_health = record_result p.now (is_none e) e s.target_health;
      metrics = set_reachable e s.metrics;
    }

unfoldable pub probe_all : Text → List Probe → State → State
unfolding probe_once
probe_all prefix' [] s = s
probe_all prefix' (p ∷ ps) s = probe_all prefix' ps (probe_once prefix' p s)

-- A response: the status, and what the JSON body is made of besides the target.
pub data Body : Type 0 where
  unknown : Body
  ok : (checked_at : ℕ) → Body
  unreachable : (checked_at : ℕ) → (err : Option ProbeError) → Body

-- What snapshot copies under the lock.
pub record Snapshot : Type 0 where
  pub checked : Bool
  pub reachable : Bool
  pub at : ℕ
  pub err : Option ProbeError

unfoldable pub snapshot : TargetHealth → Snapshot
snapshot h = record { checked = h.checked; reachable = h.reachable; at = h.at; err = h.err }

abbrev answer : Snapshot → ℕ × Body
answer result =
    if not result.checked
    then (503, unknown)
    else if result.reachable
    then (200, ok result.at)
    else (503, unreachable result.at result.err)

unfoldable pub handle_target_health : TargetHealth → ℕ × Body
unfolding snapshot
handle_target_health h = answer (snapshot h)
