-- ===== src/Proxy/Pages.antt =====
-- internal/proxy/server.go: the pages of handleTargetHealth, with the messages of probeTarget's
-- errors. What they call of packages fmt and time is a parameter.
pub mod Json
pub mod Quoting
pub mod Target
mod Examples
use workspace_websocket_prox.Base.{
  ℕ, ◌≡◌, Bool, true, Option, none, some, List, [], ◌∷◌, ◌++◌, if◌then◌else◌, ◌==◌, ◌||◌,
}
use workspace_websocket_prox.Base.Text.{Text, codes}
use workspace_websocket_prox.Proxy.Health.{
  ProbeError, dial_failed, deadline_failed, no_greeting, wrong_greeting, TargetHealth, Body,
  unknown, ok, unreachable, handle_target_health,
}
use workspace_websocket_prox.Proxy.Serving.{Response}

-- The verb `%q` of fmt, and Time.Format with time.RFC3339 of a time in UTC.
pub record Fmt : Type 0 where
  pub quote : Text → Text
  pub rfc3339 : ℕ → Text

-- `strings.TrimRight(s, "\r\n")`
unfoldable pub trim_line_end : Text → Text
trim_line_end [] = []
trim_line_end (c ∷ cs) = elim (trim_line_end cs) [
  | [] ↦ if c == 13 || c == 10 then [] else c ∷ []
  | d ∷ ds ↦ c ∷ d ∷ ds
]

-- A format with its arguments in their places.
abbrev pub pieces : List Text → Text
pieces [] = []
pieces (t ∷ ts) = t ++ pieces ts

-- The message of an error of a probe; that of a failed dial is the dialer's.
unfoldable pub message : Fmt → ProbeError → Text
unfolding trim_line_end
message f (dial_failed e) = e
message f (deadline_failed e) = pieces (codes "failed to set read deadline: " ∷ e ∷ [])
message f (no_greeting e) = pieces (codes "connected but read no greeting: " ∷ e ∷ [])
message f (wrong_greeting banner prefix') = pieces (
    codes "greeting "
    ∷ f.quote (trim_line_end banner)
    ∷ codes " does not start with "
    ∷ f.quote prefix'
    ∷ [])

-- The empty string without an error.
abbrev pub err_text : Fmt → Option ProbeError → Text
err_text f none = []
err_text f (some e) = message f e

abbrev body_text : Fmt → Text → Body → Text
body_text f target unknown =
    pieces (codes "{\"status\":\"unknown\",\"target\":" ∷ f.quote target ∷ codes "}" ∷ [])
body_text f target (ok at) = pieces (
    codes "{\"status\":\"ok\",\"target\":"
    ∷ f.quote target
    ∷ codes ",\"checkedAt\":"
    ∷ f.quote (f.rfc3339 at)
    ∷ codes "}"
    ∷ [])
body_text f target (unreachable at e) = pieces (
    codes "{\"status\":\"unreachable\",\"target\":"
    ∷ f.quote target
    ∷ codes ",\"checkedAt\":"
    ∷ f.quote (f.rfc3339 at)
    ∷ codes ",\"error\":"
    ∷ f.quote (err_text f e)
    ∷ codes "}"
    ∷ [])

abbrev pub page : Fmt → Text → ℕ × Body → Response
page f target (status, body) = record {
  status = status;
  content_type = codes "application/json";
  body = body_text f target body;
}

-- The response to a request for /health/target.
unfoldable pub target_page : Fmt → Text → TargetHealth → Response
unfolding message handle_target_health
target_page f target h = page f target (handle_target_health h)
