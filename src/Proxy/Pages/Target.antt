-- ===== src/Proxy/Pages/Target.antt =====
-- handleTargetHealth of internal/proxy/server.go: its page is JSON, whatever the target greets with.
use workspace_websocket_prox.Base.{
  ℕ, ◌≡◌, ◌∙◌, refl, ap, Bool, true, Option, none, some, List, [], ◌∷◌, arith, All, if_both,
}
use workspace_websocket_prox.Base.Text.{Text, codes}
use workspace_websocket_prox.Proxy.Health.{
  ProbeError, dial_failed, deadline_failed, no_greeting, wrong_greeting, Target, Probe,
  probe_target, probe_all,
}
use workspace_websocket_prox.Proxy.Health.Reported.{
  Last, last_result, response, new_state, handle_target_health-probe_all,
}
use workspace_websocket_prox.Proxy.Serving.{Response}
use workspace_websocket_prox.Proxy.Pages.{Fmt, pieces, trim_line_end, message, page, target_page}
use workspace_websocket_prox.Proxy.Pages.Json.{read_member, read_members, read_object}
use workspace_websocket_prox.Proxy.Pages.Quoting.{IsFmt, read_string-quote}

-- The members of the page for the outcome of a probe.
abbrev pub members : Fmt → Text → Last → List (Text × Text)
members f target none = (codes "status", codes "unknown") ∷ (codes "target", target) ∷ []
members f target (some (at, none)) =
    (codes "status", codes "ok") ∷ (codes "target", target) ∷ (codes "checkedAt", f.rfc3339 at) ∷ []
members f target (some (at, some e)) =
    (codes "status", codes "unreachable")
    ∷ (codes "target", target)
    ∷ (codes "checkedAt", f.rfc3339 at)
    ∷ (codes "error", message f e)
    ∷ []

abbrev pub status : Last → ℕ
status (some (at, none)) = 200
status _ = 503

response-status : (last : Last) → (response last).0 ≡ status last
response-status none = refl
response-status (some (at, none)) = refl
response-status (some (at, some e)) = refl

module _ (is_printable : Text → Bool) where
  abbrev Printable : Option Text → Type 0
  Printable none = Unit {0}
  Printable (some e) = is_printable e ≡ true

  -- The texts of the network's errors are printable; the greeting is any text.
  abbrev pub IsPlain : Target → Type 0
  IsPlain t = Printable t.dial × Printable t.deadline × Printable t.read_error

  abbrev IsPlainError : Option ProbeError → Type 0
  IsPlainError (some (dial_failed e)) = is_printable e ≡ true
  IsPlainError (some (deadline_failed e)) = is_printable e ≡ true
  IsPlainError (some (no_greeting e)) = is_printable e ≡ true
  IsPlainError _ = Unit {0}

  probe_target-IsPlainError :
      (prefix' : Text) (t : Target) → IsPlain t → IsPlainError (probe_target prefix' t)
  unfolding probe_target
  probe_target-IsPlainError prefix' t h = ground arith

  pieces-printable :
      (f : Fmt) (ts : List Text)
      → IsFmt f is_printable
      → All (λ t. is_printable t ≡ true) ts
      → is_printable (pieces ts) ≡ true
  pieces-printable f [] d h = d.ascii-printable [] tt
  pieces-printable f (t ∷ ts) d (h, hs) =
      d.append-printable t (pieces ts) h (pieces-printable f ts d hs)

  message-printable :
      (f : Fmt) (e : ProbeError)
      → IsFmt f is_printable
      → IsPlainError (some e)
      → is_printable (message f e) ≡ true
  unfolding message
  message-printable f (dial_failed e) d h = h
  message-printable f (deadline_failed e) d h =
      pieces-printable f (codes "failed to set read deadline: " ∷ e ∷ []) d
        (d.ascii-printable _ (ground arith), (h, tt))
  message-printable f (no_greeting e) d h =
      pieces-printable f (codes "connected but read no greeting: " ∷ e ∷ []) d
        (d.ascii-printable _ (ground arith), (h, tt))
  message-printable f (wrong_greeting banner prefix') d h =
      pieces-printable f
        (codes "greeting "
          ∷ f.quote (trim_line_end banner)
          ∷ codes " does not start with "
          ∷ f.quote prefix'
          ∷ [])
        d
        (
          d.ascii-printable (codes "greeting ") (ground arith),
          (
            d.quote-printable (trim_line_end banner),
            (
              d.ascii-printable (codes " does not start with ") (ground arith),
              (d.quote-printable prefix', tt),
            ),
          ),
        )

  abbrev IsPlainLast : Last → Type 0
  IsPlainLast none = Unit {0}
  IsPlainLast (some (at, e)) = IsPlainError e

  last_result-IsPlainLast :
      (prefix' : Text) (ps : List Probe) (last : Last)
      → All (λ p. IsPlain p.target) ps
      → IsPlainLast last
      → IsPlainLast (last_result prefix' ps last)
  last_result-IsPlainLast prefix' [] last h l = l
  last_result-IsPlainLast prefix' (p ∷ ps) last (h, hs) l =
      last_result-IsPlainLast prefix' ps _ hs
        (if_both IsPlainLast p.canceled l (probe_target-IsPlainError prefix' p.target h))

  abbrev written : Fmt → Text → Last → Response
  written f target last = page f target (response last)

  read_object-written :
      (f : Fmt) (target : Text) (last : Last)
      → IsFmt f is_printable
      → is_printable target ≡ true
      → IsPlainLast last
      → read_object 4 (written f target last).body ≡ some (members f target last)
  unfolding read_object read_members read_member
  read_object-written f target none d p l = rw (read_string-quote f is_printable target _ d p)
  read_object-written f target (some (at, none)) d p l = rw (
    read_string-quote f is_printable target _ d p,
    read_string-quote f is_printable (f.rfc3339 at) _ d (d.rfc3339-printable at),
  )
  read_object-written f target (some (at, some e)) d p l = rw (
    read_string-quote f is_printable target _ d p,
    read_string-quote f is_printable (f.rfc3339 at) _ d (d.rfc3339-printable at),
    read_string-quote f is_printable (message f e) _ d (message-printable f e d l),
  )

-- After any probes the page for /health/target is a JSON object, and a reader of JSON gets back
-- from it the target, the outcome of the last probe that was not cancelled, with its time and the
-- error's message, and the status tells whether that succeeded, if the target's address and the
-- texts of the network's errors are printable: the greeting may be any bytes.
pub read_object-target_page :
    (f : Fmt) (is_printable : Text → Bool) (target prefix' : Text) (ps : List Probe)
    → IsFmt f is_printable
    → is_printable target ≡ true
    → All (λ p. IsPlain is_printable p.target) ps
    → let r = target_page f target (probe_all prefix' ps new_state).target_health in
      let last = last_result prefix' ps none in
      (r.status ≡ status last) × (read_object 4 r.body ≡ some (members f target last))
unfolding target_page
read_object-target_page f is_printable target prefix' ps d p h =
    let (e, g) = handle_target_health-probe_all prefix' ps in
    let last = last_result prefix' ps none in
    (
      ap (λ r. r.0) e ∙ response-status last,
      ap (λ r. read_object 4 (page f target r).body) e
          ∙ read_object-written is_printable f target last d p
              (last_result-IsPlainLast is_printable prefix' ps none h tt),
    )
