-- ===== src/Proxy/Site/Examples.antt =====
-- The HTTP server of internal/proxy/server.go: a request at capacity, and a health check then.
use workspace_websocket_prox.Base.{
  ℕ, ◌≡◌, ◌∙◌, ◌++◌, refl, ap, Bool, true, false, Option, none, some, List, [], ◌∷◌, length, ◌==◌,
}
use workspace_websocket_prox.Base.Int.{pos}
use workspace_websocket_prox.Base.Text.{Text, codes, text_eq, itoa}
use workspace_websocket_prox.Proxy.Health.Reported.{last_result}
use workspace_websocket_prox.Proxy.Session as Session
use workspace_websocket_prox.Proxy.Pages.{Fmt}
use workspace_websocket_prox.Proxy.Served.Refines.{held}
use workspace_websocket_prox.Proxy.Site.{
  Page, Mux, health_path, Event, requests, turns, probes, new_site, serve, run,
}
use workspace_websocket_prox.Proxy.Site.Routes.{pattern_of, IsMux, page_of}
use workspace_websocket_prox.Proxy.Site.Answers.{answer, probes_of, sockets, serve-run}

-- The pattern that is the path, or else `/`.
abbrev chosen : Option Page → List (Text × Page) → Option Page
chosen (some page) rs = some page
chosen none rs = pattern_of rs (codes "/")

abbrev two_rules : Mux
two_rules rs path = chosen (pattern_of rs path) rs

abbrev starts_with_slash : Text → Bool
starts_with_slash [] = false
starts_with_slash (c ∷ cs) = c == b'/'

two_rules-IsMux : IsMux two_rules starts_with_slash
two_rules-IsMux = record {
  exact = λ rs path page c e. ap (λ o. chosen o rs) e;
  rest = λ rs path page c e f all. ap (λ o. chosen o rs) e ∙ f;
}

abbrev fmt : Fmt
fmt = record { quote = λ s. b'"' ∷ s ++ b'"' ∷ []; rfc3339 = λ t. itoa t }

abbrev go : ℕ → Event
go i = turns i (record { ok = true; action = Session.main_moves true })

-- Two WebSockets for one slot, and a probe that fails.
abbrev events : List Event
events =
    requests (codes "/")
    ∷ go 0
    ∷ go 0
    ∷ requests (codes "/ssh")
    ∷ go 1
    ∷ probes (record {
      canceled = false;
      now = 5;
      target = record {
        dial = some (codes "refused");
        deadline = none;
        banner = [];
        read_error = none;
      };
    })
    ∷ []

abbrev target : Text
target = codes "localhost:2222"

serve-run_example :
    let s = run two_rules fmt target (codes "SSH-") (new_site (pos 1)) events in
    (serve two_rules fmt target (codes "SSH-") health_path s
      ≡ answer fmt target
          (page_of health_path)
          (held s.served)
          (last_result (codes "SSH-") (probes_of events) none)
          s)
    × (length s.served.threads ≡ sockets events)
serve-run_example =
    serve-run two_rules fmt target (codes "SSH-") starts_with_slash (pos 1) events health_path
      two_rules-IsMux (refl, (refl, tt)) refl

two_started : sockets events ≡ 2
unfolding text_eq
two_started = refl
