-- ===== src/Proxy/Site/Answers.antt =====
-- The HTTP server of internal/proxy/server.go: what its requests are answered, and which of them
-- start a session, while everything else goes on.
use workspace_websocket_prox.Base.{
  ℕ, ◌+◌, ◌≡◌, ◌∙◌, inl, inr, refl, sym, ap, subst, Bool, true, Option, none, some, List, [], ◌∷◌,
  ◌++◌, arith, length, length-append, length-set, tally-map,
}
use workspace_websocket_prox.Base.Int.{ℤ, pos}
use workspace_websocket_prox.Base.Text.{Text, codes, itoa, decimal_text}
use workspace_websocket_prox.Base.Threads
use workspace_websocket_prox.Base.Threads.{System, accessed, step_inv}
use workspace_websocket_prox.Proxy.Health.{Probe, State, probe_target}
use workspace_websocket_prox.Proxy.Health.Reported.{
  Last, Agrees, last_result, response, probed, new_state-Agrees,
}
use workspace_websocket_prox.Proxy.Slots.{active_count}
use workspace_websocket_prox.Proxy.Connections.{Server, Stage, handle_step}
use workspace_websocket_prox.Proxy.Connections.Counts.{holds}
use workspace_websocket_prox.Proxy.Serving.{Response, health_body, handle_health}
use workspace_websocket_prox.Proxy.Pages.{Fmt, page, target_page}
use workspace_websocket_prox.Proxy.Served.{
  Handler, Turn, turn_step, succeeds, in_run, handler_step, arriving, start,
}
use workspace_websocket_prox.Base.Nested as Nested
use workspace_websocket_prox.Base.Nested.{stages}
use workspace_websocket_prox.Proxy.Served.Refines.{held}
use workspace_websocket_prox.Proxy.Site.{
  probed as probed_site, Page, health, target_health, metrics, web_socket, Mux, Site, new_site,
  joined, turned, answered, serve, Event, requests, turns, probes, step, run,
}
use workspace_websocket_prox.Proxy.Site.Routes.{IsMux, page_of, mux-page_of}
use workspace_websocket_prox.Proxy.Site.Counted.{reached-Counts}

-- What the prober writes of the Server.
abbrev view : Site → State
view s = record { target_health = s.target_health; metrics = s.served.shared.metrics }

-- The probes among the events, in order.
abbrev pub probes_of : List Event → List Probe
probes_of [] = []
probes_of (probes p ∷ es) = p ∷ probes_of es
probes_of (e ∷ es) = probes_of es

-- The requests for a path other than those of the three pages.
abbrev pub is_socket : Page → ℕ
is_socket web_socket = 1
is_socket _ = 0

abbrev pub sockets : List Event → ℕ
sockets [] = 0
sockets (requests path ∷ es) = is_socket (page_of path) + sockets es
sockets (e ∷ es) = sockets es

-- ServeMux redirects none of the requests.
abbrev pub AllClean : (Text → Bool) → List Event → Type 0
AllClean is_clean [] = Unit {0}
AllClean is_clean (requests path ∷ es) = (is_clean path ≡ true) × AllClean is_clean es
AllClean is_clean (e ∷ es) = AllClean is_clean es

handle_step-reachable :
    (ok : Bool) (s : Server) (p : Stage)
    → (handle_step ok s p).0.metrics.target_reachable ≡ s.metrics.target_reachable
unfolding handle_step
handle_step-reachable ok s p = ground arith

turned-reachable :
    (i : ℕ) (a : Turn) (s : Site)
    → (turned i a s).served.shared.metrics.target_reachable
      ≡ s.served.shared.metrics.target_reachable
unfolding Threads.step
turned-reachable i a s =
    step_inv handler_step
      (λ t. t.shared.metrics.target_reachable ≡ s.served.shared.metrics.target_reachable)
      (λ t j b h e w. elim (Nested.stages-access handle_step turn_step succeeds in_run t j b h e) [
        | inl (ok, there, g) ↦
            ap (λ u. u.shared.metrics.target_reachable) g
            ∙ handle_step-reachable ok t.shared h.stage
            ∙ w
        | inr g ↦ ap (λ u. u.shared.metrics.target_reachable) g ∙ w
      ])
      s.served (i, a) refl

turned-length :
    (i : ℕ) (a : Turn) (s : Site) → length (turned i a s).served.threads ≡ length s.served.threads
unfolding Threads.step
turned-length i a s =
    step_inv handler_step (λ t. length t.threads ≡ length s.served.threads)
      (λ t j b h e w. length-set t.threads j _ ∙ w) s.served (i, a) refl

-- What has been counted: the sessions that were started, and what the prober's last result shows.
abbrev Reports : ℕ → Last → Site → Type 0
Reports n last s = (length s.served.threads ≡ n) × Agrees (view s) last

-- What a request for a page is answered when `n` handlers hold a slot and the prober's last result is
-- `last`; only a WebSocket is one handler more.
abbrev pub answer : Fmt → Text → Page → ℕ → Last → Site → Site × Option Response
answer fmt target health n last s = (
  s,
  some (record {
    status = 200;
    content_type = codes "application/json";
    body = health_body ++ itoa n ++ codes "}";
  }),
)
answer fmt target target_health n last s = (s, some (page fmt target (response last)))
answer fmt target metrics n last s = (s, none)
answer fmt target web_socket n last s = (record s { served = joined s.served }, none)

module _ (mux : Mux) (fmt : Fmt) (target prefix' : Text) (is_clean : Text → Bool) where
  answered-Reports :
      (o : Page) (s : Site) (n : ℕ) (last : Last)
      → Reports n last s
      → Reports (n + is_socket o) last (answered mux fmt target prefix' (some o) s).0
  answered-Reports web_socket s n last (l, h) =
      (omega (arith, l, length-append s.served.threads (arriving ∷ [])), h)
  answered-Reports health s n last (l, h) = (omega (arith, l), h)
  answered-Reports target_health s n last (l, h) = (omega (arith, l), h)
  answered-Reports metrics s n last (l, h) = (omega (arith, l), h)

  served-Reports :
      (path : Text) (s : Site) (n : ℕ) (last : Last)
      → IsMux mux is_clean
      → is_clean path ≡ true
      → Reports n last s
      → Reports (n + is_socket (page_of path)) last (serve mux fmt target prefix' path s).0
  unfolding serve
  served-Reports path s n last m c h =
      subst
        (λ o. Reports (n + is_socket (page_of path)) last (answered mux fmt target prefix' o s).0)
        (sym (mux-page_of mux is_clean path m c)) (answered-Reports (page_of path) s n last h)

  turned-Reports :
      (i : ℕ) (a : Turn) (s : Site) (n : ℕ) (last : Last)
      → Reports n last s
      → Reports n last (turned i a s)
  turned-Reports i a s n last (l, (e, g)) =
      (turned-length i a s ∙ l, (e, turned-reachable i a s ∙ g))

  run-Reports :
      (s : Site) (es : List Event) (n : ℕ) (last : Last)
      → IsMux mux is_clean
      → AllClean is_clean es
      → Reports n last s
      → Reports
          (n + sockets es)
          (last_result prefix' (probes_of es) last)
          (run mux fmt target prefix' s es)
  unfolding run step
  run-Reports s [] n last m c (l, h) = (omega (arith, l), h)
  run-Reports s (requests path ∷ es) n last m (c, cs) h =
      let v =
        run-Reports (serve mux fmt target prefix' path s).0 es (n + is_socket (page_of path)) last m
          cs (served-Reports path s n last m c h) in
      (omega (arith, v.0), v.1)
  run-Reports s (turns i a ∷ es) n last m c h =
      run-Reports (turned i a s) es n last m c (turned-Reports i a s n last h)
  run-Reports s (probes p ∷ es) n last m c (l, h) =
      run-Reports (probed_site prefix' p s) es n _ m c
        (l, probed prefix' p (view s) last p.canceled (probe_target prefix' p.target) refl refl h)

  answered_lem :
      (o : Page) (s : Site) (n : ℕ) (last : Last)
      → active_count s.served.shared.session_manager ≡ pos n
      → Agrees (view s) last
      → answered mux fmt target prefix' (some o) s ≡ answer fmt target o n last s
  unfolding handle_health target_page
  answered_lem health s n last c (h, g) =
      ap
        (λ d. (
          s,
          some (record {
            status = 200;
            content_type = codes "application/json";
            body = health_body ++ decimal_text d ++ codes "}";
          }),
        ))
        c
  answered_lem target_health s n last c (h, g) = ap (λ r. (s, some (page fmt target r))) h
  answered_lem metrics s n last c h = refl
  answered_lem web_socket s n last c h = refl

  -- After any interleaving of requests that ServeMux does not redirect, of the handlers and their
  -- sessions, and of probes: a request for /health is answered with 200 and the number of handlers
  -- that hold a slot, one for /health/target with the outcome of the last probe that was not
  -- cancelled, and neither these nor one for /metrics start a handler, as any other request does;
  -- and there is a handler for each such request before it.
  pub serve-run :
      (max : ℤ) (es : List Event) (path : Text)
      → IsMux mux is_clean
      → AllClean is_clean es
      → is_clean path ≡ true
      → let s = run mux fmt target prefix' (new_site max) es in
        (serve mux fmt target prefix' path s
          ≡ answer fmt target
              (page_of path)
              (held s.served)
              (last_result prefix' (probes_of es) none)
              s)
        × (length s.served.threads ≡ sockets es)
  unfolding serve new_site active_count start
  serve-run max es path m cs c =
      let s = run mux fmt target prefix' (new_site max) es in
      let last = last_result prefix' (probes_of es) none in
      let (l, h) = run-Reports (new_site max) es 0 none m cs (refl, new_state-Agrees) in
      let counts = (reached-Counts mux fmt target prefix' max es).shows in
      (
        ap (λ o. answered mux fmt target prefix' o s) (mux-page_of mux is_clean path m c)
            ∙ answered_lem (page_of path) s (held s.served) last
                (counts.active
                  ∙ ap pos (tally-map (λ (h : Handler). h.stage) holds s.served.threads))
                h,
        l ∙ omega arith,
      )
