-- ===== src/Proxy/Site/Counted.antt =====
-- The Server of internal/proxy/server.go, with requests, handlers, sessions and probes interleaved:
-- what its counters say.
use workspace_websocket_prox.Base.{
  ℕ, ◌^◌, ◌<◌, ◌≡◌, ◌∙◌, inl, inr, refl, sym, ap, subst, Option, none, some, List, [], ◌∷◌, arith,
  get_elem?, map, map-append, tally-append, tally-replicate, All-append, All, tally,
}
use workspace_websocket_prox.Base.Int.{ℤ, pos, int32, int32-lt, pos_part}
use workspace_websocket_prox.Base.Text.{Text}
use workspace_websocket_prox.Base.Threads
use workspace_websocket_prox.Base.Threads.{System, accessed, step_inv}
use workspace_websocket_prox.Proxy.Health.{Probe, State, probe_once}
use workspace_websocket_prox.Proxy.Metrics.{capacity_exceeded, upgrade_failed}
use workspace_websocket_prox.Proxy.Connections as Connections
use workspace_websocket_prox.Proxy.Connections.{Server, Stage, loading, Connections, handle_step}
use workspace_websocket_prox.Proxy.Connections.Counts.{
  holds, is_running, was_established, was_refused, was_failed, IsReady, Inv, access-Inv, start-Inv,
}
use workspace_websocket_prox.Proxy.Pages.{Fmt}
use workspace_websocket_prox.Proxy.Served.{
  Handler, Turn, turn_step, succeeds, in_run, Served, handler_step, arriving,
}
use workspace_websocket_prox.Base.Nested as Nested
use workspace_websocket_prox.Base.Nested.{stages}
use workspace_websocket_prox.Proxy.Site.{
  Page, health, target_health, metrics, web_socket, Mux, routes, Site, new_site, joined, turned,
  probed, answered, serve, Event, requests, turns, probes, step, run,
}

abbrev pub Counts : ℤ → Served → Type 0
Counts cap s = Inv cap (stages s)

handler-Counts :
    (cap : ℤ) (s : Served) (i : ℕ) (a : Turn) (h : Handler)
    → pos_part cap < 2 ^ 31
    → get_elem? s.threads i ≡ some h
    → Counts cap s
    → Counts cap (accessed handler_step s i a h)
handler-Counts cap s i a h small e v =
    elim (Nested.stages-access handle_step turn_step succeeds in_run s i a h e) [
      | inl (ok, there, g) ↦
          subst (Inv cap) (sym g) (access-Inv cap small (stages s) i ok h.stage there v)
      | inr g ↦ subst (Inv cap) (sym g) v
    ]

-- A new handler counts for nothing yet.
uncounted :
    (w : Stage → ℕ) (s : Served)
    → w loading ≡ 0
    → tally w (stages (joined s)).threads ≡ tally w (stages s).threads
uncounted w s e =
    ap (tally w) (map-append (λ (h : Handler). h.stage) s.threads (arriving ∷ []))
    ∙ tally-append w (map (λ (h : Handler). h.stage) s.threads) (loading ∷ [])
    ∙ omega (arith, tally-replicate w 1 loading e)

joined-Counts : (cap : ℤ) (s : Served) → Counts cap s → Counts cap (joined s)
joined-Counts cap s v = record {
  shows = record {
    limit = v.shows.limit;
    active = v.shows.active ∙ ap pos (sym (uncounted holds s refl));
    within = omega (arith, v.shows.within, uncounted holds s refl);
    gauge = v.shows.gauge ∙ ap pos (sym (uncounted is_running s refl));
    total = v.shows.total ∙ sym (uncounted was_established s refl);
    refused = v.shows.refused ∙ sym (uncounted was_refused s refl);
    failed = v.shows.failed ∙ sym (uncounted was_failed s refl);
  };
  ready =
      subst (All (IsReady cap))
        (sym (map-append (λ (h : Handler). h.stage) s.threads (arriving ∷ [])))
        (All-append (IsReady cap) _ (loading ∷ []) v.ready (tt, tt));
}

probe_once-keeps :
    (prefix' : Text) (p : Probe) (s : State)
    → let m = (probe_once prefix' p s).metrics in
      (m.active_connections ≡ s.metrics.active_connections)
      × (m.connections_total ≡ s.metrics.connections_total)
      × (m.connection_errors ≡ s.metrics.connection_errors)
unfolding probe_once
probe_once-keeps prefix' p s = ground arith

-- A probe writes no counter of the connections.
probed-Counts :
    (cap : ℤ) (prefix' : Text) (p : Probe) (s : Site)
    → Counts cap s.served
    → Counts cap (probed prefix' p s).served
probed-Counts cap prefix' p s v =
    let (active, total, errors) =
      probe_once-keeps prefix' p
        (record { target_health = s.target_health; metrics = s.served.shared.metrics }) in
    record {
      shows = record {
        limit = v.shows.limit;
        active = v.shows.active;
        within = v.shows.within;
        gauge = active ∙ v.shows.gauge;
        total = total ∙ v.shows.total;
        refused = ap (λ f. f capacity_exceeded) errors ∙ v.shows.refused;
        failed = ap (λ f. f upgrade_failed) errors ∙ v.shows.failed;
      };
      ready = v.ready;
    }

turned-Counts :
    (cap : ℤ) (i : ℕ) (a : Turn) (s : Site)
    → pos_part cap < 2 ^ 31
    → Counts cap s.served
    → Counts cap (turned i a s).served
unfolding Threads.step
turned-Counts cap i a s small v =
    step_inv handler_step (Counts cap) (λ t j b h e w. handler-Counts cap t j b h small e w)
      s.served (i, a) v

module _ (mux : Mux) (fmt : Fmt) (target prefix' : Text) (cap : ℤ)
    (small : pos_part cap < 2 ^ 31) where
  answered-Counts :
      (o : Option Page) (s : Site)
      → Counts cap s.served
      → Counts cap (answered mux fmt target prefix' o s).0.served
  answered-Counts none s v = v
  answered-Counts (some health) s v = v
  answered-Counts (some target_health) s v = v
  answered-Counts (some metrics) s v = v
  answered-Counts (some web_socket) s v = joined-Counts cap s.served v

  step-Counts :
      (s : Site) (e : Event)
      → Counts cap s.served
      → Counts cap (step mux fmt target prefix' s e).served
  unfolding step serve
  step-Counts s (requests path) v = answered-Counts (mux routes path) s v
  step-Counts s (turns i a) v = turned-Counts cap i a s small v
  step-Counts s (probes p) v = probed-Counts cap prefix' p s v

  run-Counts :
      (s : Site) (es : List Event)
      → Counts cap s.served
      → Counts cap (run mux fmt target prefix' s es).served
  unfolding run
  run-Counts s [] v = v
  run-Counts s (e ∷ es) v = run-Counts (step mux fmt target prefix' s e) es (step-Counts s e v)

-- In every state that requests, handlers, sessions and probes reach.
pub reached-Counts :
    (mux : Mux) (fmt : Fmt) (target prefix' : Text) (max : ℤ) (es : List Event)
    → Counts (int32 max) (run mux fmt target prefix' (new_site max) es).served
unfolding new_site Connections.start
reached-Counts mux fmt target prefix' max es =
    run-Counts mux fmt target prefix' (int32 max) (int32-lt max) (new_site max) es (start-Inv max 0)
