-- ===== src/Proxy/Serving/Active.antt =====
-- What the health endpoint says of the connections.
use workspace_websocket_prox.Base.{ℕ, ◌<◌, ◌^◌, ◌≡◌, ap, Bool, some, List, ◌++◌, arith, tally}
use workspace_websocket_prox.Base.Int.{ℤ, pos, int32-lt}
use workspace_websocket_prox.Base.Text.{Text, codes, itoa, decimal_text}
use workspace_websocket_prox.Base.Text.Parse.{atoi}
use workspace_websocket_prox.Base.Text.RoundTrip.{atoi-itoa}
use workspace_websocket_prox.Proxy.Connections.{start, run}
use workspace_websocket_prox.Proxy.Connections.Counts.{holds}
use workspace_websocket_prox.Proxy.Connections.Capacity.{active_count-run}
use workspace_websocket_prox.Proxy.Serving.{health_body, handle_health}

pub atoi-small : (n : ℕ) → n < 2 ^ 31 → atoi (itoa n) ≡ some (pos n)
atoi-small n h = ground (arith, atoi-itoa n)

-- Whatever the interleaving of the connections' handlers, a health check is answered by a JSON
-- body whose number of active connections reads back as the number of handlers that hold a slot.
pub handle_health-run :
    (max : ℤ) (n : ℕ) (cs : List (ℕ × Bool))
    → let s = run (start max n) cs in
      (digits : Text) × ((handle_health s.shared.session_manager).body
        ≡ health_body ++ digits ++ codes "}")
      × (atoi digits ≡ some (pos (tally holds s.threads)))
unfolding handle_health
handle_health-run max n cs =
    let s = run (start max n) cs in
    let v = active_count-run max n cs in
    (
      itoa (tally holds s.threads),
      ap (λ c. health_body ++ decimal_text c ++ codes "}") v.0,
      atoi-small (tally holds s.threads) (omega (arith, v.1, int32-lt max)),
    )
