-- ===== src/Ssh/Accept/Relayed.antt =====
-- acceptLoop and relay of internal/sshserver/forward.go: which connections are relayed to clients,
-- and what becomes of them.
use workspace_websocket_prox.Base.{
  ℕ, ◌≡◌, ◌⊎◌, refl, sym, ◌∙◌, ap, Bool, true, suc, ◌+◌, arith, Option, none, some, List, [], ◌∷◌,
  get_elem?, All, All-append, All-set, All-get_elem?,
}
use workspace_websocket_prox.Base.Text.{Text}
use workspace_websocket_prox.Ssh.Loopback.{Net, is_loopback}
use workspace_websocket_prox.Ssh.Forward.{
  RemoteForwardRequest, Listener, Handler, bind_host, channel_data, request_type_forward,
}
use workspace_websocket_prox.Ssh.Forward.Events as Events
use workspace_websocket_prox.Ssh.Forward.Table.{listener}
use workspace_websocket_prox.Ssh.Forward.Requested.{AllOpen, IsAsked, step-AllOpen, new-AllOpen}
use workspace_websocket_prox.Ssh.Forward.Policy.{policy, IsLocal, step-IsLocal, new-IsLocal}
use workspace_websocket_prox.Ssh.Relay as Relay
use workspace_websocket_prox.Ssh.Relay.{Copy, split_addr, uint32, inbound_data, ended}
use workspace_websocket_prox.Ssh.Relay.Closed as Closed
use workspace_websocket_prox.Ssh.Relay.Closed.{IsShut, step-Inv, accepted-Inv, shut_lem}
use workspace_websocket_prox.Ssh.Accept.{
  Inbound, Forwards, accept, accepted_at, relay_moved, Event, handler_event, accepts, relay_moves,
  step, run, new_forwards,
}

-- Some event is the request for a forward on a live connection, to which the kernel bound the port.
abbrev pub WasAsked : List Event → RemoteForwardRequest → ℕ → Type 0
WasAsked es payload port =
    (i : ℕ) × (conn : ℕ) × (get_elem? es i
      ≡ some (
          handler_event (Events.request conn true request_type_forward (some payload) (some port))))

-- A listener that one of the events asked for.
abbrev IsWanted : List Event → Listener → Type 0
IsWanted es l =
    (payload : RemoteForwardRequest) × (port : ℕ) × WasAsked es payload port
    × (l ≡ listener payload port)

module _ (net : Net) (history : List Event) where
  -- What a client may rely on for a connection that was accepted.
  record IsRelayed (c : Inbound) : Type 0 where
    loopback : is_loopback net c.local_host ≡ true
    requested :
        (payload : RemoteForwardRequest) × (port : ℕ) × WasAsked history payload port
        × (c.channel_data.dest_addr ≡ payload.bind_addr)
        × (c.channel_data.dest_port ≡ port)
        × (c.local_host ≡ bind_host payload.bind_addr)
    origin_addr : c.channel_data.origin_addr ≡ (split_addr c.remote_addr).0
    origin_port : c.channel_data.origin_port ≡ uint32 (split_addr c.remote_addr).1
    inv : Closed.Inv c.relay

  record Inv (s : Forwards) : Type 0 where
    local : IsLocal net s.handler
    wanted : AllOpen (IsWanted history) s.handler
    relayed : All IsRelayed s.inbounds

  accepted-IsRelayed :
      (h : Handler) (id : ℕ) (key : Option Text) (l : Option Listener) (addr : Text)
      → IsLocal net h
      → AllOpen (IsWanted history) h
      → h.sockets id ≡ l
      → All IsRelayed (accepted_at key l addr)
  unfolding accept inbound_data channel_data
  accepted-IsRelayed h id (some key) (some l) addr p w e =
      let (payload, port, asked, same) = w id l e in
      (
        record {
          loopback = (p id l e).0;
          requested = (
            payload,
            port,
            asked,
            ap (λ (k : Listener). k.requested) same,
            ap (λ (k : Listener). k.port) same,
            ap (λ (k : Listener). k.host) same,
          );
          origin_addr = refl;
          origin_port = refl;
          inv = accepted-Inv;
        },
        tt,
      )
  accepted-IsRelayed h id none l addr p w e = tt
  accepted-IsRelayed h id (some key) none addr p w e = tt

  relay_moved-IsRelayed :
      (o : Option Inbound) (i : ℕ) (a : Relay.Action) (cs : List Inbound)
      → get_elem? cs i ≡ o
      → All IsRelayed cs
      → All IsRelayed (relay_moved o i a cs)
  relay_moved-IsRelayed none i a cs e h = h
  relay_moved-IsRelayed (some c) i a cs e h =
      let r = All-get_elem? IsRelayed cs i h e in
      All-set IsRelayed cs i _ h (record {
        loopback = r.loopback;
        requested = r.requested;
        origin_addr = r.origin_addr;
        origin_port = r.origin_port;
        inv = step-Inv c.relay a r.inv;
      })

  handler_event-IsAsked :
      (e : Events.Event) (i : ℕ)
      → get_elem? history i ≡ some (handler_event e)
      → IsAsked (IsWanted history) e
  handler_event-IsAsked (Events.request conn live type (some payload) (some port)) i h = λ l t. (
    payload,
    port,
    (
      i,
      conn,
      h
          ∙ ap
              (λ (b : Bool).
                some (handler_event (Events.request conn b type (some payload) (some port))))
              l
          ∙ ap
              (λ (x : Text).
                some (handler_event (Events.request conn true x (some payload) (some port))))
              t,
    ),
    refl,
  )
  handler_event-IsAsked (Events.request conn live type (some payload) none) i h = tt
  handler_event-IsAsked (Events.request conn live type none listen) i h = tt
  handler_event-IsAsked (Events.disconnect conn) i h = tt
  handler_event-IsAsked (Events.wake id) i h = tt
  handler_event-IsAsked (Events.accept_error id) i h = tt

  step-keeps :
      (s : Forwards) (e : Event) (i : ℕ)
      → get_elem? history i ≡ some e
      → Inv s
      → Inv (step (policy net) s e)
  unfolding step
  step-keeps s (handler_event e) i h v = record {
    local = step-IsLocal net s.handler e v.local;
    wanted =
        step-AllOpen (IsWanted history) (policy net) s.handler e (handler_event-IsAsked e i h)
          v.wanted;
    relayed = v.relayed;
  }
  step-keeps s (accepts id addr) i h v = record {
    local = v.local;
    wanted = v.wanted;
    relayed = All-append IsRelayed s.inbounds _ v.relayed (
        accepted-IsRelayed s.handler id (s.handler.loops id) (s.handler.sockets id) addr v.local
          v.wanted refl);
  }
  step-keeps s (relay_moves j a) i h v = record {
    local = v.local;
    wanted = v.wanted;
    relayed = relay_moved-IsRelayed (get_elem? s.inbounds j) j a s.inbounds refl v.relayed;
  }

  -- The events that are left stand in the history behind `n` others.
  run-keeps :
      (s : Forwards) (es : List Event) (n : ℕ)
      → ((i : ℕ) → get_elem? es i ≡ get_elem? history (n + i))
      → Inv s
      → Inv (run (policy net) s es)
  unfolding run
  run-keeps s [] n h v = v
  run-keeps s (e ∷ es) n h v =
      run-keeps (step (policy net) s e) es (suc n)
        (λ i. h (suc i) ∙ ap (get_elem? history) (omega arith))
        (step-keeps s e n (ap (get_elem? history) (omega arith) ∙ sym (h 0)) v)

module _ (net : Net) where
  -- Whatever clients request, and however requests, connections, cancels, disconnects, failures of
  -- Accept and relays interleave: every connection that was ever accepted came in at a loopback
  -- address, and for one of the requests for a forward on a live connection its channel names the
  -- address as requested and the port that the kernel bound for it, and the address is that of the
  -- request, or 127.0.0.1 for a wildcard. Its channel also names the address that the peer's splits
  -- into, and it is closed with its channel as soon as one of its two copies has returned.
  pub inbounds-run :
      (es : List Event) (i : ℕ) (c : Inbound)
      → get_elem? (run (policy net) new_forwards es).inbounds i ≡ some c
      → (is_loopback net c.local_host ≡ true)
        × ((payload : RemoteForwardRequest) × (port : ℕ) × WasAsked es payload port
            × (c.channel_data.dest_addr ≡ payload.bind_addr)
            × (c.channel_data.dest_port ≡ port)
            × (c.local_host ≡ bind_host payload.bind_addr))
        × (c.channel_data.origin_addr ≡ (split_addr c.remote_addr).0)
        × (c.channel_data.origin_port ≡ uint32 (split_addr c.remote_addr).1)
        × ((c.relay.outward ≡ ended) ⊎ (c.relay.inward ≡ ended) → IsShut c.relay)
  inbounds-run es i c e =
      let v =
        run-keeps net es new_forwards es 0 (λ j. ap (get_elem? es) (omega arith))
          (record { local = new-IsLocal net; wanted = new-AllOpen (IsWanted es); relayed = tt }) in
      let r = All-get_elem? (IsRelayed net es) _ i v.relayed e in
      (r.loopback, r.requested, r.origin_addr, r.origin_port, shut_lem c.relay r.inv)
