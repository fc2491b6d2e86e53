-- ===== src/Ssh/Accept/Examples.antt =====
-- acceptLoop of internal/sshserver/forward.go: a connection that outlives its forward.
use workspace_websocket_prox.Base.{
  ℕ, ◌≡◌, ◌⊎◌, refl, ap, Bool, true, Option, none, some, List, [], ◌∷◌, get_elem?, ite,
}
use workspace_websocket_prox.Base.Text.{
  Text, codes, text_eq, cut_last, has_byte, itoa, join_host_port,
}
use workspace_websocket_prox.Base.Text.Parse.{split_host_port, atoi}
use workspace_websocket_prox.Ssh.Loopback.{Net, is_loopback, loopback_ipv4}
use workspace_websocket_prox.Ssh.Forward.{
  RemoteForwardRequest, request_type_forward, request_type_cancel_forward, bind_host,
  any_bind_addresses, allow_reverse_forward, handle_ssh_request, new_loopback_forward_handler,
  forward_key, accept_failed,
}
use workspace_websocket_prox.Ssh.Forward.Events as Events
use workspace_websocket_prox.Ssh.Forward.Policy.{policy}
use workspace_websocket_prox.Ssh.Relay as Relay
use workspace_websocket_prox.Ssh.Relay.{
  split_addr, uint32, inbound_data, accepted, open_channel, ended, channel_opens, inward_moves,
}
use workspace_websocket_prox.Ssh.Relay.Closed.{IsShut}
use workspace_websocket_prox.Ssh.Accept.{
  Inbound, Event, handler_event, accepts, relay_moves, step, run, new_forwards,
}
use workspace_websocket_prox.Ssh.Accept.Relayed.{WasAsked, inbounds-run}

abbrev known : Text → Option Bool
known a = ite (text_eq a (codes "127.0.0.1")) (some true) none

abbrev one_address : Net
one_address = record { Ip = Bool; parse_ip = known; ip_is_loopback = λ b. b }

-- A client forwards a wildcard, a connection comes in, the client cancels, the kernel fails Accept,
-- another connection comes too late, and the client ends its side of the first.
abbrev outlived : List Event
outlived =
    handler_event (
      Events.request 7 true request_type_forward
        (some (record { bind_addr = codes "*"; bind_port = 0 })) (some 9000))
    ∷ accepts 0 (codes "127.0.0.1:40000")
    ∷ relay_moves 0 (channel_opens true)
    ∷ handler_event (
        Events.request 7 true request_type_cancel_forward
          (some (record { bind_addr = codes "*"; bind_port = 9000 })) none)
    ∷ handler_event (Events.accept_error 0)
    ∷ accepts 0 (codes "127.0.0.1:40001")
    ∷ relay_moves 0 inward_moves
    ∷ relay_moves 0 inward_moves
    ∷ relay_moves 0 inward_moves
    ∷ []

abbrev inbound : Inbound
inbound = record {
  local_host = loopback_ipv4;
  remote_addr = codes "127.0.0.1:40000";
  channel_data = record {
    dest_addr = codes "*";
    dest_port = 9000;
    origin_addr = codes "127.0.0.1";
    origin_port = 40000;
  };
  relay = Relay.run accepted (channel_opens true ∷ inward_moves ∷ inward_moves ∷ inward_moves ∷ []);
}

outlived_end : (run (policy one_address) new_forwards outlived).inbounds ≡ inbound ∷ []
unfolding run step handle_ssh_request text_eq allow_reverse_forward is_loopback bind_host
    any_bind_addresses new_loopback_forward_handler split_host_port Relay.run accept_failed cut_last
    has_byte atoi forward_key join_host_port itoa
outlived_end = refl

inbounds-run_example :
    (is_loopback one_address loopback_ipv4 ≡ true)
    × ((payload : RemoteForwardRequest) × (port : ℕ) × WasAsked outlived payload port
        × (codes "*" ≡ payload.bind_addr)
        × (◌≡◌ {A = ℕ} 9000 port)
        × (loopback_ipv4 ≡ bind_host payload.bind_addr))
    × (codes "127.0.0.1" ≡ (split_addr inbound.remote_addr).0)
    × (◌≡◌ {A = ℕ} 40000 (uint32 (split_addr inbound.remote_addr).1))
    × ((inbound.relay.outward ≡ ended) ⊎ (inbound.relay.inward ≡ ended) → IsShut inbound.relay)
inbounds-run_example =
    inbounds-run one_address outlived 0 inbound (ap (λ cs. get_elem? cs 0) outlived_end)
