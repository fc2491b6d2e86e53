-- ===== src/Ssh/Accept.antt =====
-- internal/sshserver/forward.go: acceptLoop and the relays that it starts, beside everything that
-- happens to the forward handler. The address and the port that a loop was started with stand in its
-- Listener.
pub mod Relayed
mod Examples
use workspace_websocket_prox.Base.{ℕ, Option, none, some, List, [], ◌∷◌, ◌++◌, get_elem?, set}
use workspace_websocket_prox.Base.Text.{Text}
use workspace_websocket_prox.Ssh.Forward.{
  Listener, Handler, Callback, ChannelData, new_loopback_forward_handler,
}
use workspace_websocket_prox.Ssh.Forward.Events as Events
use workspace_websocket_prox.Ssh.Relay as Relays
use workspace_websocket_prox.Ssh.Relay.{Relay, inbound_data, accepted}

-- A connection that was accepted: the host of the listener that it came in at, where it comes from,
-- the data of its channel, and its relay.
pub record Inbound : Type 0 where
  pub local_host : Text
  pub remote_addr : Text
  pub channel_data : ChannelData
  pub relay : Relay

pub record Forwards : Type 0 where
  pub handler : Handler
  pub inbounds : List Inbound

-- A turn of acceptLoop in which Accept returns a connection from `addr`.
unfoldable pub accept : Listener → Text → Inbound
unfolding inbound_data accepted
accept l addr = record {
  local_host = l.host;
  remote_addr = addr;
  channel_data = inbound_data l addr;
  relay = accepted;
}

-- A loop that has returned accepts nothing, and neither does a closed listener.
abbrev accepted_at : Option Text → Option Listener → Text → List Inbound
accepted_at (some key) (some l) addr = accept l addr ∷ []
accepted_at _ _ addr = []

abbrev relay_moved : Option Inbound → ℕ → Relays.Action → List Inbound → List Inbound
relay_moved none i a cs = cs
relay_moved (some c) i a cs = set cs i (record c { relay = Relays.step c.relay a })

-- What happens to the handler, where its Accept fails too; a connection from `addr`; a turn of the
-- relay of the connection that was accepted as number `i`.
pub data Event : Type 0 where
  handler_event : Events.Event → Event
  accepts : (id : ℕ) (addr : Text) → Event
  relay_moves : (i : ℕ) (a : Relays.Action) → Event

unfoldable pub step : Callback → Forwards → Event → Forwards
unfolding accept Relays.step Events.step
step callback s (handler_event e) = record s { handler = Events.step callback s.handler e }
step callback s (accepts id addr) = record s {
  inbounds = s.inbounds ++ accepted_at (s.handler.loops id) (s.handler.sockets id) addr;
}
step callback s (relay_moves i a) = record s {
  inbounds = relay_moved (get_elem? s.inbounds i) i a s.inbounds;
}

unfoldable pub run : Callback → Forwards → List Event → Forwards
run callback s [] = s
run callback s (e ∷ es) = run callback (step callback s e) es

abbrev pub new_forwards : Forwards
new_forwards = record { handler = new_loopback_forward_handler; inbounds = [] }
