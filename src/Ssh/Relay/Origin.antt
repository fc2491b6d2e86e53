-- ===== src/Ssh/Relay/Origin.antt =====
-- What a client learns of an inbound connection.
use workspace_websocket_prox.Base.{ℕ, ◌<◌, ◌^◌, ◌≡◌, arith}
use workspace_websocket_prox.Base.Int.{pos}
use workspace_websocket_prox.Base.Text.{Text, itoa, join_host_port}
use workspace_websocket_prox.Base.Text.Laws.{has_byte-itoa}
use workspace_websocket_prox.Base.Text.RoundTrip.{
  IsPlain, atoi-itoa, itoa-IsPlain, split_host_port-join_host_port,
}
use workspace_websocket_prox.Ssh.Forward.{Listener}
use workspace_websocket_prox.Ssh.Relay.{split_addr, inbound_data}

-- The host and port of an address are those that it was joined from.
pub split_addr-join_host_port :
    (host : Text) (port : ℕ)
    → IsPlain host
    → port < 2 ^ 63
    → split_addr (join_host_port host (itoa port)) ≡ (host, pos port)
unfolding split_addr
split_addr-join_host_port host port h small = ground (
  arith,
  split_host_port-join_host_port host (itoa port) h (itoa-IsPlain port) (has_byte-itoa port),
  atoi-itoa port,
)

-- For a connection from a host without brackets and a port below 2^32, the channel that a client is
-- asked to open carries the address the client requested, the port that was bound, and the host and
-- port of the connection.
pub inbound_data-join_host_port :
    (l : Listener) (host : Text) (port : ℕ)
    → IsPlain host
    → port < 2 ^ 32
    → inbound_data l (join_host_port host (itoa port)) ≡ record {
      dest_addr = l.requested;
      dest_port = l.port;
      origin_addr = host;
      origin_port = port;
    }
unfolding inbound_data
inbound_data-join_host_port l host port h small =
    rw (split_addr-join_host_port host port h (omega arith)) (ground arith)
