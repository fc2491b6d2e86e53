-- ===== src/Ssh/Forward.antt =====
-- internal/sshserver/forward.go, loopbackForwardHandler, and the policy callback of server.go.
--
-- Beside the handler's own table stand the sockets that net.Listen opened, the goroutines that
-- startForward leaves behind (a watcher of the connection's context and an accept loop) and the
-- connections that have ended. A listener, its watcher and its accept loop go by one number, the
-- identity of the net.Listener. The kernel's answer to net.Listen comes with the event.
pub mod Events
pub mod Table
pub mod Registered
pub mod Requested
pub mod Named
pub mod Policy
pub mod Leaks
mod Examples
use workspace_websocket_prox.Base.{
  ℕ, suc, ◌≡◌, Bool, true, false, ◌&&◌, ◌||◌, Option, none, some, List, [], ◌∷◌, ite, if◌then◌else◌,
  ℕ_discrete,
}
use workspace_websocket_prox.Base.Text.{Text, codes, text_eq, itoa, join_host_port}
use workspace_websocket_prox.Ssh.Loopback.{Net, is_loopback, loopback_ipv4}

-- remoteForwardRequest
pub record RemoteForwardRequest : Type 0 where
  pub bind_addr : Text
  pub bind_port : ℕ

-- A listening socket: the address that the client named, the one bound, and the port.
pub record Listener : Type 0 where
  pub requested : Text
  pub host : Text
  pub port : ℕ

pub record Handler : Type 0 where
  pub forwards : Text → Option ℕ
  pub sockets : ℕ → Option Listener
  pub watchers : ℕ → Option (ℕ × Text)
  pub loops : ℕ → Option Text
  pub ended : ℕ → Bool
  pub next : ℕ

unfoldable pub new_loopback_forward_handler : Handler
new_loopback_forward_handler = record {
  forwards = λ _. none;
  sockets = λ _. none;
  watchers = λ _. none;
  loops = λ _. none;
  ended = λ _. false;
  next = 0;
}

module _ {ℓ} {A : Type ℓ} where
  -- A write of a map with text keys, and of one with number keys.
  abbrev pub put_key : (Text → Option A) → Text → Option A → Text → Option A
  put_key m k v j = ite (text_eq k j) v (m j)

  abbrev pub put : (ℕ → A) → ℕ → A → ℕ → A
  put m k v j = ite (ℕ_discrete k j) v (m j)

-- The map anyBindAddresses.
unfoldable pub any_bind_addresses : Text → Bool
any_bind_addresses a = ite (text_eq a []) true (
    ite (text_eq a (codes "*")) true
      (ite (text_eq a (codes "0.0.0.0")) true (ite (text_eq a (codes "::")) true false)))

unfoldable pub forward_key : Text → ℕ → Text
forward_key host port = join_host_port host (itoa port)

-- The address that a request binds.
unfoldable pub bind_host : Text → Text
bind_host a = if any_bind_addresses a then loopback_ipv4 else a

-- What goes back on the wire: nothing, a text, or a marshalled remoteForwardSuccess.
pub data Body : Type 0 where
  empty : Body
  message : Text → Body
  bound : ℕ → Body

abbrev pub Reply : Type 0
Reply = Bool × Body

-- A possible ReversePortForwardingCallback.
abbrev pub Callback : Type 0
Callback = Option (Text → ℕ → Bool)

abbrev allows : Callback → Text → ℕ → Bool
allows none host port = false
allows (some f) host port = f host port

-- closeForward: the entry goes and its socket is closed.
unfoldable pub close_forward : Text → Handler → Handler × Bool
close_forward key h = elim (h.forwards key) [
  | none ↦ (h, false)
  | some id ↦
      (record h { forwards = put_key h.forwards key none; sockets = put h.sockets id none }, true)
]

-- openForward, with the port that net.Listen bound, if it did.
unfoldable pub open_forward :
    Callback → RemoteForwardRequest → Option ℕ → Handler → Handler × Option (ℕ × ℕ)
open_forward callback payload listen h =
    let host = bind_host payload.bind_addr in
    if allows callback host payload.bind_port
    then elim listen [
      | none ↦ (h, none)
      | some port ↦
          let l : Listener = record { requested = payload.bind_addr; host = host; port = port } in
          (
            record h {
              forwards = put_key h.forwards (forward_key payload.bind_addr port) (some h.next);
              sockets = put h.sockets h.next (some l);
              next = suc h.next;
            },
            some (h.next, port),
          )
    ]
    else (h, none)

abbrev spawn : Text → ℕ → ℕ → ℕ → Handler → Handler
spawn key conn id port h = record h {
  watchers = put h.watchers id (some (conn, key));
  loops = put h.loops id (some key);
}

-- The part of startForward behind openForward. The Boolean says whether the context holds the
-- connection; without one the new forward is closed again.
abbrev started : RemoteForwardRequest → ℕ → Bool → Handler × Option (ℕ × ℕ) → Handler × Reply
started payload conn live (h, none) = (h, (false, message (codes "port forwarding is disabled")))
started payload conn false (h, some (id, port)) =
    ((close_forward (forward_key payload.bind_addr port) h).0, (false, empty))
started payload conn true (h, some (id, port)) =
    (spawn (forward_key payload.bind_addr port) conn id port h, (true, bound port))

unfoldable pub start_forward :
    Callback → ℕ → Bool → RemoteForwardRequest → Option ℕ → Handler → Handler × Reply
unfolding open_forward close_forward
start_forward callback conn live payload listen h =
    started payload conn live (open_forward callback payload listen h)

unfoldable pub cancel_forward : RemoteForwardRequest → Handler → Handler × Reply
unfolding close_forward
cancel_forward payload h =
    let (h', done) = close_forward (forward_key payload.bind_addr payload.bind_port) h in
    if done then (h', (true, empty)) else (h, (false, empty))

abbrev pub request_type_forward : Text
request_type_forward = codes "tcpip-forward"

abbrev pub request_type_cancel_forward : Text
request_type_cancel_forward = codes "cancel-tcpip-forward"

-- HandleSSHRequest; the payload is `none` where gossh.Unmarshal fails.
unfoldable pub handle_ssh_request :
    Callback → ℕ → Bool → Text → Option RemoteForwardRequest → Option ℕ → Handler → Handler × Reply
unfolding start_forward cancel_forward
handle_ssh_request callback conn live type none listen h = (h, (false, empty))
handle_ssh_request callback conn live type (some payload) listen h =
    ite (text_eq type request_type_forward) (start_forward callback conn live payload listen h) (
      ite (text_eq type request_type_cancel_forward) (cancel_forward payload h) (h, (false, empty)))

-- The watcher of a forward: once its connection has ended it closes what stands under its key.
unfoldable pub watch : ℕ → Handler → Handler
unfolding close_forward
watch id h = elim (h.watchers id) [
  | none ↦ h
  | some (conn, key) ↦
      if h.ended conn
      then (close_forward key (record h { watchers = put h.watchers id none })).0
      else h
]

-- Accept fails: the loop ends, and takes its entry away if that still names its own listener.
abbrev same_listener : Option ℕ → ℕ → Bool
same_listener none id = false
same_listener (some other) id = ite (ℕ_discrete other id) true false

unfoldable pub accept_failed : ℕ → Handler → Handler
accept_failed id h = elim (h.loops id) [
  | none ↦ h
  | some key ↦
      let h' = record h { loops = put h.loops id none } in
      if same_listener (h.forwards key) id
      then record h' { forwards = put_key h.forwards key none }
      else h'
]

-- remoteForwardChannelData as acceptLoop fills it in for one inbound connection.
pub record ChannelData : Type 0 where
  pub dest_addr : Text
  pub dest_port : ℕ
  pub origin_addr : Text
  pub origin_port : ℕ

unfoldable pub channel_data : Listener → Text × ℕ → ChannelData
channel_data l (host, port) = record {
  dest_addr = l.requested;
  dest_port = l.port;
  origin_addr = host;
  origin_port = port;
}

module _ (net : Net) where
  -- allowReverseForward and allowLocalForward of server.go.
  unfoldable pub allow_reverse_forward : Text → ℕ → Bool
  allow_reverse_forward host port = is_loopback net host

  unfoldable pub allow_local_forward : Text → ℕ → Bool
  allow_local_forward host port = is_loopback net host
