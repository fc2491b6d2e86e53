-- ===== src/Ssh/Relay.antt =====
-- internal/sshserver/forward.go: what acceptLoop does with one inbound connection, which is to read
-- its address (splitAddr) and to start relay.
pub mod Origin
pub mod Closed
mod Examples
use workspace_websocket_prox.Base.{
  ℕ, ◌+◌, ◌-◌, ◌%◌, ◌^◌, Bool, true, false, Option, none, some, List, [], ◌∷◌, if◌then◌else◌,
}
use workspace_websocket_prox.Base.Int.{ℤ, pos, negsuc}
use workspace_websocket_prox.Base.Text.{Text}
use workspace_websocket_prox.Base.Text.Parse.{atoi, split_host_port}
use workspace_websocket_prox.Ssh.Forward.{Listener, ChannelData, channel_data}

-- A port that is no numeral reads as 0. (Atoi would clamp a numeral out of range, which the port of
-- a TCP address never is.)
abbrev or_zero : Option ℤ → ℤ
or_zero none = pos 0
or_zero (some port) = port

unfoldable pub split_addr : Text → Text × ℤ
split_addr addr = elim (split_host_port addr) [
  | none ↦ (addr, pos 0)
  | some (host, port) ↦ (host, or_zero (atoi port))
]

-- The conversion of an `int`.
unfoldable pub uint32 : ℤ → ℕ
uint32 (pos n) = n % 2 ^ 32
uint32 (negsuc n) = 2 ^ 32 - 1 - n % 2 ^ 32

-- The data of the channel for a connection from `addr`.
unfoldable pub inbound_data : Listener → Text → ChannelData
unfolding split_addr uint32 channel_data
inbound_data l addr = channel_data l ((split_addr addr).0, uint32 (split_addr addr).1)

-- A goroutine of relay: in io.Copy, before each deferred Close, and returned. The deferred calls
-- run last to first.
pub data Copy : Type 0 where
  unstarted copying closing_inbound closing_channel ended : Copy

-- Whether OpenChannel has been answered.
pub data Opening : Type 0 where
  opening refused relaying : Opening

pub record Relay : Type 0 where
  pub opening : Opening
  pub outward : Copy
  pub inward : Copy
  pub inbound_closed : Bool
  pub channel_closed : Bool

unfoldable pub accepted : Relay
accepted = record {
  opening = Opening.opening;
  outward = unstarted;
  inward = unstarted;
  inbound_closed = false;
  channel_closed = false;
}

-- A client that refuses the channel has the connection closed; otherwise both copies start.
unfoldable pub open_channel : Bool → Relay → Relay
open_channel true s = record s { opening = relaying; outward = copying; inward = copying }
open_channel false s = record s { opening = refused; inbound_closed = true }

-- The next stage of a copy; an io.Copy can return at any time.
abbrev after : Copy → Copy
after copying = closing_inbound
after closing_inbound = closing_channel
after closing_channel = ended
after c = c

abbrev closes : Copy → Relay → Relay
closes closing_inbound s = record s { inbound_closed = true }
closes closing_channel s = record s { channel_closed = true }
closes _ s = s

pub data Action : Type 0 where
  channel_opens : (ok : Bool) → Action
  outward_moves inward_moves : Action

abbrev opens : Opening → Bool → Relay → Relay
opens Opening.opening ok s = open_channel ok s
opens _ ok s = s

unfoldable pub step : Relay → Action → Relay
unfolding open_channel
step s (channel_opens ok) = opens s.opening ok s
step s outward_moves = record (closes s.outward s) { outward = after s.outward }
step s inward_moves = record (closes s.inward s) { inward = after s.inward }

unfoldable pub run : Relay → List Action → Relay
run s [] = s
run s (a ∷ as') = run (step s a) as'
