-- ===== src/Ssh/Relay/Examples.antt =====
-- Inbound connections of a forward.
use workspace_websocket_prox.Base.{◌≡◌, inr, refl, true, List, [], ◌∷◌, arith}
use workspace_websocket_prox.Base.Int.{pos}
use workspace_websocket_prox.Base.Text.{codes, has_byte, itoa, join_host_port, cut_last, cut}
use workspace_websocket_prox.Base.Text.Parse.{split_host_port, atoi}
use workspace_websocket_prox.Ssh.Forward.{Listener}
use workspace_websocket_prox.Ssh.Relay.{
  ended, split_addr, inbound_data, accepted, open_channel, Action, channel_opens, inward_moves,
  step, run,
}
use workspace_websocket_prox.Ssh.Relay.Origin.{inbound_data-join_host_port}
use workspace_websocket_prox.Ssh.Relay.Closed.{IsShut, run-IsShut, IsOver, to_end, run-IsOver}

abbrev listening : Listener
listening = record { requested = codes "localhost"; host = codes "localhost"; port = 8888 }

unix_addr : split_addr (codes "@") ≡ (codes "@", pos 0)
unfolding split_addr split_host_port cut_last
unix_addr = refl

v6_addr : split_addr (codes "[::1]:443") ≡ (codes "::1", pos 443)
unfolding split_addr split_host_port cut_last cut has_byte atoi
v6_addr = refl

inbound_data-join_host_port_example :
    inbound_data listening (join_host_port (codes "::1") (itoa 50000)) ≡ record {
      dest_addr = codes "localhost";
      dest_port = 8888;
      origin_addr = codes "::1";
      origin_port = 50000;
    }
unfolding has_byte
inbound_data-join_host_port_example =
    inbound_data-join_host_port listening (codes "::1") 50000 (refl, refl) (omega arith)

-- The client ends its side; the connection is still being read.
abbrev client_ends : List Action
client_ends = channel_opens true ∷ inward_moves ∷ inward_moves ∷ inward_moves ∷ []

client_ended : (run accepted client_ends).inward ≡ ended
unfolding run step open_channel accepted
client_ended = refl

run-IsShut_test : IsShut (run accepted client_ends)
run-IsShut_test = run-IsShut client_ends (inr client_ended)

run-IsOver_test : let s = run (run accepted client_ends) (to_end true) in IsOver s.opening s
run-IsOver_test = run-IsOver client_ends true
