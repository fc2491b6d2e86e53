-- ===== src/Ssh/Forward/Examples.antt =====
-- Forwards of two clients, over an address parser that knows three addresses.
use workspace_websocket_prox.Base.{
  ℕ, ◌≡◌, ◌≢◌, ◌↔◌, ◌⊎◌, refl, Bool, true, false, Option, none, some, List, [], ◌∷◌, arith, ite,
}
use workspace_websocket_prox.Base.Text.{Text, codes, text_eq}
use workspace_websocket_prox.Ssh.Loopback.{Net, IsNet, is_loopback, loopback_ipv4}
use workspace_websocket_prox.Ssh.Forward.{
  RemoteForwardRequest, Listener, Callback, empty, bind_host, forward_key, cancel_forward,
  channel_data, allow_reverse_forward, any_bind_addresses, new_loopback_forward_handler,
  request_type_forward, start_forward, handle_ssh_request,
}
use workspace_websocket_prox.Ssh.Forward.Events.{
  Event, request, disconnect, wake, accept_error, step, run, QuietRun,
}
use workspace_websocket_prox.Ssh.Forward.Table.{forward_key-injective}
use workspace_websocket_prox.Ssh.Forward.Registered.{cancel_forward-channel_data}
use workspace_websocket_prox.Ssh.Forward.Policy.{policy, host-run, allow_reverse_forward-bind_host}
use workspace_websocket_prox.Ssh.Forward.Leaks.{
  sockets-accept_error, taken_over, sockets-taken_over,
}

abbrev known : Text → Option Bool
known a = ite (text_eq a (codes "127.0.0.1")) (some true) (
    ite (text_eq a (codes "0.0.0.0")) (some false) (ite (text_eq a (codes "::")) (some false) none))

abbrev small_net : Net
small_net = record { Ip = Bool; parse_ip = known; ip_is_loopback = λ b. b }

small_net-IsNet : IsNet small_net
unfolding text_eq
small_net-IsNet = record {
  loopback_ipv4 = (true, refl, refl);
  any_ipv4 = (false, refl, refl);
  any_ipv6 = (false, refl, refl);
}

abbrev wildcard : RemoteForwardRequest
wildcard = record { bind_addr = codes "*"; bind_port = 0 }

abbrev allowing : Callback
allowing = some (λ host port. true)

abbrev registered : List Event
registered = request 7 true request_type_forward (some wildcard) (some 9000) ∷ []

abbrev listening : Listener
listening = record { requested = codes "*"; host = loopback_ipv4; port = 9000 }

registered-QuietRun : QuietRun allowing new_loopback_forward_handler registered
unfolding new_loopback_forward_handler
registered-QuietRun = (λ id l q. cc, tt)

registered_socket :
    (run allowing new_loopback_forward_handler registered).sockets 0 ≡ some listening
unfolding run step handle_ssh_request start_forward text_eq new_loopback_forward_handler bind_host
    any_bind_addresses
registered_socket = refl

cancel_forward-channel_data_example :
    let h = run allowing new_loopback_forward_handler registered in
    let d = channel_data listening (codes "127.0.0.1", 40000) in
    let r = cancel_forward (record { bind_addr = d.dest_addr; bind_port = d.dest_port }) h in
    (r.1 ≡ (true, empty)) × (r.0.sockets 0 ≡ none) × ((j : ℕ) → j ≢ 0 → r.0.sockets j ≡ h.sockets j)
cancel_forward-channel_data_example =
    cancel_forward-channel_data allowing registered 0 listening (codes "127.0.0.1", 40000)
      registered-QuietRun registered_socket

policy_socket :
    (run (policy small_net) new_loopback_forward_handler registered).sockets 0 ≡ some listening
unfolding run step handle_ssh_request start_forward text_eq new_loopback_forward_handler bind_host
    any_bind_addresses allow_reverse_forward is_loopback
policy_socket = refl

host-run_example :
    (is_loopback small_net loopback_ipv4 ≡ true) × (loopback_ipv4 ≡ bind_host (codes "*"))
host-run_example = host-run small_net registered 0 listening policy_socket

wildcards_and_loopback :
    ((allow_reverse_forward small_net (bind_host (codes "10.0.0.1")) 80 ≡ true) ↔ (
      (any_bind_addresses (codes "10.0.0.1") ≡ true)
      ⊎ (is_loopback small_net (codes "10.0.0.1") ≡ true)))
    × (any_bind_addresses (codes "10.0.0.1") ≡ true
        → is_loopback small_net (codes "10.0.0.1") ≡ false)
wildcards_and_loopback =
    allow_reverse_forward-bind_host small_net small_net-IsNet (codes "10.0.0.1") 80

forward_key-injective_test : (codes "::1" ≡ codes "::1") × (◌≡◌ {A = ℕ} 22 22)
forward_key-injective_test = forward_key-injective (codes "::1") (codes "::1") 22 22 refl

sockets-accept_error_example :
    let h = step allowing (run allowing new_loopback_forward_handler registered) (accept_error 0) in
    let later = disconnect 7 ∷ wake 0 ∷ [] in
    ((run allowing h later).sockets 0 ≡ some listening)
    × ((k : Text) → (run allowing h later).forwards k ≢ some 0)
sockets-accept_error_example =
    sockets-accept_error allowing 0 listening registered (disconnect 7 ∷ wake 0 ∷ [])
      registered_socket

sockets-taken_over_example :
    let h = run allowing new_loopback_forward_handler (taken_over wildcard 7 8 9000) in
    (h.sockets 1 ≡ none)
    × (h.watchers 1 ≡ some (8, forward_key (codes "*") 9000))
    × (h.ended 8 ≡ false)
sockets-taken_over_example =
    sockets-taken_over (λ host port. true) wildcard 7 8 9000 (omega arith) refl
