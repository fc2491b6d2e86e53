-- ===== src/Ssh/Forward/Requested.antt =====
-- Every open socket was opened by a request of a live connection.
use workspace_websocket_prox.Base.{
  ℕ, ◌≡◌, refl, ite, Bool, true, false, Option, none, some, arith, ite_both, if_both,
}
use workspace_websocket_prox.Base.Text.{Text, text_eq}
use workspace_websocket_prox.Ssh.Forward.{
  RemoteForwardRequest, Listener, Handler, Callback, Reply, close_forward, start_forward,
  cancel_forward, handle_ssh_request, watch, accept_failed, forward_key, request_type_forward,
  request_type_cancel_forward, new_loopback_forward_handler,
}
use workspace_websocket_prox.Ssh.Forward.Events.{
  Event, request, disconnect, wake, accept_error, step,
}
use workspace_websocket_prox.Ssh.Forward.Table.{listener}

-- Only the first of the two branches may use that the test holds.
ite_cases {ℓ κ μ} :
    {A : Type ℓ} {B : Type κ} (C : A → Type μ) (d : Dec B) {x y : A}
    → (B → C x)
    → C y
    → C (ite d x y)
ite_cases C (yes p) hx hy = hx p
ite_cases C (no n) hx hy = hy

module _ (P : Listener → Type 0) where
  abbrev pub AllOpen : Handler → Type 0
  AllOpen h = (id : ℕ) (l : Listener) → h.sockets id ≡ some l → P l

  -- The listener that a request for a forward asks for, on a live connection.
  abbrev pub IsAsked : Event → Type 0
  IsAsked (request conn live type (some payload) (some port)) =
      live ≡ true → type ≡ request_type_forward → P (listener payload port)
  IsAsked _ = Unit {0}

  close_forward-AllOpen : (k : Text) (h : Handler) → AllOpen h → AllOpen (close_forward k h).0
  unfolding close_forward
  close_forward-AllOpen k h p id l q = p id l (ground arith)

  module _ (callback : Callback) where
    start_forward-AllOpen :
        (conn : ℕ) (live : Bool) (type : Text) (payload : RemoteForwardRequest) (listen : Option ℕ)
        (h : Handler)
        → type ≡ request_type_forward
        → IsAsked (request conn live type (some payload) listen)
        → AllOpen h
        → AllOpen (start_forward callback conn live payload listen h).0
    unfolding start_forward
    start_forward-AllOpen conn true type payload none h e a p id l q = p id l (ground arith)
    start_forward-AllOpen conn false type payload none h e a p id l q = p id l (ground arith)
    start_forward-AllOpen conn true type payload (some port) h e a p id l q =
        ground (arith, p id l, a refl e)
    start_forward-AllOpen conn false type payload (some port) h e a p id l q = p id l (ground arith)

    cancel_forward-AllOpen :
        (payload : RemoteForwardRequest) (h : Handler)
        → AllOpen h
        → AllOpen (cancel_forward payload h).0
    unfolding cancel_forward
    cancel_forward-AllOpen payload h p =
        let k = forward_key payload.bind_addr payload.bind_port in
        if_both {A = Handler × Reply} (λ r. AllOpen r.0) (close_forward k h).1
          (close_forward-AllOpen k h p) p

    watch-AllOpen : (id : ℕ) (h : Handler) → AllOpen h → AllOpen (watch id h)
    unfolding watch
    watch-AllOpen id h p j l q = p j l (ground arith)

    pub step-AllOpen :
        (h : Handler) (e : Event) → IsAsked e → AllOpen h → AllOpen (step callback h e)
    unfolding step handle_ssh_request accept_failed
    step-AllOpen h (request conn live type none listen) a p = p
    step-AllOpen h (request conn live type (some payload) listen) a p =
        ite_cases {A = Handler × Reply} (λ r. AllOpen r.0) (text_eq type request_type_forward)
          (λ e. start_forward-AllOpen conn live type payload listen h e a p)
          (ite_both {A = Handler × Reply} (λ r. AllOpen r.0)
            (text_eq type request_type_cancel_forward) (cancel_forward-AllOpen payload h p) p)
    step-AllOpen h (disconnect conn) a p = p
    step-AllOpen h (wake id) a p = watch-AllOpen id h p
    step-AllOpen h (accept_error id) a p = λ j l q. p j l (ground arith)

  pub new-AllOpen : AllOpen new_loopback_forward_handler
  unfolding new_loopback_forward_handler
  new-AllOpen id l q = cc
