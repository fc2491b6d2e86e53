-- ===== src/Ssh/Forward/Policy.antt =====
-- Reverse forwards bind loopback only. The Server passes allowReverseForward as the callback.
use workspace_websocket_prox.Base.{
  ℕ, ◌≡◌, ◌↔◌, ◌⊎◌, inl, inr, Bool, true, false, Option, none, some, List, [], ◌∷◌, arith,
  Option-cases, ite_both, if_both,
}
use workspace_websocket_prox.Base.Text.{Text, text_eq}
use workspace_websocket_prox.Ssh.Loopback.{Net, IsNet, is_loopback}
use workspace_websocket_prox.Ssh.Forward.{
  RemoteForwardRequest, Listener, Handler, Callback, Reply, bind_host, any_bind_addresses, started,
  close_forward, open_forward, cancel_forward, handle_ssh_request, watch, forward_key,
  accept_failed, put, new_loopback_forward_handler, request_type_forward,
  request_type_cancel_forward, allow_reverse_forward,
}
use workspace_websocket_prox.Ssh.Forward.Events.{
  Event, request, disconnect, wake, accept_error, step, run,
}

module _ (net : Net) where
  abbrev pub policy : Callback
  policy = some (allow_reverse_forward net)

  abbrev IsBound : Listener → Type 0
  IsBound l = (is_loopback net l.host ≡ true) × (l.host ≡ bind_host l.requested)

  abbrev pub IsLocal : Handler → Type 0
  IsLocal h = (id : ℕ) (l : Listener) → h.sockets id ≡ some l → IsBound l

  close_forward-IsLocal : (k : Text) (h : Handler) → IsLocal h → IsLocal (close_forward k h).0
  unfolding close_forward
  close_forward-IsLocal k h p id l q = ground (arith, p id l)

  open_forward-IsLocal :
      (payload : RemoteForwardRequest) (listen : Option ℕ) (h : Handler)
      → IsLocal h
      → IsLocal (open_forward policy payload listen h).0
  unfolding open_forward allow_reverse_forward
  open_forward-IsLocal payload none h p id l q = ground (arith, p id l)
  open_forward-IsLocal payload (some port) h p id l q = ground (arith, p id l)

  started-IsLocal :
      (payload : RemoteForwardRequest) (conn : ℕ) (live : Bool) (r : Handler × Option (ℕ × ℕ))
      → IsLocal r.0
      → IsLocal (started payload conn live r).0
  started-IsLocal payload conn live (h, none) p = p
  started-IsLocal payload conn false (h, some (id, port)) p =
      close_forward-IsLocal (forward_key payload.bind_addr port) h p
  started-IsLocal payload conn true (h, some (id, port)) p = p

  cancel_forward-IsLocal :
      (payload : RemoteForwardRequest) (h : Handler)
      → IsLocal h
      → IsLocal (cancel_forward payload h).0
  unfolding cancel_forward
  cancel_forward-IsLocal payload h p =
      let k = forward_key payload.bind_addr payload.bind_port in
      if_both {A = Handler × Reply} (λ r. IsLocal r.0) (close_forward k h).1
        (close_forward-IsLocal k h p) p

  pub step-IsLocal : (h : Handler) (e : Event) → IsLocal h → IsLocal (step policy h e)
  unfolding step handle_ssh_request watch accept_failed
  step-IsLocal h (request conn live type none listen) p = p
  step-IsLocal h (request conn live type (some payload) listen) p =
      ite_both {A = Handler × Reply} (λ r. IsLocal r.0) (text_eq type request_type_forward)
        (started-IsLocal payload conn live (open_forward policy payload listen h)
          (open_forward-IsLocal payload listen h p))
        (ite_both {A = Handler × Reply} (λ r. IsLocal r.0)
          (text_eq type request_type_cancel_forward) (cancel_forward-IsLocal payload h p) p)
  step-IsLocal h (disconnect conn) p = p
  step-IsLocal h (wake id) p = elim (Option-cases (h.watchers id)) [
    | inl e ↦ rw (e, watch) p
    | inr ((conn, key), e) ↦
        rw (e, watch)
          (if_both {A = Handler} IsLocal (h.ended conn)
            {x = (close_forward key (record h { watchers = put h.watchers id none })).0} {y = h}
            (close_forward-IsLocal key (record h { watchers = put h.watchers id none }) p) p)
  ]
  step-IsLocal h (accept_error id) p = λ j l q. ground (arith, p j l)

  run-IsLocal : (h : Handler) (es : List Event) → IsLocal h → IsLocal (run policy h es)
  unfolding run
  run-IsLocal h [] p = p
  run-IsLocal h (e ∷ es) p = run-IsLocal (step policy h e) es (step-IsLocal h e p)

  pub new-IsLocal : IsLocal new_loopback_forward_handler
  unfolding new_loopback_forward_handler
  new-IsLocal id l q = cc

  -- Whatever clients request, and whatever the kernel answers, every open listener is bound to a
  -- loopback address: the one that was requested, or 127.0.0.1 for a wildcard.
  pub host-run :
      (es : List Event) (id : ℕ) (l : Listener)
      → (run policy new_loopback_forward_handler es).sockets id ≡ some l
      → (is_loopback net l.host ≡ true) × (l.host ≡ bind_host l.requested)
  host-run es = run-IsLocal new_loopback_forward_handler es new-IsLocal

  -- With package net as documented, a request passes the policy exactly when its address is a
  -- wildcard or a loopback address, and never both.
  pub allow_reverse_forward-bind_host :
      IsNet net
      → (a : Text) (port : ℕ)
      → ((allow_reverse_forward net (bind_host a) port ≡ true)
          ↔ ((any_bind_addresses a ≡ true) ⊎ (is_loopback net a ≡ true)))
        × (any_bind_addresses a ≡ true → is_loopback net a ≡ false)
  unfolding allow_reverse_forward bind_host any_bind_addresses is_loopback
  allow_reverse_forward-bind_host n a port =
      ((λ h. ground arith, λ h. ground arith), λ h. ground arith)
