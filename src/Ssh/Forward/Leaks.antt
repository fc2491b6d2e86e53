-- ===== src/Ssh/Forward/Leaks.antt =====
-- Two ways in which a listener and its table entry come apart.
use workspace_websocket_prox.Base.{
  ℕ, suc, ◌≤◌, ◌≡◌, ◌≢◌, refl, inl, inr, Bool, true, false, Option, none, some, List, [], ◌∷◌,
  arith, Option-cases, ite_both, if_both,
}
use workspace_websocket_prox.Base.Text.{Text, text_eq}
use workspace_websocket_prox.Ssh.Forward.{
  RemoteForwardRequest, Listener, Handler, Callback, Reply, started, start_forward, bind_host, put,
  forward_key, close_forward, open_forward, cancel_forward, handle_ssh_request, watch,
  accept_failed, new_loopback_forward_handler, request_type_forward, request_type_cancel_forward,
}
use workspace_websocket_prox.Ssh.Forward.Events.{
  Event, request, disconnect, wake, accept_error, step, run,
}
use workspace_websocket_prox.Ssh.Forward.Named.{Named, accept_failed-unnamed, reached-Named}

module _ (callback : Callback) (id : ℕ) (l : Listener) where
  -- The socket is open and no key leads to it.
  record IsLost (h : Handler) : Type 0 where
    held : h.sockets id ≡ some l
    unnamed : (k : Text) → h.forwards k ≢ some id
    old : suc id ≤ h.next

  close_forward-IsLost : (k : Text) (h : Handler) → IsLost h → IsLost (close_forward k h).0
  unfolding close_forward
  close_forward-IsLost k h v = elim (Option-cases (h.forwards k)) [
    | inl e ↦ rw (e, close_forward) v
    | inr (j, e) ↦
        rw (e, close_forward)
          (record {
            held = ground (arith, v.held, v.unnamed k);
            unnamed = λ k' q. ground (arith, v.unnamed k');
            old = v.old;
          })
  ]

  open_forward-IsLost :
      (payload : RemoteForwardRequest) (listen : Option ℕ) (h : Handler)
      → IsLost h
      → IsLost (open_forward callback payload listen h).0
  unfolding open_forward
  open_forward-IsLost payload none h v = record {
    held = ground (arith, v.held);
    unnamed = λ k q. ground (arith, v.unnamed k);
    old = ground (arith, v.old);
  }
  open_forward-IsLost payload (some port) h v = record {
    held = ground (arith, v.held, v.old);
    unnamed = λ k q. ground (arith, v.unnamed k, v.old);
    old = ground (arith, v.old);
  }

  started-IsLost :
      (payload : RemoteForwardRequest) (conn : ℕ) (live : Bool) (r : Handler × Option (ℕ × ℕ))
      → IsLost r.0
      → IsLost (started payload conn live r).0
  started-IsLost payload conn live (h, none) v = v
  started-IsLost payload conn false (h, some (j, port)) v =
      close_forward-IsLost (forward_key payload.bind_addr port) h v
  started-IsLost payload conn true (h, some (j, port)) v = record {
    held = v.held;
    unnamed = v.unnamed;
    old = v.old;
  }

  cancel_forward-IsLost :
      (payload : RemoteForwardRequest) (h : Handler)
      → IsLost h
      → IsLost (cancel_forward payload h).0
  unfolding cancel_forward
  cancel_forward-IsLost payload h v =
      let k = forward_key payload.bind_addr payload.bind_port in
      if_both {A = Handler × Reply} (λ r. IsLost r.0) (close_forward k h).1
        (close_forward-IsLost k h v) v

  step-IsLost : (h : Handler) (e : Event) → IsLost h → IsLost (step callback h e)
  unfolding step handle_ssh_request watch accept_failed
  step-IsLost h (request conn live type none listen) v = v
  step-IsLost h (request conn live type (some payload) listen) v =
      ite_both {A = Handler × Reply} (λ r. IsLost r.0) (text_eq type request_type_forward)
        (started-IsLost payload conn live (open_forward callback payload listen h)
          (open_forward-IsLost payload listen h v))
        (ite_both {A = Handler × Reply} (λ r. IsLost r.0) (text_eq type request_type_cancel_forward)
          (cancel_forward-IsLost payload h v) v)
  step-IsLost h (disconnect conn) v = record { held = v.held; unnamed = v.unnamed; old = v.old }
  step-IsLost h (wake j) v = elim (Option-cases (h.watchers j)) [
    | inl e ↦ rw (e, watch) v
    | inr ((conn, key), e) ↦
        rw (e, watch)
          (if_both {A = Handler} IsLost (h.ended conn)
            (close_forward-IsLost key _
              (record { held = v.held; unnamed = v.unnamed; old = v.old }))
            v)
  ]
  step-IsLost h (accept_error j) v = record {
    held = ground (arith, v.held);
    unnamed = λ k q. ground (arith, v.unnamed k);
    old = ground (arith, v.old);
  }

  run-IsLost : (h : Handler) (es : List Event) → IsLost h → IsLost (run callback h es)
  unfolding run
  run-IsLost h [] v = v
  run-IsLost h (e ∷ es) v = run-IsLost (step callback h e) es (step-IsLost h e v)

  accept_failed-IsLost :
      (h : Handler) → Named h → h.sockets id ≡ some l → IsLost (accept_failed id h)
  unfolding accept_failed
  accept_failed-IsLost h v s = record {
    held = ground arith;
    unnamed = λ k. accept_failed-unnamed id h k v;
    old = ground (arith, v.fresh id);
  }

  -- After any events: if Accept fails on a listener that is open, its accept loop takes the entry away
  -- and leaves the socket open: no key names it any more, and whatever happens later it is never
  -- closed.
  pub sockets-accept_error :
      (before later : List Event)
      → (run callback new_loopback_forward_handler before).sockets id ≡ some l
      → let h =
          step callback (run callback new_loopback_forward_handler before) (accept_error id) in
        ((run callback h later).sockets id ≡ some l)
        × ((k : Text) → (run callback h later).forwards k ≢ some id)
  unfolding step
  sockets-accept_error before later s =
      let lost = run-IsLost _ later (accept_failed-IsLost _ (reached-Named callback before) s) in
      (lost.held, lost.unnamed)

-- A client on connection `a` registers an address, cancels it, and a client on connection `b`
-- registers it again; then `a` ends.
abbrev pub taken_over : RemoteForwardRequest → (a b port : ℕ) → List Event
taken_over payload a b port =
    request a true request_type_forward (some payload) (some port)
    ∷ request a true request_type_cancel_forward (some (record payload { bind_port = port })) none
    ∷ request b true request_type_forward (some payload) (some port)
    ∷ disconnect a
    ∷ wake 0
    ∷ []

abbrev registered_again : Callback → RemoteForwardRequest → (a b port : ℕ) → Handler
registered_again callback payload a b port =
    let h = (start_forward callback a true payload (some port) new_loopback_forward_handler).0 in
    let h' = (cancel_forward (record payload { bind_port = port }) h).0 in
    (start_forward callback b true payload (some port) h').0

run-taken_over :
    (callback : Callback) (payload : RemoteForwardRequest) (a b port : ℕ)
    → let h = registered_again callback payload a b port in
      run callback new_loopback_forward_handler (taken_over payload a b port)
      ≡ watch 0 (record h { ended = put h.ended a true })
unfolding run step handle_ssh_request text_eq
run-taken_over callback payload a b port = refl

-- The watcher that `a` left behind then closes the listener of `b`, which has not ended.
pub sockets-taken_over :
    (callback : Text → ℕ → Bool) (payload : RemoteForwardRequest) (a b port : ℕ)
    → a ≢ b
    → callback (bind_host payload.bind_addr) payload.bind_port ≡ true
    → let h = run (some callback) new_loopback_forward_handler (taken_over payload a b port) in
      (h.sockets 1 ≡ none)
      × (h.watchers 1 ≡ some (b, forward_key payload.bind_addr port))
      × (h.ended b ≡ false)
unfolding start_forward cancel_forward watch new_loopback_forward_handler
sockets-taken_over callback payload a b port n ok =
    rw run-taken_over (ground arith, ground arith, ground arith)
