-- ===== src/Ssh/Forward/Named.antt =====
-- What holds of the table of forwards after any events: a key names an open socket with that key, and
-- the accept loop of a socket that is named runs.
use workspace_websocket_prox.Base.{
  ℕ, ◌≤◌, ◌≡◌, ◌≢◌, ◌⊎◌, refl, ◌∙◌, ap, inl, inr, Bool, true, false, Option, none, some, List, [],
  ◌∷◌, arith, ℕ_discrete, Option-cases, Bool-cases, ite_both, if_both,
}
use workspace_websocket_prox.Base.Text.{Text, text_eq}
use workspace_websocket_prox.Ssh.Forward.{
  RemoteForwardRequest, Listener, Handler, Callback, Reply, bind_host, close_forward, start_forward,
  cancel_forward, put, put_key, handle_ssh_request, watch, accept_failed, forward_key,
  request_type_forward, request_type_cancel_forward, new_loopback_forward_handler, allows,
}
use workspace_websocket_prox.Ssh.Forward.Events.{
  Event, request, disconnect, wake, accept_error, step, run,
}
use workspace_websocket_prox.Ssh.Forward.Table.{listener, listener_key}

-- The loop of a socket runs, or no key names the socket.
abbrev IsLooped : Handler → ℕ → Listener → Type 0
IsLooped h id l = (h.loops id ≡ some (listener_key l)) ⊎ ((k : Text) → h.forwards k ≢ some id)

pub record Named (h : Handler) : Type 0 where
  pub open_entry :
      (k : Text) (id : ℕ)
      → h.forwards k ≡ some id
      → (l : Listener) × (h.sockets id ≡ some l) × (listener_key l ≡ k)
  pub fresh : (id : ℕ) → h.next ≤ id → h.sockets id ≡ none
  pub looped : (id : ℕ) (l : Listener) → h.sockets id ≡ some l → IsLooped h id l

-- A table with fewer names, where the loops of the sockets are the same.
fewer_names :
    (h h' : Handler) (id : ℕ) (l : Listener)
    → h'.loops id ≡ h.loops id
    → ((k : Text) → h'.forwards k ≡ some id → h.forwards k ≡ some id)
    → IsLooped h id l
    → IsLooped h' id l
fewer_names h h' id l same less (inl e) = inl (ground arith)
fewer_names h h' id l same less (inr n) = inr (λ k e. n k (less k e))

close_forward-Named : (k : Text) (h : Handler) → Named h → Named (close_forward k h).0
unfolding close_forward
close_forward-Named k h v = elim (Option-cases (h.forwards k)) [
  | inl e ↦ rw (e, close_forward) v
  | inr (id, e) ↦
      rw (e, close_forward)
        (record {
          open_entry = λ k' j q.
              let (l, s, lk) = v.open_entry k' j (ground arith) in
              let (l₀, s₀, lk₀) = v.open_entry k id e in (l, ground arith, lk);
          fresh = λ j q. ground (arith, v.fresh j);
          looped = λ j l q.
              fewer_names h
                (record h { forwards = put_key h.forwards k none; sockets = put h.sockets id none })
                j l refl (λ k' q'. ground arith) (v.looped j l (ground arith));
        })
]

module _ (callback : Callback) where
  start_forward-IsLooped :
      (conn : ℕ) (live : Bool) (payload : RemoteForwardRequest) (port : ℕ) (h : Handler)
      → Named h
      → let h' = (start_forward callback conn live payload (some port) h).0 in
        (id : ℕ) (l : Listener) → h'.sockets id ≡ some l → IsLooped h' id l
  unfolding start_forward
  start_forward-IsLooped conn true payload port h v id l q = elim (ℕ_discrete id h.next) [
    | yes e ↦ inl (ground (arith, v.fresh id))
    | no n ↦ elim (v.looped id l (ground arith)) [
      | inl e ↦ inl (ground arith)
      | inr e ↦ inr (λ k q'. e k (ground arith))
    ]
  ]
  start_forward-IsLooped conn false payload port h v id l q = elim (ℕ_discrete id h.next) [
    | yes e ↦ absurd (ground (arith, v.fresh id))
    | no n ↦ elim (v.looped id l (ground arith)) [
      | inl e ↦ inl (ground arith)
      | inr e ↦ inr (λ k q'. e k (ground arith))
    ]
  ]

  start_forward-open_entry :
      (conn : ℕ) (live : Bool) (payload : RemoteForwardRequest) (port : ℕ) (h : Handler)
      → Named h
      → let h' = (start_forward callback conn live payload (some port) h).0 in
        (k : Text) (id : ℕ)
        → h'.forwards k ≡ some id
        → (l : Listener) × (h'.sockets id ≡ some l) × (listener_key l ≡ k)
  unfolding start_forward
  start_forward-open_entry conn true payload port h v k id q = elim (ℕ_discrete id h.next) [
    | yes e ↦ (
      listener payload port,
      ground (arith, v.open_entry k id, v.fresh id),
      ground (arith, v.open_entry k id, v.fresh id),
    )
    | no n ↦
        let (l, s, lk) = v.open_entry k id (ground arith) in (l, ground (arith, v.fresh h.next), lk)
  ]
  start_forward-open_entry conn false payload port h v k id q =
      let (l, s, lk) = v.open_entry k id (ground arith) in (l, ground (arith, v.fresh h.next), lk)

  start_forward-Named :
      (conn : ℕ) (live : Bool) (payload : RemoteForwardRequest) (listen : Option ℕ) (h : Handler)
      → Named h
      → Named (start_forward callback conn live payload listen h).0
  unfolding start_forward
  start_forward-Named conn live payload (some port) h v = record {
    open_entry = start_forward-open_entry conn live payload port h v;
    fresh = λ j q. ground (arith, v.fresh j);
    looped = start_forward-IsLooped conn live payload port h v;
  }
  start_forward-Named conn live payload none h v =
      elim (Bool-cases (allows callback (bind_host payload.bind_addr) payload.bind_port)) [
        | inl e ↦ rw e v
        | inr e ↦ rw e v
      ]

cancel_forward-Named :
    (payload : RemoteForwardRequest) (h : Handler) → Named h → Named (cancel_forward payload h).0
unfolding cancel_forward
cancel_forward-Named payload h v =
    let k = forward_key payload.bind_addr payload.bind_port in
    if_both {A = Handler × Reply} (λ r. Named r.0) (close_forward k h).1 (close_forward-Named k h v)
      v

watch-Named : (id : ℕ) (h : Handler) → Named h → Named (watch id h)
unfolding watch
watch-Named id h v = elim (Option-cases (h.watchers id)) [
  | inl e ↦ rw (e, watch) v
  | inr ((conn, key), e) ↦
      rw (e, watch)
        (if_both {A = Handler} Named (h.ended conn)
          (close_forward-Named key _
            (record { open_entry = v.open_entry; fresh = v.fresh; looped = v.looped }))
          v)
]

takes_away :
    (id : ℕ) (h : Handler) (k : Text)
    → h.loops id ≡ some k
    → (accept_failed id h).forwards k ≢ some id
unfolding accept_failed
takes_away id h k e q = ground arith

fewer_entries :
    (id : ℕ) (h : Handler) (k : Text) (j : ℕ)
    → (accept_failed id h).forwards k ≡ some j
    → h.forwards k ≡ some j
unfolding accept_failed
fewer_entries id h k j q = ground arith

-- The loop that ends leaves its listener without a name.
pub accept_failed-unnamed :
    (id : ℕ) (h : Handler) (k : Text) → Named h → (accept_failed id h).forwards k ≢ some id
accept_failed-unnamed id h k v q =
    let before = fewer_entries id h k id q in
    let (l, s, lk) = v.open_entry k id before in
    elim (v.looped id l s) [ inl e ↦ takes_away id h k (e ∙ ap some lk) q | inr n ↦ n k before ]

accept_failed-Named : (id : ℕ) (h : Handler) → Named h → Named (accept_failed id h)
unfolding accept_failed
accept_failed-Named id h v = record {
  open_entry = λ k j q. let (l, s, lk) = v.open_entry k j (ground arith) in (l, ground arith, lk);
  fresh = λ j q. ground (arith, v.fresh j);
  looped = λ j l q. elim (ℕ_discrete j id) [
    | yes e ↦ inr (λ k q'. accept_failed-unnamed id h k v (q' ∙ ap some e))
    | no n ↦ elim (v.looped j l (ground arith)) [
      | inl e ↦ inl (ground arith)
      | inr e ↦ inr (λ k q'. e k (ground arith))
    ]
  ];
}

step-Named : (callback : Callback) (h : Handler) (e : Event) → Named h → Named (step callback h e)
unfolding step handle_ssh_request
step-Named callback h (request conn live type none listen) v = v
step-Named callback h (request conn live type (some payload) listen) v =
    ite_both {A = Handler × Reply} (λ r. Named r.0) (text_eq type request_type_forward)
      (start_forward-Named callback conn live payload listen h v)
      (ite_both {A = Handler × Reply} (λ r. Named r.0) (text_eq type request_type_cancel_forward)
        (cancel_forward-Named payload h v) v)
step-Named callback h (disconnect conn) v = record {
  open_entry = v.open_entry;
  fresh = v.fresh;
  looped = v.looped;
}
step-Named callback h (wake id) v = watch-Named id h v
step-Named callback h (accept_error id) v = accept_failed-Named id h v

run-Named :
    (callback : Callback) (h : Handler) (es : List Event) → Named h → Named (run callback h es)
unfolding run
run-Named callback h [] v = v
run-Named callback h (e ∷ es) v =
    run-Named callback (step callback h e) es (step-Named callback h e v)

new-Named : Named new_loopback_forward_handler
unfolding new_loopback_forward_handler
new-Named = record {
  open_entry = λ k id q. absurd (cc);
  fresh = λ id q. refl;
  looped = λ id l q. absurd (cc);
}

pub reached-Named :
    (callback : Callback) (es : List Event) → Named (run callback new_loopback_forward_handler es)
reached-Named callback es = run-Named callback new_loopback_forward_handler es new-Named
