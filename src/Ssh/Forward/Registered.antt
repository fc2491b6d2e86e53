-- ===== src/Ssh/Forward/Registered.antt =====
-- Every open socket can be closed by a cancel of the address that its channels report.
use workspace_websocket_prox.Base.{
  ℕ, ◌≡◌, ◌≢◌, refl, inl, inr, Bool, true, false, Option, none, some, List, [], ◌∷◌, arith,
  Option-cases, Bool-cases, ite_both,
}
use workspace_websocket_prox.Base.Text.{Text, text_eq}
use workspace_websocket_prox.Ssh.Forward.{
  RemoteForwardRequest, Listener, Handler, Callback, Reply, empty, forward_key, started,
  same_listener, close_forward, open_forward, start_forward, cancel_forward, handle_ssh_request,
  watch, accept_failed, channel_data, new_loopback_forward_handler, request_type_forward,
  request_type_cancel_forward,
}
use workspace_websocket_prox.Ssh.Forward.Events.{
  Event, request, disconnect, wake, accept_error, step, run, IsFreePort, IsQuiet, QuietRun,
}
use workspace_websocket_prox.Ssh.Forward.Table.{
  listener_key, Table, close_forward-Table, open_forward-Table,
}

-- An accept loop runs for each open socket, under the socket's key.
abbrev pub HasLoops : Handler → Type 0
HasLoops h = (id : ℕ) (l : Listener) → h.sockets id ≡ some l → h.loops id ≡ some (listener_key l)

pub record Inv (h : Handler) : Type 0 where
  pub table : Table h
  pub accepting : HasLoops h

close_forward-HasLoops : (k : Text) (h : Handler) → HasLoops h → HasLoops (close_forward k h).0
unfolding close_forward
close_forward-HasLoops k h p id l q = ground (arith, p id l)

close_forward-Inv : (k : Text) (h : Handler) → Inv h → Inv (close_forward k h).0
close_forward-Inv k h v = record {
  table = close_forward-Table k h v.table;
  accepting = close_forward-HasLoops k h v.accepting;
}

start_forward-HasLoops :
    (callback : Callback) (conn : ℕ) (live : Bool) (payload : RemoteForwardRequest)
    (listen : Option ℕ) (h : Handler)
    → HasLoops h
    → HasLoops (start_forward callback conn live payload listen h).0
unfolding start_forward
start_forward-HasLoops callback conn true payload none h p id l q = ground (arith, p id l)
start_forward-HasLoops callback conn false payload none h p id l q = ground (arith, p id l)
start_forward-HasLoops callback conn true payload (some port) h p id l q = ground (arith, p id l)
start_forward-HasLoops callback conn false payload (some port) h p id l q = ground (arith, p id l)

started-Table :
    (payload : RemoteForwardRequest) (conn : ℕ) (live : Bool) (r : Handler × Option (ℕ × ℕ))
    → Table r.0
    → Table (started payload conn live r).0
started-Table payload conn live (h, none) t = t
started-Table payload conn false (h, some (id, port)) t =
    close_forward-Table (forward_key payload.bind_addr port) h t
started-Table payload conn true (h, some (id, port)) t = t

cancel_forward-Inv :
    (payload : RemoteForwardRequest) (h : Handler) → Inv h → Inv (cancel_forward payload h).0
unfolding cancel_forward
cancel_forward-Inv payload h v =
    let k = forward_key payload.bind_addr payload.bind_port in
    elim (Bool-cases (close_forward k h).1) [
      | inl e ↦ rw e (close_forward-Inv k h v)
      | inr e ↦ rw e v
    ]

handle_ssh_request-Inv :
    (callback : Callback) (conn : ℕ) (live : Bool) (type : Text)
    (payload : Option RemoteForwardRequest) (listen : Option ℕ) (h : Handler)
    → Inv h
    → IsFreePort h payload listen
    → Inv (handle_ssh_request callback conn live type payload listen h).0
unfolding handle_ssh_request
handle_ssh_request-Inv callback conn live type none listen h v free = v
handle_ssh_request-Inv callback conn live type (some payload) listen h v free =
    ite_both {A = Handler × Reply} (λ r. Inv r.0) (text_eq type request_type_forward)
      (record {
        table =
            started-Table payload conn live (open_forward callback payload listen h)
              (open_forward-Table callback payload listen h v.table free);
        accepting = start_forward-HasLoops callback conn live payload listen h v.accepting;
      })
      (ite_both {A = Handler × Reply} (λ r. Inv r.0) (text_eq type request_type_cancel_forward)
        (cancel_forward-Inv payload h v) v)

watch-Inv : (id : ℕ) (h : Handler) → Inv h → Inv (watch id h)
unfolding watch
watch-Inv id h v = elim (Option-cases (h.watchers id)) [
  | inl e ↦ rw (e, watch) v
  | inr ((conn, key), e) ↦ elim (Bool-cases (h.ended conn)) [
    | inl over ↦
        rw (e, watch)
          (rw over (close_forward-Inv key _ (record { table = v.table; accepting = v.accepting })))
    | inr still ↦ rw (e, watch) (rw still v)
  ]
]

-- A closed listener has no entry left to take away.
closed_not_entered :
    (key : Text) (id : ℕ) (h : Handler)
    → Table h
    → h.sockets id ≡ none
    → same_listener (h.forwards key) id ≡ false
closed_not_entered key id h t closed = elim (Option-cases (h.forwards key)) [
  | inl e ↦ rw e
  | inr (other, e) ↦ let (l, s, lk) = t.open_entry key other e in ground arith
]

accept_failed-Inv : (id : ℕ) (h : Handler) → Inv h → h.sockets id ≡ none → Inv (accept_failed id h)
unfolding accept_failed
accept_failed-Inv id h v closed = elim (Option-cases (h.loops id)) [
  | inl e ↦ rw (e, accept_failed) v
  | inr (key, e) ↦
      rw (e, accept_failed, closed_not_entered key id h v.table closed)
        (record { table = v.table; accepting = λ j l q. ground (arith, v.accepting j l) })
]

step-Inv :
    (callback : Callback) (h : Handler) (e : Event) → Inv h → IsQuiet h e → Inv (step callback h e)
unfolding step
step-Inv callback h (request conn live type payload listen) v q =
    handle_ssh_request-Inv callback conn live type payload listen h v q
step-Inv callback h (disconnect conn) v q = record { table = v.table; accepting = v.accepting }
step-Inv callback h (wake id) v q = watch-Inv id h v
step-Inv callback h (accept_error id) v q = accept_failed-Inv id h v q

run-Inv :
    (callback : Callback) (h : Handler) (es : List Event)
    → Inv h
    → QuietRun callback h es
    → Inv (run callback h es)
unfolding run
run-Inv callback h [] v q = v
run-Inv callback h (e ∷ es) v q =
    run-Inv callback (step callback h e) es (step-Inv callback h e v q.0) q.1

new-Inv : Inv new_loopback_forward_handler
unfolding new_loopback_forward_handler
new-Inv = record {
  table = record {
    entered = λ id l q. cc;
    open_entry = λ k id q. absurd (cc);
    fresh = λ id q. refl;
    bound_host = λ id l q. cc;
  };
  accepting = λ id l q. cc;
}

pub reached-Inv :
    (callback : Callback) (es : List Event)
    → QuietRun callback new_loopback_forward_handler es
    → Inv (run callback new_loopback_forward_handler es)
reached-Inv callback es q = run-Inv callback new_loopback_forward_handler es new-Inv q

-- After any events in which Accept fails on closed listeners only and the kernel binds no port
-- twice: a client that cancels the address and port which the channels of an open listener report
-- gets a success, and that listener is closed and no other.
pub cancel_forward-channel_data :
    (callback : Callback) (es : List Event) (id : ℕ) (l : Listener) (origin : Text × ℕ)
    → QuietRun callback new_loopback_forward_handler es
    → (run callback new_loopback_forward_handler es).sockets id ≡ some l
    → let h = run callback new_loopback_forward_handler es in
      let d = channel_data l origin in
      let r = cancel_forward (record { bind_addr = d.dest_addr; bind_port = d.dest_port }) h in
      (r.1 ≡ (true, empty))
      × (r.0.sockets id ≡ none)
      × ((j : ℕ) → j ≢ id → r.0.sockets j ≡ h.sockets j)
unfolding cancel_forward channel_data
cancel_forward-channel_data callback es id l origin q s =
    let e = (reached-Inv callback es q).table.entered id l s in
    (ground arith, ground arith, λ j n. ground arith)
