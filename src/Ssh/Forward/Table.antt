-- ===== src/Ssh/Forward/Table.antt =====
-- The table of forwards names the open sockets, each under its own key.
use workspace_websocket_prox.Base.{
  ℕ, ◌≤◌, ◌≡◌, inl, inr, Option, none, some, arith, Option-cases, Bool-cases,
}
use workspace_websocket_prox.Base.Text.{Text, text_eq, itoa}
use workspace_websocket_prox.Base.Text.Laws.{
  itoa-injective, has_byte-itoa, join_host_port-injective,
}
use workspace_websocket_prox.Ssh.Forward.{
  RemoteForwardRequest, Listener, Handler, Callback, bind_host, forward_key, allows, close_forward,
  open_forward,
}
use workspace_websocket_prox.Ssh.Forward.Events.{IsFreePort}

-- The key of a forward determines the address and the port of the request.
pub forward_key-injective :
    (a b : Text) (p q : ℕ) → forward_key a p ≡ forward_key b q → (a ≡ b) × (p ≡ q)
unfolding forward_key
forward_key-injective a b p q e =
    let (same, ports) =
      join_host_port-injective a b (itoa p) (itoa q) (has_byte-itoa p) (has_byte-itoa q) e in
    (same, itoa-injective p q ports)

abbrev pub listener_key : Listener → Text
listener_key l = forward_key l.requested l.port

-- A table that names the open sockets, each under its own key.
pub record Names (forwards : Text → Option ℕ) (sockets : ℕ → Option Listener) (next : ℕ)
    : Type 0 where
  pub entered : (id : ℕ) (l : Listener) → sockets id ≡ some l → forwards (listener_key l) ≡ some id
  pub open_entry :
      (k : Text) (id : ℕ)
      → forwards k ≡ some id
      → (l : Listener) × (sockets id ≡ some l) × (listener_key l ≡ k)
  pub fresh : (id : ℕ) → next ≤ id → sockets id ≡ none
  pub bound_host : (id : ℕ) (l : Listener) → sockets id ≡ some l → l.host ≡ bind_host l.requested

abbrev pub Table : Handler → Type 0
Table h = Names h.forwards h.sockets h.next

pub close_forward-Table : (k : Text) (h : Handler) → Table h → Table (close_forward k h).0
unfolding close_forward
close_forward-Table k h t = elim (Option-cases (h.forwards k)) [
  | inl e ↦ rw (e, close_forward) t
  | inr (id, e) ↦
      rw (e, close_forward)
        (record {
          entered = λ j l q. ground (arith, t.entered j l);
          open_entry = λ k' j q.
              let (l, s, lk) = t.open_entry k' j (ground arith) in
              let (l₀, s₀, lk₀) = t.open_entry k id e in (l, ground arith, lk);
          fresh = λ j q. ground (arith, t.fresh j);
          bound_host = λ j l q. ground (arith, t.bound_host j l);
        })
]

abbrev pub listener : RemoteForwardRequest → ℕ → Listener
listener payload port = record {
  requested = payload.bind_addr;
  host = bind_host payload.bind_addr;
  port = port;
}

pub open_forward-Table :
    (callback : Callback) (payload : RemoteForwardRequest) (listen : Option ℕ) (h : Handler)
    → Table h
    → IsFreePort h (some payload) listen
    → Table (open_forward callback payload listen h).0
unfolding open_forward
open_forward-Table callback payload none h t free =
    elim (Bool-cases (allows callback (bind_host payload.bind_addr) payload.bind_port)) [
      | inl e ↦ rw e t
      | inr e ↦ rw e t
    ]
open_forward-Table callback payload (some port) h t free =
    elim (Bool-cases (allows callback (bind_host payload.bind_addr) payload.bind_port)) [
      | inr e ↦ rw e t
      | inl e ↦ rw e (record {
        entered = λ j l q. ground (
          arith,
          t.entered j l,
          t.fresh h.next,
          t.bound_host j l,
          free j l,
          forward_key-injective payload.bind_addr l.requested port l.port,
        );
        open_entry = λ k' j q. elim (text_eq (forward_key payload.bind_addr port) k') [
          | yes same ↦ (listener payload port, ground arith, same)
          | no other ↦
              let (l, s, lk) = t.open_entry k' j (ground arith) in
              (l, ground (arith, t.fresh h.next), lk)
        ];
        fresh = λ j q. ground (arith, t.fresh j);
        bound_host = λ j l q. ground (arith, t.bound_host j l);
      })
    ]
