-- ===== src/Proxy/Writes/Order.antt =====
-- What the client is sent while others write control frames.
use workspace_websocket_prox.Base.{
  ℕ, ◌≡◌, ◌∙◌, sym, refl, ap, inl, inr, Bool-cases, true, false, some, List, [], ◌∷◌, ◌++◌, arith,
  map, get_elem?, All, All-set, All-get_elem?,
}
use mathlib.Core.List.{append_assoc, append-nil}
use workspace_websocket_prox.Base.Text.{Text}
use workspace_websocket_prox.Base.Threads.{accessed, run_inv}
use workspace_websocket_prox.Proxy.Writes.{
  Frame, data_frame, control_frame, Writer, message, control, Stage, waiting, holding,
  writing_message, writing_control, unlocking, returned, Answer, write_step, Writes, run, Copier,
  copier_step, Traffic, new_traffic, Turn, copier_moves, control_moves, turn, turns,
}

-- What the data frames carry.
unfoldable pub data_of : List Frame → List Text
data_of [] = []
data_of (data_frame x ∷ fs) = x ∷ data_of fs
data_of (control_frame ∷ fs) = data_of fs

data_of-append : (fs gs : List Frame) → data_of (fs ++ gs) ≡ data_of fs ++ data_of gs
unfolding data_of
data_of-append [] gs = refl
data_of-append (data_frame x ∷ fs) gs = ap (λ xs. x ∷ xs) (data_of-append fs gs)
data_of-append (control_frame ∷ fs) gs = data_of-append fs gs

-- A call of WriteControl.
abbrev IsControl : Stage → Type 0
IsControl (waiting (message x)) = ⊥
IsControl (holding (message x)) = ⊥
IsControl (writing_message x d) = ⊥
IsControl _ = Unit {0}

write_step-IsControl :
    (a : Answer) (w : Writer) (p : Stage) → IsControl p → IsControl (write_step a w p).1
unfolding write_step
write_step-IsControl a w p h = ground arith

control-data_of :
    (a : Answer) (w : Writer) (p : Stage)
    → IsControl p
    → data_of (write_step a w p).0.frames ≡ data_of w.frames
unfolding write_step data_of
control-data_of a w p h =
    ground (arith, data_of-append w.frames (control_frame ∷ []), append-nil (data_of w.frames))

-- What the loop has still to send: its present chunk, if that is not out yet, and the rest; after a
-- failure there is no telling.
abbrev pub Unsent : Stage → List Text → List Text → Type 0
Unsent (waiting (message x)) rest xs = xs ≡ x ∷ rest
Unsent (holding (message x)) rest xs = xs ≡ x ∷ rest
Unsent (writing_message x d) rest xs = xs ≡ x ∷ rest
Unsent (unlocking true) rest xs = xs ≡ rest
Unsent (returned true) rest xs = xs ≡ rest
Unsent (unlocking false) rest xs = Unit {0}
Unsent (returned false) rest xs = Unit {0}
Unsent _ rest xs = ⊥

abbrev Sends : List Text → Writer → Copier → Type 0
Sends chunks w c = (xs : List Text) × (data_of w.frames ++ xs ≡ chunks) × Unsent c.call c.rest xs

-- A frame that goes out is the first of what was still to send.
sent_lem :
    (fs : List Frame) (x : Text) (rest xs chunks : List Text)
    → data_of fs ++ xs ≡ chunks
    → xs ≡ x ∷ rest
    → data_of (fs ++ data_frame x ∷ []) ++ rest ≡ chunks
unfolding data_of
sent_lem fs x rest xs chunks e h =
    ap (λ ys. ys ++ rest) (data_of-append fs (data_frame x ∷ []))
    ∙ append_assoc (data_of fs) (x ∷ []) rest
    ∙ ap (λ ys. data_of fs ++ ys) (sym h)
    ∙ e

copier_step-Sends :
    (a : Answer) (w : Writer) (p : Stage) (rest chunks : List Text)
    → Sends chunks w (record { rest = rest; call = p })
    → let (w', c) = copier_step a w p rest in Sends chunks w' c
unfolding copier_step
copier_step-Sends a w (waiting (message x)) rest chunks (xs, e, h) =
    (xs, ground arith, ground arith)
copier_step-Sends a w (holding (message x)) rest chunks (xs, e, h) =
    (xs, ground arith, ground arith)
copier_step-Sends a w (writing_message x d) rest chunks (xs, e, h) = elim (Bool-cases (a.ok)) [
  | inl ok ↦ rw ok (rest, sent_lem w.frames x rest xs chunks e h, refl)
  | inr ok ↦ rw ok (xs, e, tt)
]
copier_step-Sends a w (unlocking true) rest chunks (xs, e, h) = (xs, e, h)
copier_step-Sends a w (unlocking false) rest chunks (xs, e, h) = (xs, e, h)
copier_step-Sends a w (returned true) [] chunks (xs, e, h) = (xs, e, h)
copier_step-Sends a w (returned true) (x ∷ rest) chunks (xs, e, h) = (xs, e, h)
copier_step-Sends a w (returned false) rest chunks (xs, e, h) = (xs, e, h)
copier_step-Sends a w (waiting (control d)) rest chunks (xs, e, h) = absurd h
copier_step-Sends a w (holding (control d)) rest chunks (xs, e, h) = absurd h
copier_step-Sends a w (writing_control d) rest chunks (xs, e, h) = absurd h

record Inv (chunks : List Text) (s : Traffic) : Type 0 where
  sends : Sends chunks s.controls.shared s.copier
  controls : All IsControl s.controls.threads

-- The other calls leave the data frames as they are.
abbrev IsBeside : List Text → Writes → Type 0
IsBeside xs s = (data_of s.shared.frames ≡ xs) × All IsControl s.threads

access-IsBeside :
    (xs : List Text) (s : Writes) (i : ℕ) (a : Answer) (p : Stage)
    → get_elem? s.threads i ≡ some p
    → IsBeside xs s
    → IsBeside xs (accessed write_step s i a p)
access-IsBeside xs s i a p e h =
    let c = All-get_elem? IsControl s.threads i h.1 e in
    (
      control-data_of a s.shared p c ∙ h.0,
      All-set IsControl s.threads i _ h.1 (write_step-IsControl a s.shared p c),
    )

run-IsBeside :
    (s : Writes) (cs : List (ℕ × Answer))
    → All IsControl s.threads
    → IsBeside (data_of s.shared.frames) (run s cs)
unfolding run
run-IsBeside s cs h =
    run_inv write_step (IsBeside (data_of s.shared.frames))
      (access-IsBeside (data_of s.shared.frames)) s cs (refl, h)

turn-Inv : (chunks : List Text) (s : Traffic) (t : Turn) → Inv chunks s → Inv chunks (turn s t)
unfolding turn
turn-Inv chunks s (copier_moves a) v = record {
  sends = copier_step-Sends a s.controls.shared s.copier.call s.copier.rest chunks v.sends;
  controls = v.controls;
}
turn-Inv chunks s (control_moves i a) v =
    let b = run-IsBeside s.controls ((i, a) ∷ []) v.controls in
    let (xs, e, h) = v.sends in
    record { sends = (xs, ap (λ ys. ys ++ xs) b.0 ∙ e, h); controls = b.1 }

turns-Inv :
    (chunks : List Text) (s : Traffic) (ts : List Turn) → Inv chunks s → Inv chunks (turns s ts)
unfolding turns
turns-Inv chunks s [] v = v
turns-Inv chunks s (t ∷ ts) v = turns-Inv chunks (turn s t) ts (turn-Inv chunks s t v)

controls_lem : (ds : List ℕ) → All IsControl (map waiting (map control ds))
controls_lem [] = tt
controls_lem (d ∷ ds) = (tt, controls_lem ds)

new_traffic-Inv : (chunks : List Text) (ds : List ℕ) → Inv chunks (new_traffic chunks ds)
unfolding new_traffic data_of
new_traffic-Inv chunks ds = record { sends = (chunks, refl, refl); controls = controls_lem ds }

-- Whatever pings and close frames other goroutines write meanwhile, the data frames of the WebSocket
-- are at every moment the first chunks of copyTCPToWS, in order; those missing are the chunk of its
-- present call and the rest, so that none is when its last call has returned without an error.
pub data_of-turns :
    (chunks : List Text) (deadlines : List ℕ) (ts : List Turn)
    → let s = turns (new_traffic chunks deadlines) ts in
      (xs : List Text) × (data_of s.controls.shared.frames ++ xs ≡ chunks)
      × Unsent s.copier.call s.copier.rest xs
data_of-turns chunks deadlines ts =
    (turns-Inv chunks (new_traffic chunks deadlines) ts (new_traffic-Inv chunks deadlines)).sends
