-- ===== src/Ssh/Relay/Closed.antt =====
-- What relay leaves open.
use workspace_websocket_prox.Base.{
  ◌≡◌, ◌⊎◌, inl, inr, refl, Bool, true, false, List, [], ◌∷◌, arith,
}
use workspace_websocket_prox.Ssh.Relay.{
  Copy, unstarted, closing_channel, ended, Opening, refused, relaying, Relay, accepted,
  open_channel, Action, channel_opens, outward_moves, inward_moves, step, run,
}

-- What a copy has closed by the time it stands at a stage.
abbrev CopyAgrees : Copy → Relay → Type 0
CopyAgrees closing_channel s = s.inbound_closed ≡ true
CopyAgrees ended s = (s.inbound_closed ≡ true) × (s.channel_closed ≡ true)
CopyAgrees _ s = Unit {0}

abbrev Started : Copy → Type 0
Started unstarted = ⊥
Started _ = Unit {0}

abbrev OpeningAgrees : Opening → Relay → Type 0
OpeningAgrees Opening.opening s =
    (s.outward ≡ unstarted) × (s.inward ≡ unstarted) × (s.inbound_closed ≡ false)
OpeningAgrees refused s =
    (s.outward ≡ unstarted) × (s.inward ≡ unstarted) × (s.inbound_closed ≡ true)
OpeningAgrees relaying s = Started s.outward × Started s.inward

pub record Inv (s : Relay) : Type 0 where
  outward : CopyAgrees s.outward s
  inward : CopyAgrees s.inward s
  opening : OpeningAgrees s.opening s

pub step-Inv : (s : Relay) (a : Action) → Inv s → Inv (step s a)
unfolding step
step-Inv s (channel_opens ok) v = record {
  outward = ground arith;
  inward = ground arith;
  opening = ground arith;
}
step-Inv s outward_moves v = record {
  outward = ground arith;
  inward = ground arith;
  opening = ground arith;
}
step-Inv s inward_moves v = record {
  outward = ground arith;
  inward = ground arith;
  opening = ground arith;
}

run-Inv : (s : Relay) (as' : List Action) → Inv s → Inv (run s as')
unfolding run
run-Inv s [] v = v
run-Inv s (a ∷ as') v = run-Inv (step s a) as' (step-Inv s a v)

pub accepted-Inv : Inv accepted
unfolding accepted
accepted-Inv = record { outward = tt; inward = tt; opening = (refl, refl, refl) }

-- Everything that this connection holds is closed.
abbrev pub IsShut : Relay → Type 0
IsShut s = (s.inbound_closed ≡ true) × (s.channel_closed ≡ true)

pub shut_lem : (s : Relay) → Inv s → (s.outward ≡ ended) ⊎ (s.inward ≡ ended) → IsShut s
shut_lem s v (inl e) = ground arith
shut_lem s v (inr e) = ground arith

-- As soon as one of the two copies has returned, the connection and the channel are closed, so
-- that the other copy cannot stay behind.
pub run-IsShut :
    (as' : List Action)
    → ((run accepted as').outward ≡ ended) ⊎ ((run accepted as').inward ≡ ended)
    → IsShut (run accepted as')
run-IsShut as' e = shut_lem (run accepted as') (run-Inv accepted as' accepted-Inv) e

-- The channel is answered, one copy returns, and both run to their end.
abbrev pub to_end : Bool → List Action
to_end ok =
    channel_opens ok
    ∷ outward_moves
    ∷ outward_moves
    ∷ outward_moves
    ∷ inward_moves
    ∷ inward_moves
    ∷ inward_moves
    ∷ []

-- Nothing is left open: a refused connection is closed, and of a relayed one both copies are at
-- their end and both sides are closed.
abbrev pub IsOver : Opening → Relay → Type 0
IsOver Opening.opening s = ⊥
IsOver refused s = s.inbound_closed ≡ true
IsOver relaying s = (s.outward ≡ ended) × (s.inward ≡ ended) × IsShut s

over_lem :
    (o : Opening) (ok : Bool) (s : Relay)
    → s.opening ≡ o
    → Inv s
    → IsOver (run s (to_end ok)).opening (run s (to_end ok))
unfolding run step open_channel
over_lem Opening.opening ok s e v = ground arith
over_lem refused ok s e v = ground arith
over_lem relaying ok s e v = ground arith

-- From every state of a relay the schedule in which the channel is answered, one copy returns and
-- both goroutines have their turns ends with nothing left open, whatever the client answers.
pub run-IsOver :
    (as' : List Action) (ok : Bool)
    → let s = run (run accepted as') (to_end ok) in IsOver s.opening s
run-IsOver as' ok =
    over_lem (run accepted as').opening ok (run accepted as') refl
      (run-Inv accepted as' accepted-Inv)
