-- ===== src/Ssh/Window.antt =====
-- internal/sshserver/server.go: watchWindowSize, and the part of runWithPty that stops it before it
-- closes the terminal.
mod Examples
use workspace_websocket_prox.Base.{
  ℕ, suc, ◌≡◌, ◌≢◌, ◌⊎◌, refl, Bool, true, false, Option, none, some, List, [], ◌∷◌, arith,
  if◌then◌else◌,
}

-- The handler in runWithPty: at the output copy, before close(stopResize), at <-resizeDone, before
-- f.Close, and in finish.
pub data Main : Type 0 where
  copying stopping joining closing finishing : Main

-- The goroutine of watchWindowSize: at its select, before setWinsize, and returned.
pub data Resizer : Type 0 where
  selecting resizing ended : Resizer

pub record Terminal : Type 0 where
  pub main : Main
  pub resizer : Resizer
  pub stop : Bool
  pub closed : Bool
  pub resized : ℕ
  pub resized_closed : ℕ

unfoldable pub watched : Terminal
watched = record {
  main = copying;
  resizer = selecting;
  stop = false;
  closed = false;
  resized = 0;
  resized_closed = 0;
}

abbrev is_ended : Resizer → Bool
is_ended ended = true
is_ended _ = false

unfoldable pub main_step : Main → Terminal → Terminal
main_step copying s = record s { main = stopping }
main_step stopping s = record s { stop = true; main = joining }
main_step joining s = if is_ended s.resizer then record s { main = closing } else s
main_step closing s = record s { closed = true; main = finishing }
main_step finishing s = s

-- setWinsize, by whether it is called on the open terminal.
unfoldable pub set_winsize : Terminal → Terminal
set_winsize s =
    if s.closed
    then record s { resized_closed = suc s.resized_closed }
    else record s { resized = suc s.resized }

-- The case that the select takes: stop, a window, or the end of the channel of windows.
pub data Choice : Type 0 where
  take_stop take_window take_end : Choice

unfoldable pub resizer_step : Resizer → Choice → Terminal → Terminal
unfolding set_winsize
resizer_step selecting take_stop s = if s.stop then record s { resizer = ended } else s
resizer_step selecting take_window s = record s { resizer = resizing }
resizer_step selecting take_end s = record s { resizer = ended }
resizer_step resizing c s = record (set_winsize s) { resizer = selecting }
resizer_step ended c s = s

pub data Action : Type 0 where
  main_moves : Action
  resizer_moves : Choice → Action

unfoldable pub step : Terminal → Action → Terminal
unfolding main_step resizer_step
step s main_moves = main_step s.main s
step s (resizer_moves c) = resizer_step s.resizer c s

unfoldable pub run : Terminal → List Action → Terminal
run s [] = s
run s (a ∷ as') = run (step s a) as'

abbrev MainAgrees : Main → Terminal → Type 0
MainAgrees closing s = (s.resizer ≡ ended) × (s.closed ≡ false)
MainAgrees finishing s = s.resizer ≡ ended
MainAgrees joining s = (s.stop ≡ true) × (s.closed ≡ false)
MainAgrees _ s = s.closed ≡ false

abbrev Agrees : Terminal → Type 0
Agrees s = MainAgrees s.main s × (s.resized_closed ≡ 0)

main_step-Agrees : (m : Main) (s : Terminal) → s.main ≡ m → Agrees s → Agrees (main_step m s)
unfolding main_step
main_step-Agrees m s e h = ground arith

resizer_step-Agrees :
    (r : Resizer) (c : Choice) (s : Terminal)
    → s.resizer ≡ r
    → Agrees s
    → Agrees (resizer_step r c s)
unfolding resizer_step set_winsize
resizer_step-Agrees r c s e h = ground arith

step-Agrees : (s : Terminal) (a : Action) → Agrees s → Agrees (step s a)
unfolding step
step-Agrees s main_moves h = main_step-Agrees s.main s refl h
step-Agrees s (resizer_moves c) h = resizer_step-Agrees s.resizer c s refl h

Agrees-run : (s : Terminal) (as' : List Action) → Agrees s → Agrees (run s as')
unfolding run
Agrees-run s [] h = h
Agrees-run s (a ∷ as') h = Agrees-run (step s a) as' (step-Agrees s a h)

watched-Agrees : Agrees watched
unfolding watched
watched-Agrees = (refl, refl)

-- In every interleaving of runWithPty and watchWindowSize, the terminal is never resized after it
-- was closed.
pub resized_closed-run : (as' : List Action) → (run watched as').resized_closed ≡ 0
resized_closed-run as' = (Agrees-run watched as' watched-Agrees).1

-- The end of runWithPty and the resizer's stop.
abbrev pub to_finish : List Action
to_finish =
    main_moves
    ∷ main_moves
    ∷ resizer_moves take_stop
    ∷ resizer_moves take_stop
    ∷ main_moves
    ∷ main_moves
    ∷ []

finish_lem :
    (m : Main) (s : Terminal) → s.main ≡ m → MainAgrees m s → (run s to_finish).main ≡ finishing
unfolding run step main_step resizer_step set_winsize
finish_lem copying s e h = ground arith
finish_lem stopping s e h = ground arith
finish_lem joining s e h = ground arith
finish_lem closing s e h = ground arith
finish_lem finishing s e h = ground arith

-- From every state that the two can reach, runWithPty gets to finish when both have their turns.
pub run-to_finish : (as' : List Action) → (run (run watched as') to_finish).main ≡ finishing
run-to_finish as' =
    finish_lem (run watched as').main (run watched as') refl
      (Agrees-run watched as' watched-Agrees).0
