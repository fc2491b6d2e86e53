-- ===== src/Proxy/Writes.antt =====
-- internal/proxy/bridge.go: WriteMessage and WriteControl, called from any number of goroutines (the
-- copy loop, the ping loop and the timer of the longest duration), as an interleaving of the
-- accesses to the mutex and to the WebSocket.
pub mod Exclusive
pub mod Order
pub mod Progress
mod Examples
use workspace_websocket_prox.Base.{
  ℕ, ◌+◌, ◌*◌, Bool, true, false, List, [], ◌∷◌, ◌++◌, map, if◌then◌else◌,
}
use workspace_websocket_prox.Base.Text.{Text}
use workspace_websocket_prox.Base.Threads
use workspace_websocket_prox.Base.Threads.{System}

-- A time is a number of nanoseconds.
abbrev pub write_wait : ℕ
write_wait = 10 * 1000000000

-- What the WebSocket has sent.
pub data Frame : Type 0 where
  data_frame : (data' : Text) → Frame
  control_frame : Frame

-- What the calls share: the mutex, the deadline that the WebSocket has for data frames, and the
-- frames that were written, the oldest first.
pub record Writer : Type 0 where
  pub locked : Bool
  pub deadline : ℕ
  pub frames : List Frame

-- A call of WriteMessage, or of WriteControl with its own deadline.
pub data Call : Type 0 where
  message : (data' : Text) → Call
  control : (deadline : ℕ) → Call

-- Where a call stands. `writing` is inside the WebSocket's own method; for a data frame it comes
-- with the deadline that this call has set.
pub data Stage : Type 0 where
  waiting : Call → Stage  -- before Lock
  holding : Call → Stage  -- after Lock
  writing_message : (data' : Text) → (deadline : ℕ) → Stage
  writing_control : (deadline : ℕ) → Stage
  unlocking : (ok : Bool) → Stage  -- before the deferred Unlock
  returned : (ok : Bool) → Stage

-- What a step is answered: the time, and whether the call of the WebSocket succeeds.
pub record Answer : Type 0 where
  pub now : ℕ
  pub ok : Bool

abbrev written : Bool → Frame → Writer → Writer × Stage
written true f w = (record w { frames = w.frames ++ f ∷ [] }, unlocking true)
written false f w = (w, unlocking false)

unfoldable pub write_step : Answer → Writer → Stage → Writer × Stage
write_step a w (waiting c) =
    if w.locked then (w, waiting c) else (record w { locked = true }, holding c)
write_step a w (holding (message x)) =
    if a.ok
    then (record w { deadline = a.now + write_wait }, writing_message x (a.now + write_wait))
    else (w, unlocking false)
write_step a w (holding (control d)) = (w, writing_control d)
write_step a w (writing_message x d) = written a.ok (data_frame x) w
write_step a w (writing_control d) = written a.ok control_frame w
write_step a w (unlocking ok) = (record w { locked = false }, returned ok)
write_step a w (returned ok) = (w, returned ok)

abbrev pub Writes : Type 0
Writes = System Writer Stage

unfoldable pub start : List Call → Writes
start calls = record {
  shared = record { locked = false; deadline = 0; frames = [] };
  threads = map waiting calls;
}

unfoldable pub run : Writes → List (ℕ × Answer) → Writes
unfolding Threads.run
run = Threads.run write_step

-- copyTCPToWS as one caller among the others: what it has still to read and write, and its present
-- call. A call that fails ends the loop.
pub record Copier : Type 0 where
  pub rest : List Text
  pub call : Stage

abbrev called : Writer × Stage → List Text → Writer × Copier
called (w, p) rest = (w, record { rest = rest; call = p })

unfoldable pub copier_step : Answer → Writer → Stage → List Text → Writer × Copier
unfolding write_step
copier_step a w (returned true) (x ∷ xs) = (w, record { rest = xs; call = waiting (message x) })
copier_step a w p rest = called (write_step a w p) rest

-- The copy loop beside any number of calls of WriteControl.
pub record Traffic : Type 0 where
  pub controls : Writes
  pub copier : Copier

unfoldable pub new_traffic : List Text → List ℕ → Traffic
unfolding start
new_traffic chunks deadlines = record {
  controls = start (map control deadlines);
  copier = record { rest = chunks; call = returned true };
}

pub data Turn : Type 0 where
  copier_moves : Answer → Turn
  control_moves : (i : ℕ) → Answer → Turn

abbrev copied : Traffic → Writer × Copier → Traffic
copied s (w, c) = record { controls = record s.controls { shared = w }; copier = c }

unfoldable pub turn : Traffic → Turn → Traffic
unfolding copier_step run
turn s (copier_moves a) = copied s (copier_step a s.controls.shared s.copier.call s.copier.rest)
turn s (control_moves i a) = record s { controls = run s.controls ((i, a) ∷ []) }

unfoldable pub turns : Traffic → List Turn → Traffic
turns s [] = s
turns s (t ∷ ts) = turns (turn s t) ts
