-- ===== src/Proxy/Bridge.antt =====
-- internal/proxy/bridge.go: the two copy loops, and Run, which ends when the first of them does.
--
-- What the peers do is a list of answers, one for each call that a loop makes; a loop that has used
-- them all up is blocked in its next read.
pub mod Frames
pub mod Chunks
pub mod Ending
mod Examples
use workspace_websocket_prox.Base.{
  ℕ, ◌+◌, Bool, true, false, Option, none, some, List, [], ◌∷◌, ◌++◌, if◌then◌else◌, ◌==◌, length,
  take,
}
use workspace_websocket_prox.Base.Text.{Text}

abbrev pub binary_message : ℕ
binary_message = 2

abbrev pub close_normal_closure : ℕ
close_normal_closure = 1000

abbrev pub close_going_away : ℕ
close_going_away = 1001

-- A loop goes on, or has returned.
pub data Progress (E : Type 0) : Type 0 where
  blocked : Progress E
  ended : Option E → Progress E

-- What has gone out of one loop, and what it has added to BytesTransferred.
pub record Pump (E : Type 0) : Type 0 where
  pub sent : Text
  pub counted : ℕ
  pub progress : Progress E

abbrev pub end_with : {E : Type 0} → Text → ℕ → Option E → Pump E
end_with sent counted e = record { sent = sent; counted = counted; progress = ended e }

-- ReadMessage fails, or returns a message; then also what tcp.Write would answer.
pub data Frame (E : Type 0) : Type 0 where
  read_failed : E → Frame E
  frame : (type : ℕ) → (data' : Text) → (n : ℕ) → (write_error : Option E) → Frame E

-- `is_close_error` is websocket.IsCloseError.
module _ {E : Type 0} (is_close_error : E → List ℕ → Bool) where
  -- copyWSToTCP, from what it has written and counted so far.
  unfoldable pub copy_ws_to_tcp : List (Frame E) → Text → ℕ → Pump E
  copy_ws_to_tcp [] sent counted = record { sent = sent; counted = counted; progress = blocked }
  copy_ws_to_tcp (read_failed e ∷ fs) sent counted =
      if is_close_error e (close_normal_closure ∷ close_going_away ∷ [])
      then end_with sent counted none
      else end_with sent counted (some e)
  copy_ws_to_tcp (frame type data' n write_error ∷ fs) sent counted =
      elim (type == binary_message) [
        | false ↦ copy_ws_to_tcp fs sent counted
        | true ↦ elim write_error [
          | some e ↦ end_with (sent ++ take n data') counted (some e)
          | none ↦ copy_ws_to_tcp fs (sent ++ take n data') (counted + n)
        ]
      ]

-- A Read returns bytes, an error, or both; then what WriteMessage would answer.
pub record Chunk (E : Type 0) : Type 0 where
  pub bytes : Text
  pub read_error : Option E
  pub write_error : Option E

-- `is_eof` says whether an error is io.EOF.
module _ {E : Type 0} (is_eof : E → Bool) where
  -- copyTCPToWS.
  unfoldable pub copy_tcp_to_ws : List (Chunk E) → Text → ℕ → Pump E
  copy_tcp_to_ws [] sent counted = record { sent = sent; counted = counted; progress = blocked }
  copy_tcp_to_ws (c ∷ cs) sent counted = elim (c.read_error) [
    | some e ↦ if is_eof e then end_with sent counted none else end_with sent counted (some e)
    | none ↦ elim (c.write_error) [
      | some e ↦ end_with sent counted (some e)
      | none ↦ copy_tcp_to_ws cs (sent ++ c.bytes) (counted + length c.bytes)
    ]
  ]

-- The goroutine of Run: at the receive, before each Close, and returned.
pub data Main (E : Type 0) : Type 0 where
  receiving : Main E
  closing_ws : Option E → Main E
  closing_tcp : Option E → Main E
  returned : Option E → Main E

-- Run, with the results that its channel holds, the oldest first.
pub record Running (E : Type 0) : Type 0 where
  pub main : Main E
  pub channel : List (Option E)
  pub up_copying : Bool
  pub down_copying : Bool
  pub ws_closed : Bool
  pub tcp_closed : Bool

-- One of the loops returns and sends its result, or Run moves.
pub data Action (E : Type 0) : Type 0 where
  up_returns : Option E → Action E
  down_returns : Option E → Action E
  main_moves : Action E

module _ {E : Type 0} where
  unfoldable pub launched : Running E
  launched = record {
    main = receiving;
    channel = [];
    up_copying = true;
    down_copying = true;
    ws_closed = false;
    tcp_closed = false;
  }

  abbrev receive : List (Option E) → Running E → Running E
  receive [] s = s
  receive (e ∷ es) s = record s { channel = es; main = closing_ws e }

  unfoldable pub run_step : Main E → Running E → Running E
  run_step receiving s = receive s.channel s
  run_step (closing_ws e) s = record s { ws_closed = true; main = closing_tcp e }
  run_step (closing_tcp e) s = record s { tcp_closed = true; main = returned e }
  run_step (returned e) s = s

  unfoldable pub step : Running E → Action E → Running E
  unfolding run_step
  step s (up_returns e) =
      if s.up_copying then record s { channel = s.channel ++ e ∷ []; up_copying = false } else s
  step s (down_returns e) =
      if s.down_copying then record s { channel = s.channel ++ e ∷ []; down_copying = false } else s
  step s main_moves = run_step s.main s

  unfoldable pub run : Running E → List (Action E) → Running E
  run s [] = s
  run s (a ∷ as') = run (step s a) as'
