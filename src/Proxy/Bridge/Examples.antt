-- ===== src/Proxy/Bridge/Examples.antt =====
-- The bridge on small conversations. An error is a number: a close code, or 1 for io.EOF.
use workspace_websocket_prox.Base.{
  ℕ, ◌≡◌, refl, Bool, true, false, none, some, List, [], ◌∷◌, ◌++◌, ◌==◌, map, length, ◌||◌,
  if◌then◌else◌,
}
use workspace_websocket_prox.Base.Text.{Text}
use workspace_websocket_prox.Proxy.Bridge.{
  end_with, Chunk, Frame, read_failed, frame, copy_ws_to_tcp, copy_tcp_to_ws, Action, up_returns,
  down_returns, main_moves, launched, returned, run_step, step, run,
}
use workspace_websocket_prox.Proxy.Bridge.Frames.{
  binary_payload, IsPrefix, IsComplete, copy_ws_to_tcp-IsPrefix,
}
use workspace_websocket_prox.Proxy.Bridge.Chunks.{
  passed, broken, joined, copy_tcp_to_ws-ended, Passes, copy_tcp_to_ws-Passes,
}
use workspace_websocket_prox.Proxy.Bridge.Ending.{first_result, run-first_result}

abbrev is_close : ℕ → List ℕ → Bool
is_close e [] = false
is_close e (c ∷ cs) = e == c || is_close e cs

abbrev is_eof : ℕ → Bool
is_eof e = e == 1

-- A binary message, a text message, a binary message and a normal closure.
abbrev conversation : List (Frame ℕ)
conversation =
    frame 2 (7 ∷ 8 ∷ []) 2 none
    ∷ frame 1 (5 ∷ []) 1 none
    ∷ frame 2 (9 ∷ []) 1 none
    ∷ read_failed 1000
    ∷ []

conversation_end : copy_ws_to_tcp is_close conversation [] 0 ≡ end_with (7 ∷ 8 ∷ 9 ∷ []) 3 none
unfolding copy_ws_to_tcp
conversation_end = refl

copy_ws_to_tcp-IsPrefix_example :
    IsPrefix is_close (copy_ws_to_tcp is_close conversation [] 0).sent (binary_payload conversation)
    × IsComplete is_close
        (copy_ws_to_tcp is_close conversation [] 0)
        (binary_payload conversation)
        (length (binary_payload conversation))
copy_ws_to_tcp-IsPrefix_example =
    copy_ws_to_tcp-IsPrefix is_close conversation (refl, (refl, (refl, tt)))

abbrev reads : List Text
reads = (7 ∷ []) ∷ (8 ∷ 9 ∷ []) ∷ []

copy_tcp_to_ws-ended_test :
    copy_tcp_to_ws is_eof (map passed reads ++ broken [] 1 ∷ []) [] 0
    ≡ end_with (joined reads) (length (joined reads)) (if is_eof 1 then none else some 1)
copy_tcp_to_ws-ended_test = copy_tcp_to_ws-ended is_eof reads [] 1

-- The client's side fails at the second write.
abbrev failing : List (Chunk ℕ)
failing = passed (7 ∷ []) ∷ record (passed (8 ∷ [])) { write_error = some 3 } ∷ passed [] ∷ []

failing_end : copy_tcp_to_ws is_eof failing [] 0 ≡ end_with (7 ∷ []) 1 (some 3)
unfolding copy_tcp_to_ws
failing_end = refl

copy_tcp_to_ws-Passes_example : Passes is_eof failing [] 0 (copy_tcp_to_ws is_eof failing [] 0)
copy_tcp_to_ws-Passes_example = copy_tcp_to_ws-Passes is_eof failing [] 0

-- The target closes first.
abbrev target_closes : List (Action ℕ)
target_closes =
    main_moves
    ∷ down_returns none
    ∷ main_moves
    ∷ main_moves
    ∷ up_returns (some 1006)
    ∷ main_moves
    ∷ []

target_closes_end : (run launched target_closes).main ≡ returned none
unfolding run step run_step launched
target_closes_end = refl

run-first_result_test :
    (first_result target_closes ≡ some none)
    × ((run launched target_closes).ws_closed ≡ true)
    × ((run launched target_closes).tcp_closed ≡ true)
run-first_result_test = run-first_result target_closes none target_closes_end
