-- ===== src/Proxy/Writes/Examples.antt =====
-- A data frame and a ping at the same time.
use workspace_websocket_prox.Base.{
  ℕ, ◌≤◌, ◌<◌, ◌⊎◌, some, get_elem?, ◌≡◌, refl, true, List, [], ◌∷◌, ◌++◌, All, tally,
}
use workspace_websocket_prox.Proxy.Writes.{
  Call, Stage, message, control, waiting, writing_message, Answer, write_step, start, run,
  data_frame, control_frame, Turn, copier_moves, control_moves, new_traffic, copier_step, turn,
  turns,
}
use workspace_websocket_prox.Base.Text.{Text}
use workspace_websocket_prox.Proxy.Writes.Order.{data_of, Unsent, data_of-turns}
use workspace_websocket_prox.Proxy.Writes.Progress.{rank, rank-run}
use workspace_websocket_prox.Proxy.Writes.Exclusive.{is_writing, HasDeadline, writing-run}

abbrev fine : Answer
fine = record { now = 1; ok = true }

abbrev calls : List Call
calls = message (9 ∷ []) ∷ control 7 ∷ []

-- The frame is being written while the ping waits for the mutex.
abbrev contended : List (ℕ × Answer)
contended = (0, fine) ∷ (1, fine) ∷ (0, fine) ∷ (1, fine) ∷ []

contended_threads :
    (run (start calls) contended).threads
    ≡ writing_message (9 ∷ []) 10000000001 ∷ waiting (control 7) ∷ []
unfolding run start write_step
contended_threads = refl

writing-run_example :
    let s = run (start calls) contended in
    (tally is_writing s.threads ≤ 1) × All (HasDeadline s.shared) s.threads
writing-run_example = writing-run calls contended

abbrev chunks : List Text
chunks = (7 ∷ []) ∷ (8 ∷ []) ∷ []

-- A ping gets the mutex between the two chunks; the second is still to be written.
abbrev pinged : List Turn
pinged =
    copier_moves fine
    ∷ copier_moves fine
    ∷ control_moves 0 fine
    ∷ copier_moves fine
    ∷ copier_moves fine
    ∷ copier_moves fine
    ∷ control_moves 0 fine
    ∷ copier_moves fine
    ∷ control_moves 0 fine
    ∷ control_moves 0 fine
    ∷ copier_moves fine
    ∷ []

pinged_frames :
    (turns (new_traffic chunks (5 ∷ [])) pinged).controls.shared.frames
    ≡ data_frame (7 ∷ []) ∷ control_frame ∷ []
unfolding turns turn copier_step run new_traffic start write_step
pinged_frames = refl

data_of-turns_example :
    let s = turns (new_traffic chunks (5 ∷ [])) pinged in
    (xs : List Text) × (data_of s.controls.shared.frames ++ xs ≡ chunks)
    × Unsent s.copier.call s.copier.rest xs
data_of-turns_example = data_of-turns chunks (5 ∷ []) pinged

rank-run_example :
    let s = run (start calls) contended in
    (tally rank s.threads ≡ 0)
    ⊎ ((i : ℕ) × (p : Stage) × (get_elem? s.threads i ≡ some p)
        × ((a : Answer) → rank (write_step a s.shared p).1 < rank p))
rank-run_example = rank-run calls contended
