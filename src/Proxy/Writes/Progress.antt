-- ===== src/Proxy/Writes/Progress.antt =====
-- No write waits for ever.
use workspace_websocket_prox.Base.{
  ℕ, ◌≤◌, ◌<◌, ◌≡◌, ◌≢◌, ◌⊎◌, inl, inr, Bool, true, false, some, List, arith, get_elem?, tally,
  tally-found, Bool-cases,
}
use workspace_websocket_prox.Proxy.Writes.{
  Writer, Call, Stage, waiting, holding, writing_message, writing_control, unlocking, returned,
  Answer, write_step, start, run,
}
use workspace_websocket_prox.Proxy.Writes.Exclusive.{is_holding, reached-Inv, lock_count}

-- How many steps a call has before it.
abbrev pub rank : Stage → ℕ
rank (waiting c) = 4
rank (holding c) = 3
rank (writing_message x d) = 2
rank (writing_control d) = 2
rank (unlocking ok) = 1
rank (returned ok) = 0

holding-moves :
    (a : Answer) (w : Writer) (p : Stage) → 1 ≤ is_holding p → rank (write_step a w p).1 < rank p
unfolding write_step
holding-moves a w p h = ground arith

free-moves :
    (a : Answer) (w : Writer) (p : Stage)
    → w.locked ≡ false
    → 1 ≤ rank p
    → rank (write_step a w p).1 < rank p
unfolding write_step
free-moves a w p e h = ground arith

held-ne-zero : (b : Bool) (n : ℕ) → n ≡ lock_count b → b ≡ true → n ≢ 0
held-ne-zero b n e l z = ground arith

-- In every state that an interleaving reaches, either all calls have returned, or there is one whose
-- next step, whatever it is answered, brings it nearer to its return: the mutex never leaves all of
-- the calls waiting.
pub rank-run :
    (calls : List Call) (cs : List (ℕ × Answer))
    → let s = run (start calls) cs in
      (tally rank s.threads ≡ 0)
      ⊎ ((i : ℕ) × (p : Stage) × (get_elem? s.threads i ≡ some p)
          × ((a : Answer) → rank (write_step a s.shared p).1 < rank p))
rank-run calls cs =
    let s = run (start calls) cs in
    let v = (reached-Inv calls cs).held in
    elim (Bool-cases (s.shared.locked)) [
      | inl l ↦ elim (tally-found is_holding s.threads) [
        | inl z ↦ absurd (held-ne-zero s.shared.locked _ v l z)
        | inr (i, p, e, h) ↦ inr (i, p, e, λ a. holding-moves a s.shared p h)
      ]
      | inr l ↦ elim (tally-found rank s.threads) [
        | inl z ↦ inl z
        | inr (i, p, e, h) ↦ inr (i, p, e, λ a. free-moves a s.shared p l h)
      ]
    ]
