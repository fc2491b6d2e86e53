-- ===== src/Proxy/Writes/Exclusive.antt =====
-- What the mutex guarantees.
use workspace_websocket_prox.Base.{
  ℕ, ◌+◌, ◌≤◌, ◌≡◌, ◌⊎◌, inl, inr, refl, Bool, true, false, some, List, [], ◌∷◌, arith, map,
  get_elem?, set, All, All-set, All-imp, All-set_alone, tally, tally-set, tally-ge, tally_mono,
  tally-All_zero,
}
use workspace_websocket_prox.Base.Threads.{accessed, run_inv}
use workspace_websocket_prox.Proxy.Writes.{
  Writer, Call, Stage, waiting, writing_message, writing_control, returned, Answer, write_step,
  Writes, start, run,
}

-- Between Lock and Unlock.
abbrev pub is_holding : Stage → ℕ
is_holding (waiting _) = 0
is_holding (returned _) = 0
is_holding _ = 1

-- Inside a method of the WebSocket that writes.
abbrev pub is_writing : Stage → ℕ
is_writing (writing_message _ _) = 1
is_writing (writing_control _) = 1
is_writing _ = 0

abbrev pub lock_count : Bool → ℕ
lock_count true = 1
lock_count false = 0

-- A data frame is written under the deadline that its own call has set.
abbrev pub HasDeadline : Writer → Stage → Type 0
HasDeadline w (writing_message x d) = w.deadline ≡ d
HasDeadline w _ = Unit {0}

pub record Inv (s : Writes) : Type 0 where
  pub held : tally is_holding s.threads ≡ lock_count s.shared.locked
  deadlines : All (HasDeadline s.shared) s.threads

write_step-held :
    (a : Answer) (w : Writer) (p : Stage) (h h' : ℕ)
    → h ≡ lock_count w.locked
    → is_holding p ≤ h
    → h' + is_holding p ≡ h + is_holding (write_step a w p).1
    → h' ≡ lock_count (write_step a w p).0.locked
unfolding write_step
write_step-held a w p h h' e g d = ground arith

idle-HasDeadline : (w : Writer) (p : Stage) → is_holding p ≡ 0 → HasDeadline w p
idle-HasDeadline w p h = ground arith

keeps-HasDeadline :
    (w w' : Writer) (p : Stage) → w'.deadline ≡ w.deadline → HasDeadline w p → HasDeadline w' p
keeps-HasDeadline w w' p e h = ground arith

own-HasDeadline :
    (a : Answer) (w : Writer) (p : Stage) → HasDeadline (write_step a w p).0 (write_step a w p).1
unfolding write_step
own-HasDeadline a w p = ground arith

-- A call that does not hold the mutex leaves the deadline alone.
idle-deadline :
    (a : Answer) (w : Writer) (p : Stage)
    → is_holding p ≡ 0
    → (write_step a w p).0.deadline ≡ w.deadline
unfolding write_step
idle-deadline a w p h = ground arith

holding-cases : (p : Stage) → (is_holding p ≡ 0) ⊎ (is_holding p ≡ 1)
holding-cases p = ground arith

lock_count-le : (b : Bool) → lock_count b ≤ 1
lock_count-le b = ground arith

access-deadlines :
    (s : Writes) (i : ℕ) (a : Answer) (p : Stage)
    → get_elem? s.threads i ≡ some p
    → Inv s
    → All (HasDeadline (write_step a s.shared p).0) (set s.threads i (write_step a s.shared p).1)
access-deadlines s i a p e v =
    let w = (write_step a s.shared p).0 in
    let q = (write_step a s.shared p).1 in
    elim (holding-cases p) [
      | inl h ↦
          All-set (HasDeadline w) s.threads i q
            (All-imp (HasDeadline s.shared) (HasDeadline w) s.threads
              (λ r d. keeps-HasDeadline s.shared w r (idle-deadline a s.shared p h) d) v.deadlines)
            (own-HasDeadline a s.shared p)
      | inr h ↦
          All-set_alone (HasDeadline w) is_holding (idle-HasDeadline w) s.threads i p q e
            (omega
              (arith, v.held, lock_count-le s.shared.locked, tally-ge is_holding s.threads i p e))
            (own-HasDeadline a s.shared p)
    ]

access-Inv :
    (s : Writes) (i : ℕ) (a : Answer) (p : Stage)
    → get_elem? s.threads i ≡ some p
    → Inv s
    → Inv (accessed write_step s i a p)
access-Inv s i a p e v = record {
  held =
      write_step-held a s.shared p _ _ v.held (tally-ge is_holding s.threads i p e)
        (tally-set is_holding s.threads i p (write_step a s.shared p).1 e);
  deadlines = access-deadlines s i a p e v;
}

idle_calls : (calls : List Call) → All (λ p. is_holding p ≡ 0) (map waiting calls)
idle_calls [] = tt
idle_calls (c ∷ cs) = (refl, idle_calls cs)

idle_deadlines : (w : Writer) (calls : List Call) → All (HasDeadline w) (map waiting calls)
idle_deadlines w [] = tt
idle_deadlines w (c ∷ cs) = (tt, idle_deadlines w cs)

pub reached-Inv : (calls : List Call) (cs : List (ℕ × Answer)) → Inv (run (start calls) cs)
unfolding run start
reached-Inv calls cs = run_inv write_step Inv access-Inv (start calls) cs (record {
  held = tally-All_zero is_holding (map waiting calls) (idle_calls calls);
  deadlines = idle_deadlines (start calls).shared calls;
})

writing-le-holding : (p : Stage) → is_writing p ≤ is_holding p
writing-le-holding p = ground arith

-- In every interleaving of any calls of WriteMessage and WriteControl at most one of them is inside
-- a method of the WebSocket, and a data frame is written under the deadline that its own call has
-- set.
pub writing-run :
    (calls : List Call) (cs : List (ℕ × Answer))
    → let s = run (start calls) cs in
      (tally is_writing s.threads ≤ 1) × All (HasDeadline s.shared) s.threads
writing-run calls cs =
    let s = run (start calls) cs in
    let v = reached-Inv calls cs in
    (
      omega (
        arith,
        v.held,
        lock_count-le s.shared.locked,
        tally_mono is_writing is_holding s.threads writing-le-holding,
      ),
      v.deadlines,
    )
