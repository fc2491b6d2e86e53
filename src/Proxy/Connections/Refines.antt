-- ===== src/Proxy/Connections/Refines.antt =====
-- The handlers with their shared counter and its compare-and-swap loop refine the semaphore.
use workspace_websocket_prox.Base.{
  ℕ, ◌<◌, ◌^◌, ◌≡◌, ◌∙◌, refl, sym, ap, subst, Bool, true, false, List, arith, some, get_elem?, All,
  All-set, All-get_elem?, All-replicate, tally, replicate, map, map-set, get_elem?-map,
  map-replicate, tally-map,
}
use mathlib.Core.Path.{fun_ext}
use workspace_websocket_prox.Base.Int.{ℤ, pos_part, int32, int32-lt}
use workspace_websocket_prox.Base.Threads.{accessed, run_inv}
use workspace_websocket_prox.Proxy.Slots.{load_active, compare_and_swap}
use workspace_websocket_prox.Proxy.Connections.{
  Connections, Outcome, too_many_requests, bad_upgrade, served, Stage, loading, swapping, refusing,
  upgrading, established, totalled, running, releasing, finished, Server, handle_step, start, run,
}
use workspace_websocket_prox.Proxy.Connections.Counts.{
  holds, Inv, IsReady, Shows, access-Inv, start-Inv,
}
use workspace_websocket_prox.Proxy.Connections.Semaphore.{
  Guest, waiting, inside, refused, left, is_inside, Move, stay, enter, refuse, leave, Step, move,
  Reach, here, next,
}

abbrev of_outcome : Outcome → Guest
of_outcome (too_many_requests status retry_after) = refused
of_outcome _ = left

-- How the semaphore sees a handler. Acquire decides at its load where it refuses, and at its
-- compare-and-swap where it admits.
abbrev pub guest : Stage → Guest
guest loading = waiting
guest (swapping current) = waiting
guest refusing = refused
guest (finished o) = of_outcome o
guest _ = inside

-- A handler that releases a slot was not refused one.
abbrev IsOutcome : Stage → Type 0
IsOutcome (releasing o) = of_outcome o ≡ left
IsOutcome _ = Unit {0}

handle_step-IsOutcome :
    (ok : Bool) (s : Server) (p : Stage) → IsOutcome p → IsOutcome (handle_step ok s p).1
unfolding handle_step load_active compare_and_swap
handle_step-IsOutcome ok s loading h = ground arith
handle_step-IsOutcome ok s (swapping c) h = ground arith
handle_step-IsOutcome true s upgrading h = tt
handle_step-IsOutcome false s upgrading h = refl
handle_step-IsOutcome ok s running h = refl
handle_step-IsOutcome ok s _ h = tt

abbrev AllOutcomes : Connections → Type 0
AllOutcomes s = All IsOutcome s.threads

-- A move, by cases that compute.
abbrev Moves : ℕ → ℕ → Guest → Guest → Type 0
Moves cap n waiting inside = n < cap
Moves cap n waiting refused = n ≡ cap
Moves cap n waiting waiting = Unit {0}
Moves cap n inside inside = Unit {0}
Moves cap n inside left = Unit {0}
Moves cap n refused refused = Unit {0}
Moves cap n left left = Unit {0}
Moves cap n _ _ = ⊥

Moves-Move : (cap n : ℕ) (g g' : Guest) → Moves cap n g g' → Move cap n g g'
Moves-Move cap n waiting inside h = enter h
Moves-Move cap n waiting refused h = refuse h
Moves-Move cap n waiting waiting h = stay waiting
Moves-Move cap n inside inside h = stay inside
Moves-Move cap n inside left h = leave
Moves-Move cap n refused refused h = stay refused
Moves-Move cap n left left h = stay left
Moves-Move cap n waiting left h = absurd h
Moves-Move cap n inside waiting h = absurd h
Moves-Move cap n inside refused h = absurd h
Moves-Move cap n refused waiting h = absurd h
Moves-Move cap n refused inside h = absurd h
Moves-Move cap n refused left h = absurd h
Moves-Move cap n left waiting h = absurd h
Moves-Move cap n left inside h = absurd h
Moves-Move cap n left refused h = absurd h

handle_step-Moves :
    (cap : ℤ) (ok : Bool) (s : Server) (p : Stage) (h r e f b : ℕ)
    → Shows cap s h r e f b
    → IsReady cap p
    → IsOutcome p
    → Moves (pos_part cap) h (guest p) (guest (handle_step ok s p).1)
unfolding handle_step load_active compare_and_swap
handle_step-Moves cap ok s loading h r e f b v rd o = ground arith
handle_step-Moves cap ok s (swapping c) h r e f b v rd o = ground arith
handle_step-Moves cap true s upgrading h r e f b v rd o = tt
handle_step-Moves cap false s upgrading h r e f b v rd o = tt
handle_step-Moves cap ok s refusing h r e f b v rd o = tt
handle_step-Moves cap ok s established h r e f b v rd o = tt
handle_step-Moves cap ok s totalled h r e f b v rd o = tt
handle_step-Moves cap ok s running h r e f b v rd o = tt
handle_step-Moves cap ok s (releasing x) h r e f b v rd o = ground arith
handle_step-Moves cap ok s (finished served) h r e f b v rd o = tt
handle_step-Moves cap ok s (finished bad_upgrade) h r e f b v rd o = tt
handle_step-Moves cap ok s (finished (too_many_requests x y)) h r e f b v rd o = tt

is_inside-guest : (p : Stage) → is_inside (guest p) ≡ holds p
is_inside-guest p = ground arith

-- The requests as the semaphore sees them.
abbrev pub guests : Connections → List Guest
guests s = map guest s.threads

taken : (s : Connections) → tally holds s.threads ≡ tally is_inside (guests s)
taken s =
    sym
      (tally-map guest is_inside s.threads ∙ ap (λ w. tally w s.threads) (fun_ext is_inside-guest))

access-Step :
    (cap : ℤ) (s : Connections) (i : ℕ) (ok : Bool) (p : Stage)
    → get_elem? s.threads i ≡ some p
    → Inv cap s
    → AllOutcomes s
    → Step (pos_part cap) (guests s) (guests (accessed handle_step s i ok p))
access-Step cap s i ok p e v o =
    let q = (handle_step ok s.shared p).1 in
    subst (Step (pos_part cap) (guests s)) (sym (map-set guest s.threads i q)) (
      move (guests s) i (guest p) (guest q) (get_elem?-map guest s.threads i e) (
        Moves-Move (pos_part cap) (tally is_inside (guests s)) (guest p) (guest q) (
          subst (λ n. Moves (pos_part cap) n (guest p) (guest q)) (taken s)
            (handle_step-Moves cap ok s.shared p _ _ _ _ _ v.shows
              (All-get_elem? (IsReady cap) s.threads i v.ready e)
              (All-get_elem? IsOutcome s.threads i o e)))))

-- A state that refines one which the semaphore reaches from `gs`.
record Refines (cap : ℤ) (gs : List Guest) (s : Connections) : Type 0 where
  reached : Reach (pos_part cap) gs (guests s)
  inv : Inv cap s
  outcomes : AllOutcomes s

access-Refines :
    (cap : ℤ) (small : pos_part cap < 2 ^ 31) (gs : List Guest) (s : Connections) (i : ℕ)
    (ok : Bool) (p : Stage)
    → get_elem? s.threads i ≡ some p
    → Refines cap gs s
    → Refines cap gs (accessed handle_step s i ok p)
access-Refines cap small gs s i ok p e r = record {
  reached = next r.reached (access-Step cap s i ok p e r.inv r.outcomes);
  inv = access-Inv cap small s i ok p e r.inv;
  outcomes =
      All-set IsOutcome s.threads i _ r.outcomes
        (handle_step-IsOutcome ok s.shared p (All-get_elem? IsOutcome s.threads i r.outcomes e));
}

start-Refines : (max : ℤ) (n : ℕ) → Refines (int32 max) (replicate n waiting) (start max n)
unfolding start
start-Refines max n = record {
  reached =
      subst (Reach (pos_part (int32 max)) (replicate n waiting))
        (sym (map-replicate guest n loading)) here;
  inv = start-Inv max n;
  outcomes = All-replicate IsOutcome n tt;
}

-- Every run of the handlers over the shared counter is a run of the counting semaphore with
-- MaxConnections places (as NewSessionManager stores it) over as many requests, all of which wait
-- at first: a request is admitted in one step, only where a place is free, and refused only where
-- none is.
pub guests-run :
    (max : ℤ) (n : ℕ) (cs : List (ℕ × Bool))
    → Reach (pos_part (int32 max)) (replicate n waiting) (guests (run (start max n) cs))
unfolding run
guests-run max n cs =
    (run_inv handle_step (Refines (int32 max) (replicate n waiting))
      (access-Refines (int32 max) (int32-lt max) (replicate n waiting)) (start max n) cs
      (start-Refines max n)).reached
