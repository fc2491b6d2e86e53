-- ===== src/Ssh/Served/Abandoned.antt =====
-- handleSession of internal/sshserver/server.go: the slot of a session whose client has left.
use workspace_websocket_prox.Base.{
  ℕ, suc, ◌<◌, ◌≤◌, ◌≡◌, ◌∙◌, refl, sym, ap, subst, Bool, true, false, some, List, [], ◌∷◌, ◌++◌,
  arith, get_elem?, map, tally, tally-map, map-replicate, All-get_elem?, All-replicate,
}
use workspace_websocket_prox.Base.Int.{ℤ, pos}
use workspace_websocket_prox.Base.Threads.{solo}
use workspace_websocket_prox.Base.Nested as Nested
use workspace_websocket_prox.Base.Nested.{stages}
use workspace_websocket_prox.Ssh.Exit.{WaitStatus}
use workspace_websocket_prox.Ssh.Process as Process
use workspace_websocket_prox.Ssh.Process.{Session, started, returned, client_leaves}
use workspace_websocket_prox.Ssh.Process.Finish.{to_end}
use workspace_websocket_prox.Ssh.Process.Abandoned.{hang_up, run-append, run-hang_up}
use workspace_websocket_prox.Ssh.Sessions as Sessions
use workspace_websocket_prox.Ssh.Sessions.{Slots, Stage, serving, finished, session_step, Sessions}
use workspace_websocket_prox.Ssh.Sessions.Limit.{is_serving, serving-le-max}
use workspace_websocket_prox.Ssh.Served.{
  InSlot, launching, failed, launched, Handler, Turn, launch, slot_step, in_slot, access_of,
  handler_step, Served, arriving, start, run,
}

-- How many handlers are in a slot.
abbrev pub held : Served → ℕ
held s = tally (λ h. is_serving h.stage) s.threads

abbrev slots : ℤ → Slots
slots max = record { max_sessions = max; sessions = pos 0 }

-- With a positive MaxSessions and any interleaving of the handlers and of all the goroutines of their
-- sessions, at most MaxSessions handlers are in a slot.
pub held-le-max :
    (max n : ℕ) (ts : List (ℕ × Turn)) → 0 < max → held (run (start (pos max) n) ts) ≤ max
unfolding run start Sessions.run Sessions.start
held-le-max max n ts limited =
    let (cs, e) =
      Nested.stages-run session_step slot_step access_of in_slot (start (pos max) n) ts in
    let counted =
      tally-map (λ (g : Handler). g.stage) is_serving (run (start (pos max) n) ts).threads in
    let same =
      e
      ∙ ap (λ ps. Sessions.run (record { shared = slots (pos max); threads = ps }) cs)
          (map-replicate (λ (h : Handler). h.stage) n arriving) in
    omega (
      arith,
      counted,
      ap (λ (c : Sessions). tally is_serving c.threads) same,
      serving-le-max max limited n cs,
    )

abbrev IsReached : InSlot → Type 0
IsReached (launched t) =
    (pty : Bool) × (as' : List Process.Action) × (t ≡ Process.run (started pty) as')
IsReached launching = Unit {0}
IsReached failed = Unit {0}

launch-IsReached : (ok pty : Bool) → IsReached (launch ok pty)
unfolding Process.run
launch-IsReached true pty = (pty, [], refl)
launch-IsReached false pty = tt

slot_step-IsReached : (a : Turn) (t : InSlot) → IsReached t → IsReached (slot_step a t)
unfolding Process.run
slot_step-IsReached a launching h = launch-IsReached a.ok a.pty
slot_step-IsReached a failed h = tt
slot_step-IsReached a (launched t) (pty, as', e) = (
  pty,
  as' ++ a.action ∷ [],
  ap (λ u. Process.step u a.action) e ∙ sym (run-append (started pty) as' (a.action ∷ [])),
)

reached :
    (max : ℤ) (n : ℕ) (ts : List (ℕ × Turn)) (i : ℕ) (h : Handler)
    → get_elem? (run (start max n) ts).threads i ≡ some h
    → IsReached h.session
unfolding run start
reached max n ts i h g =
    All-get_elem? (λ (g : Handler). IsReached g.session) (run (start max n) ts).threads i
      (Nested.run-All session_step slot_step access_of in_slot IsReached slot_step-IsReached
        (start max n) ts (All-replicate (λ (g : Handler). IsReached g.session) n tt))
      g

abbrev IsOver : Stage → Type 0
IsOver p = p ≡ finished

outside : (p : Stage) (t : InSlot) → IsOver p → in_slot p t ≡ false
outside p t l = ground arith

leaves : (b : Unit {0}) (s : Slots) → IsOver (session_step b s serving).1
unfolding session_step
leaves b s = ground arith

stays : (b : Unit {0}) (s : Slots) (p : Stage) → IsOver p → IsOver (session_step b s p).1
unfolding session_step
stays b s p l = ground arith

abbrev turn : Process.Action → Turn
turn a = record { ok = true; pty = true; action = a }

turns_lem :
    (acts : List Process.Action) (t : Session)
    → Nested.turns session_step slot_step access_of in_slot (map turn acts) (launched t)
      ≡ launched (Process.run t acts)
unfolding Process.run Nested.turns
turns_lem [] t = refl
turns_lem (a ∷ acts) t = turns_lem acts (Process.step t a)

-- The turns of one handler in which its client leaves, the watcher waits for the grace period, the
-- child ends and no process holds its output any more, and the handler returns.
unfoldable pub to_release : WaitStatus → List Turn
to_release status = map turn (hang_up ++ to_end status) ++ turn client_leaves ∷ []

closed : (u : Session) → u.main ≡ returned → in_slot serving (launched u) ≡ false
closed u e = ground arith

solo-to_release :
    (status : WaitStatus) (s : Slots) (p : Stage) (t : Session)
    → p ≡ serving
    → (Process.run (Process.run t hang_up) (to_end status)).main ≡ returned
    → IsOver
        (solo handler_step
          (to_release status)
          s
          (record { stage = p; session = launched t })).1.stage
unfolding to_release
solo-to_release status s p t e over =
    subst
      (λ q.
        IsOver
          (solo handler_step (to_release status) s
            (record { stage = q; session = launched t })).1.stage)
      (sym e)
      (Nested.solo-leaves session_step slot_step access_of in_slot serving IsOver outside leaves
        stays (map turn (hang_up ++ to_end status)) (turn client_leaves) s (launched t)
        (ap (in_slot serving) (turns_lem (hang_up ++ to_end status) t)
          ∙ ap (λ u. in_slot serving (launched u)) (run-append t hang_up (to_end status))
          ∙ closed (Process.run (Process.run t hang_up) (to_end status)) over))

hang_up-returned :
    (t : Session) (status : WaitStatus)
    → IsReached (launched t)
    → (Process.run (Process.run t hang_up) (to_end status)).main ≡ returned
hang_up-returned t status (pty, as', e) =
    subst (λ u. (Process.run (Process.run u hang_up) (to_end status)).main ≡ returned) (sym e)
      (run-hang_up pty as' status).1

solo-launched :
    (status : WaitStatus) (s : Slots) (p : Stage) (c : InSlot) (t : Session)
    → c ≡ launched t
    → p ≡ serving
    → IsReached c
    → (solo handler_step (to_release status) s (record { stage = p; session = c })).1.stage
      ≡ finished
solo-launched status s p (launched u) t e f r =
    solo-to_release status s p u f (hang_up-returned u status r)
solo-launched status s p launching t e f r = cc
solo-launched status s p failed t e f r = cc

-- From every state that the handlers and their sessions can reach, a handler whose command has been
-- started can return by turns of its own session once its client has left and, after the grace
-- period, its child has ended in whatever way and no process holds its output any more; then exactly
-- its slot has come back.
pub held-to_release :
    (max : ℤ) (n : ℕ) (ts : List (ℕ × Turn)) (i : ℕ) (h : Handler) (t : Session)
    (status : WaitStatus)
    → get_elem? (run (start max n) ts).threads i ≡ some h
    → h.stage ≡ serving
    → h.session ≡ launched t
    → let s = run (start max n) ts in
      let s' = run s (map (λ a. (i, a)) (to_release status)) in
      (h' : Handler) × (get_elem? s'.threads i ≡ some h')
      × (h'.stage ≡ finished)
      × (suc (held s') ≡ held s)
unfolding run
held-to_release max n ts i h t status g e f =
    let s = run (start max n) ts in
    let over = solo-launched status s.shared h.stage h.session t f e (reached max n ts i h g) in
    let (h', there, done, counts) =
      Nested.tally-solo session_step slot_step access_of in_slot is_serving s i (to_release status)
        h finished g over in
    (h', there, done, omega (arith, counts, ap is_serving e))
