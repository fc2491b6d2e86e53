-- ===== src/Proxy/Served/Released.antt =====
-- handleWebSocket of internal/proxy/server.go: every slot can come back.
use workspace_websocket_prox.Base.{
  ℕ, suc, ◌≡◌, ◌∙◌, ◌⊎◌, inl, refl, sym, ap, subst, Bool, true, false, some, List, [], ◌∷◌, ◌++◌,
  arith, get_elem?, map, All-get_elem?, All-replicate,
}
use workspace_websocket_prox.Base.Int.{ℤ}
use workspace_websocket_prox.Base.Threads.{solo}
use workspace_websocket_prox.Base.Nested as Nested
use workspace_websocket_prox.Proxy.Connections.{
  Server, Stage, running, releasing, finished, served, handle_step,
}
use workspace_websocket_prox.Proxy.Connections.Counts.{holds}
use workspace_websocket_prox.Proxy.Session as Session
use workspace_websocket_prox.Proxy.Session.{Session, new_session}
use workspace_websocket_prox.Proxy.Session.Ends.{IsReturned}
use workspace_websocket_prox.Proxy.Session.Over.{to_end, IsReturned-to_end}
use workspace_websocket_prox.Proxy.Served.{
  Handler, Turn, turn_step, succeeds, in_run, handler_step, start, run,
}
use workspace_websocket_prox.Proxy.Served.Refines.{held}

abbrev IsReached : Session → Type 0
IsReached t = (as' : List Session.Action) × (t ≡ Session.run new_session as')

Session-run-append :
    (t : Session) (as' bs : List Session.Action)
    → Session.run t (as' ++ bs) ≡ Session.run (Session.run t as') bs
unfolding Session.run
Session-run-append t [] bs = refl
Session-run-append t (a ∷ as') bs = Session-run-append (Session.step t a) as' bs

step-IsReached : (a : Turn) (t : Session) → IsReached t → IsReached (turn_step a t)
unfolding Session.run
step-IsReached a t (as', e) = (
  as' ++ a.action ∷ [],
  ap (λ u. Session.step u a.action) e ∙ sym (Session-run-append new_session as' (a.action ∷ [])),
)

reached :
    (max : ℤ) (n : ℕ) (ts : List (ℕ × Turn)) (i : ℕ) (h : Handler)
    → get_elem? (run (start max n) ts).threads i ≡ some h
    → IsReached h.session
unfolding run start Session.run
reached max n ts i h g =
    All-get_elem? (λ (g : Handler). IsReached g.session) (run (start max n) ts).threads i
      (Nested.run-All handle_step turn_step succeeds in_run IsReached step-IsReached (start max n)
        ts (All-replicate (λ (g : Handler). IsReached g.session) n ([], refl)))
      g

-- After its session a handler only has its slot to give back.
abbrev IsLeaving : Stage → Type 0
IsLeaving p = (p ≡ releasing served) ⊎ (p ≡ finished served)

outside : (p : Stage) (t : Session) → IsLeaving p → in_run p t ≡ false
outside p t l = ground arith

leaves : (b : Bool) (s : Server) → IsLeaving (handle_step b s running).1
unfolding handle_step
leaves b s = inl refl

stays : (b : Bool) (s : Server) (p : Stage) → IsLeaving p → IsLeaving (handle_step b s p).1
unfolding handle_step
stays b s p l = ground arith

released :
    (b : Bool) (s : Server) (p : Stage) → IsLeaving p → (handle_step b s p).1 ≡ finished served
unfolding handle_step
released b s p l = ground arith

abbrev turn : Session.Action → Turn
turn a = record { ok = true; action = a }

abbrev last : Turn
last = turn Session.context_ends

turns_lem :
    (acts : List Session.Action) (t : Session)
    → Nested.turns handle_step turn_step succeeds in_run (map turn acts) t ≡ Session.run t acts
unfolding Session.run Nested.turns
turns_lem [] t = refl
turns_lem (a ∷ acts) t = turns_lem acts (Session.step t a)

returned-outside : (t : Session) → IsReturned t.main → in_run running t ≡ false
returned-outside t r = ground arith

last-finished :
    (s : Server) (h : Handler)
    → IsLeaving h.stage
    → (handler_step last s h).1.stage ≡ finished served
last-finished s h l = rw (outside h.stage h.session l) (released true s h.stage l)

solo-IsLeaving :
    (acts : List Session.Action) (s : Server) (p : Stage) (t : Session)
    → p ≡ running
    → IsReturned (Session.run t acts).main
    → IsLeaving
        (solo handler_step
          (map turn acts ++ last ∷ [])
          s
          (record { stage = p; session = t })).1.stage
solo-IsLeaving acts s p t e over =
    subst
      (λ q.
        IsLeaving
          (solo handler_step (map turn acts ++ last ∷ []) s
            (record { stage = q; session = t })).1.stage)
      (sym e)
      (Nested.solo-leaves handle_step turn_step succeeds in_run running IsLeaving outside leaves
        stays (map turn acts) last s t
        (ap (in_run running) (turns_lem acts t) ∙ returned-outside (Session.run t acts) over))

solo-finished :
    (acts : List Session.Action) (s : Server) (h : Handler)
    → h.stage ≡ running
    → IsReturned (Session.run h.session acts).main
    → (solo handler_step ((map turn acts ++ last ∷ []) ++ last ∷ []) s h).1.stage ≡ finished served
unfolding solo
solo-finished acts s h e over =
    let us = map turn acts ++ last ∷ [] in
    let (s', g) = solo handler_step us s h in
    ap (λ (r : Server × Handler). r.1.stage)
      (Nested.solo-append handle_step turn_step succeeds in_run us (last ∷ []) s h)
    ∙ last-finished s' g (solo-IsLeaving acts s h.stage h.session e over)

-- The turns of one handler in which the timer of its session runs out, the session ends and the
-- handler returns.
unfoldable pub to_finish : List Turn
to_finish = (map turn (to_end true) ++ last ∷ []) ++ last ∷ []

-- From every state that the handlers and their sessions can reach, each handler in session.Run can
-- return by turns of its own, in which its duration timer runs out, though neither client nor
-- target does anything; then exactly its slot has come back.
pub held-to_finish :
    (max : ℤ) (n : ℕ) (ts : List (ℕ × Turn)) (i : ℕ) (h : Handler)
    → get_elem? (run (start max n) ts).threads i ≡ some h
    → h.stage ≡ running
    → let s = run (start max n) ts in
      let s' = run s (map (λ a. (i, a)) to_finish) in
      (h' : Handler) × (get_elem? s'.threads i ≡ some h')
      × (h'.stage ≡ finished served)
      × (suc (held s') ≡ held s)
unfolding run to_finish
held-to_finish max n ts i h g e =
    let s = run (start max n) ts in
    let (as', f) = reached max n ts i h g in
    let over = solo-finished (to_end true) s.shared h e (
      subst (λ u. IsReturned (Session.run u (to_end true)).main) (sym f)
        (IsReturned-to_end as' true)) in
    let (h', there, done, counts) =
      Nested.tally-solo handle_step turn_step succeeds in_run holds s i to_finish h
        (finished served) g over in
    (h', there, done, omega (arith, counts, ap holds e))
