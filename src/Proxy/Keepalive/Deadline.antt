-- ===== src/Proxy/Keepalive/Deadline.antt =====
-- Session.Run and pingLoop of internal/proxy/session.go: which clients the read deadline cuts.
use workspace_websocket_prox.Base.{
  ℕ, zero, suc, ◌+◌, ◌≤◌, ◌<◌, ◌≡◌, ◌∙◌, ◌⊎◌, refl, ap, List, [], ◌∷◌, ◌++◌, arith, leb, inl, inr,
  Bool-cases,
}
use workspace_websocket_prox.Proxy.Keepalive.{
  Timing, Link, open_link, on_pong, on_tick, Event, elapses, ticks, pongs, step, run,
}

-- The client's pongs are handled within `r` of the ticks: `awaited` is the tick whose pong comes
-- next, and no time passes beyond `awaited + r` before that pong.
abbrev pub IsResponsive : Timing → ℕ → Link → ℕ → List Event → Type 0
IsResponsive c r s awaited [] = Unit {0}
IsResponsive c r s awaited (elapses d ∷ es) =
    (s.now + d ≤ awaited + r) × IsResponsive c r (step c s (elapses d)) awaited es
IsResponsive c r s awaited (ticks ∷ es) = IsResponsive c r (step c s ticks) awaited es
IsResponsive c r s awaited (pongs ∷ es) =
    (awaited < s.next_tick) × IsResponsive c r (step c s pongs) (awaited + c.ping_interval) es

-- `b` is `m` intervals behind `a`.
abbrev Behind : ℕ → ℕ → ℕ → ℕ → Type 0
Behind i zero a b = a ≡ b
Behind i (suc m) a b = Behind i m (a + i) b

Behind-add : (i m a b : ℕ) → Behind i m a b → Behind i (suc m) a (b + i)
Behind-add i zero a b h = omega (arith, h)
Behind-add i (suc m) a b h = Behind-add i m (a + i) b h

le-Behind : (i m a b : ℕ) → Behind i m a b → a ≤ b
le-Behind i zero a b h = omega (arith, h)
le-Behind i (suc m) a b h = omega (arith, le-Behind i m (a + i) b h)

late-Behind : (i m a b : ℕ) → a < b → Behind i m a b → (m' : ℕ) × Behind i m' (a + i) b
late-Behind i zero a b l h = absurd (omega (arith, h))
late-Behind i (suc m) a b l h = (m, h)

record Inv (c : Timing) (r : ℕ) (s : Link) (awaited : ℕ) : Type 0 where
  now : s.now ≤ awaited + r
  deadline : awaited + r < s.read_deadline
  -- The ticker has not fired early.
  fired : s.next_tick ≤ s.now + c.ping_interval
  outstanding : ℕ
  behind : Behind c.ping_interval outstanding awaited s.next_tick

pong-Inv :
    (c : Timing) (r : ℕ) (s : Link) (awaited : ℕ)
    → c.ping_interval + r < c.ping_timeout
    → awaited < s.next_tick
    → Inv c r s awaited
    → Inv c r (on_pong c s) (awaited + c.ping_interval)
unfolding on_pong
pong-Inv c r s awaited short late v =
    let (m, behind) = late-Behind c.ping_interval v.outstanding awaited s.next_tick late v.behind in
    let l = le-Behind c.ping_interval m (awaited + c.ping_interval) s.next_tick behind in
    record {
      now = omega (arith, v.now);
      deadline = omega (arith, v.fired, l);
      fired = v.fired;
      outstanding = m;
      behind = behind;
    }

tick-Inv :
    (c : Timing) (r : ℕ) (s : Link) (awaited : ℕ)
    → Inv c r s awaited
    → Inv c r (on_tick c s) awaited
unfolding on_tick
tick-Inv c r s awaited v = elim (Bool-cases (leb s.next_tick s.now)) [
  | inr early ↦ rw early v
  | inl due ↦ rw due (record {
    now = v.now;
    deadline = v.deadline;
    fired = ground arith;
    outstanding = suc v.outstanding;
    behind = Behind-add c.ping_interval v.outstanding awaited s.next_tick v.behind;
  })
]

run-Inv :
    (c : Timing) (r : ℕ) (s : Link) (awaited : ℕ) (es : List Event)
    → c.ping_interval + r < c.ping_timeout
    → IsResponsive c r s awaited es
    → Inv c r s awaited
    → (awaited' : ℕ) × Inv c r (run c s es) awaited'
unfolding run step
run-Inv c r s awaited [] short h v = (awaited, v)
run-Inv c r s awaited (elapses d ∷ es) short (h, hs) v =
    run-Inv c r (step c s (elapses d)) awaited es short hs (record {
      now = h;
      deadline = v.deadline;
      fired = omega (arith, v.fired);
      outstanding = v.outstanding;
      behind = v.behind;
    })
run-Inv c r s awaited (ticks ∷ es) short h v =
    run-Inv c r (on_tick c s) awaited es short h (tick-Inv c r s awaited v)
run-Inv c r s awaited (pongs ∷ es) short (h, hs) v =
    run-Inv c r (on_pong c s) (awaited + c.ping_interval) es short hs
      (pong-Inv c r s awaited short h v)

-- If the dial, one interval and the time in which pongs are handled are together shorter than
-- PingTimeout, the deadline never comes for a client that answers every ping in that time.
pub now-lt-read_deadline :
    (c : Timing) (t dial r : ℕ) (es : List Event)
    → dial + c.ping_interval + r < c.ping_timeout
    → IsResponsive c r (open_link c t dial) (t + dial + c.ping_interval) es
    → let s = run c (open_link c t dial) es in s.now < s.read_deadline
unfolding open_link
now-lt-read_deadline c t dial r es short h =
    let (awaited, v) =
      run-Inv c r (open_link c t dial) (t + dial + c.ping_interval) es (omega arith) h (record {
        now = omega arith;
        deadline = omega arith;
        fired = omega arith;
        outstanding = 0;
        behind = refl;
      }) in
    omega (arith, v.now, v.deadline)

abbrev pub NoPongs : List Event → Type 0
NoPongs [] = Unit {0}
NoPongs (pongs ∷ es) = ⊥
NoPongs (e ∷ es) = NoPongs es

silent :
    (c : Timing) (s : Link) (es : List Event)
    → NoPongs es
    → (run c s es).read_deadline ≡ s.read_deadline
unfolding run step on_tick
silent c s [] h = refl
silent c s (elapses d ∷ es) h = silent c (step c s (elapses d)) es h
silent c s (pongs ∷ es) h = absurd h
silent c s (ticks ∷ es) h = silent c (on_tick c s) es h ∙ ground arith

run-append :
    (c : Timing) (s : Link) (es fs : List Event) → run c s (es ++ fs) ≡ run c (run c s es) fs
unfolding run
run-append c s [] fs = refl
run-append c s (e ∷ es) fs = run-append c (step c s e) es fs

-- Nothing but a pong moves the deadline: after the last of them it stands one PingTimeout ahead of
-- the time at which that pong was handled, whatever else happens.
pub read_deadline-pongs :
    (c : Timing) (s : Link) (es fs : List Event)
    → NoPongs fs
    → (run c s (es ++ pongs ∷ fs)).read_deadline ≡ (run c s es).now + c.ping_timeout
unfolding run step on_pong
read_deadline-pongs c s es fs h =
    ap (λ l. l.read_deadline) (run-append c s es (pongs ∷ fs))
    ∙ silent c (on_pong c (run c s es)) fs h

-- No ping goes out before the first tick.
early-pings :
    (c : Timing) (s : Link) (first : ℕ) (es : List Event)
    → (s.pings ≡ 0) × (s.next_tick ≡ first) ⊎ (first ≤ s.now)
    → let s' = run c s es in (s'.pings ≡ 0) × (s'.next_tick ≡ first) ⊎ (first ≤ s'.now)
unfolding run step on_tick
early-pings c s first [] h = h
early-pings c s first (elapses d ∷ es) h =
    early-pings c (step c s (elapses d)) first es (ground arith)
early-pings c s first (ticks ∷ es) h = early-pings c (on_tick c s) first es (ground arith)
early-pings c s first (pongs ∷ es) h = early-pings c (step c s pongs) first es (ground arith)

-- If the dial and one interval together take PingTimeout, then for a client from which no pong has
-- come the deadline has already come when the first ping goes out.
pub read_deadline-slow_dial :
    (c : Timing) (t dial : ℕ) (es : List Event)
    → c.ping_timeout ≤ dial + c.ping_interval
    → NoPongs es
    → 0 < (run c (open_link c t dial) es).pings
    → (run c (open_link c t dial) es).read_deadline ≤ (run c (open_link c t dial) es).now
unfolding open_link
read_deadline-slow_dial c t dial es slow h sent = ground (
  arith,
  silent c (open_link c t dial) es h,
  early-pings c (open_link c t dial) (t + dial + c.ping_interval) es (inl (refl, refl)),
)
