-- ===== src/Ssh/Process/Order.antt =====
-- The order of the signals.
use workspace_websocket_prox.Base.{◌≡◌, refl, Bool, true, false, List, [], ◌∷◌, arith}
use workspace_websocket_prox.Ssh.Process.{
  sighup, sigkill, Sent, Main, Watcher, watching, hanging_up, grace, killing, finished, Session,
  started, signal_group, main_step, watcher_step, Choice, Action, main_moves, watcher_moves,
  child_ends, client_leaves, output_ends, step, run,
}

-- Nothing; one SIGHUP; one SIGHUP and then one SIGKILL.
abbrev pub IsEscalation : List Sent → Type 0
IsEscalation [] = Unit {0}
IsEscalation (x ∷ []) = x.signal ≡ sighup
IsEscalation (x ∷ y ∷ []) = (x.signal ≡ sigkill) × (y.signal ≡ sighup)
IsEscalation _ = ⊥

abbrev HungUp : List Sent → Bool → Type 0
HungUp [] r = r ≡ true
HungUp (x ∷ []) r = x.signal ≡ sighup
HungUp _ r = ⊥

-- What the watcher has sent at each of its stages.
abbrev WatcherAgrees : Watcher → Session → Type 0
WatcherAgrees watching s = s.signals ≡ []
WatcherAgrees hanging_up s = s.signals ≡ []
WatcherAgrees grace s = HungUp s.signals s.reaped
WatcherAgrees killing s = HungUp s.signals s.reaped
WatcherAgrees finished s = IsEscalation s.signals

HungUp-reaped : (l : List Sent) (r : Bool) → HungUp l r → HungUp l true
HungUp-reaped l r h = ground arith

HungUp-IsEscalation : (l : List Sent) (r : Bool) → HungUp l r → IsEscalation l
HungUp-IsEscalation l r h = ground arith

escalated : (l : List Sent) (x : Sent) → HungUp l false → x.signal ≡ sigkill → IsEscalation (x ∷ l)
escalated l x h e = ground arith

main_step-WatcherAgrees :
    (w : Watcher) (m : Main) (f : Bool) (s : Session)
    → s.watcher ≡ w
    → WatcherAgrees w s
    → WatcherAgrees (main_step m f s).watcher (main_step m f s)
unfolding main_step
main_step-WatcherAgrees watching m f s e h = ground arith
main_step-WatcherAgrees hanging_up m f s e h = ground arith
main_step-WatcherAgrees grace m f s e h = ground arith
main_step-WatcherAgrees killing m f s e h = ground arith
main_step-WatcherAgrees finished m f s e h = ground arith

watcher_step-WatcherAgrees :
    (w : Watcher) (c : Choice) (s : Session)
    → s.watcher ≡ w
    → WatcherAgrees w s
    → WatcherAgrees (watcher_step w c s).watcher (watcher_step w c s)
unfolding watcher_step signal_group
watcher_step-WatcherAgrees watching c s e h = ground arith
watcher_step-WatcherAgrees hanging_up c s e h = ground arith
watcher_step-WatcherAgrees grace c s e h = ground arith
watcher_step-WatcherAgrees killing c s e h = ground arith
watcher_step-WatcherAgrees finished c s e h = ground arith

step-WatcherAgrees :
    (s : Session) (a : Action)
    → WatcherAgrees s.watcher s
    → WatcherAgrees (step s a).watcher (step s a)
unfolding step
step-WatcherAgrees s (main_moves f) h = main_step-WatcherAgrees s.watcher s.main f s refl h
step-WatcherAgrees s (watcher_moves c) h = watcher_step-WatcherAgrees s.watcher c s refl h
step-WatcherAgrees s (child_ends status) h = ground arith
step-WatcherAgrees s output_ends h = ground arith
step-WatcherAgrees s client_leaves h = ground arith

WatcherAgrees-run :
    (s : Session) (as' : List Action)
    → WatcherAgrees s.watcher s
    → WatcherAgrees (run s as').watcher (run s as')
unfolding run
WatcherAgrees-run s [] h = h
WatcherAgrees-run s (a ∷ as') h = WatcherAgrees-run (step s a) as' (step-WatcherAgrees s a h)

WatcherAgrees-IsEscalation :
    (w : Watcher) (s : Session) → WatcherAgrees w s → IsEscalation s.signals
WatcherAgrees-IsEscalation watching s h = ground arith
WatcherAgrees-IsEscalation hanging_up s h = ground arith
WatcherAgrees-IsEscalation grace s h = HungUp-IsEscalation s.signals s.reaped h
WatcherAgrees-IsEscalation killing s h = HungUp-IsEscalation s.signals s.reaped h
WatcherAgrees-IsEscalation finished s h = h

started-WatcherAgrees : (pty : Bool) → WatcherAgrees (started pty).watcher (started pty)
unfolding started
started-WatcherAgrees pty = refl

-- Whatever happens in a session, its process group is sent nothing, or one SIGHUP, or one SIGHUP
-- and after it one SIGKILL.
pub run-IsEscalation :
    (pty : Bool) (as' : List Action) → IsEscalation (run (started pty) as').signals
run-IsEscalation pty as' =
    WatcherAgrees-IsEscalation (run (started pty) as').watcher (run (started pty) as')
      (WatcherAgrees-run (started pty) as' (started-WatcherAgrees pty))
