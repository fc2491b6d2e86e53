-- ===== src/Proxy/Serving/Stopped.antt =====
-- Where the prober is when the proxy's process drains its connections and ends.
use workspace_websocket_prox.Base.{
  zero, suc, ◌≤◌, ◌≡◌, ◌≢◌, ◌⊎◌, refl, Bool, false, Option, List, [], ◌∷◌, arith,
}
use workspace_websocket_prox.Proxy.Config.{Config, Result, ok, err}
use workspace_websocket_prox.Proxy.Health.Prober.{
  Prober, Loop, probing, Stopper, returned, not_called, start_target_prober, stop_target_prober,
  stopper_step, loop_step, Agrees, start_target_prober-Agrees, stop_target_prober-Agrees,
  stopper_step-Agrees, loop_step-Agrees, new_prober-Agrees, stopped_lem,
}
use workspace_websocket_prox.Proxy.Serving.{
  Serving, unstarted, listening, ended, Main, stopping, draining, exited, Proxy, new_proxy,
  ServeError, serving_step, on_signal, on_error, shutdown_step, Action, serving_moves,
  signal_arrives, error_arrives, moved, shutdown_moves, prober_moves, step, run,
}

-- No prober runs.
abbrev pub IsQuiet : Prober → Type 0
IsQuiet p = (p.loop ≢ probing) × (p.loop ≢ Loop.selecting)

-- The prober was stopped, or Shutdown was never called: main left at an errCh that the serving
-- goroutine had closed without an error.
abbrev IsLeft : Serving → Stopper → Type 0
IsLeft (ended false) t = (t ≡ returned) ⊎ (t ≡ not_called)
IsLeft _ t = t ≡ returned

abbrev MainAgrees : Main → Proxy → Type 0
MainAgrees Main.selecting s = (s.prober.prober_stopped ≡ false) × (s.prober.stopper ≡ not_called)
MainAgrees stopping s = s.prober.stopper ≢ not_called
MainAgrees draining s = s.prober.stopper ≡ returned
MainAgrees (exited zero) s = IsLeft s.serving s.prober.stopper
MainAgrees (exited (suc n)) s = Unit {0}

abbrev AllAgree : Proxy → Type 0
AllAgree s = Agrees s.prober × MainAgrees s.main s

serving_step-MainAgrees :
    (m : Main) (v : Serving) (e : Option ServeError) (s : Proxy)
    → s.main ≡ m
    → s.serving ≡ v
    → MainAgrees s.main s
    → MainAgrees m (serving_step v e s)
unfolding serving_step start_target_prober
serving_step-MainAgrees m v e s p q h = ground arith

serving_step-AllAgree :
    (v : Serving) (e : Option ServeError) (s : Proxy)
    → s.serving ≡ v
    → AllAgree s
    → AllAgree (serving_step v e s)
unfolding serving_step start_target_prober
serving_step-AllAgree unstarted e s q h = (
  start_target_prober-Agrees s.prober h.0,
  serving_step-MainAgrees s.main unstarted e s refl q h.1,
)
serving_step-AllAgree listening e s q h =
    (h.0, serving_step-MainAgrees s.main listening e s refl q h.1)
serving_step-AllAgree (ended f) e s q h = h

on_signal-AllAgree : (m : Main) (s : Proxy) → s.main ≡ m → AllAgree s → AllAgree (on_signal m s)
unfolding on_signal stop_target_prober
on_signal-AllAgree m s p h = ground (arith, stop_target_prober-Agrees s.prober h.0)

on_error-AllAgree :
    (m : Main) (v : Serving) (s : Proxy)
    → s.main ≡ m
    → s.serving ≡ v
    → AllAgree s
    → AllAgree (on_error m v s)
unfolding on_error
on_error-AllAgree m v s p q h = ground arith

stopping-AllAgree :
    (t : Stopper) (e : Option ServeError) (s : Proxy)
    → s.main ≡ stopping
    → s.prober.stopper ≡ t
    → AllAgree s
    → AllAgree (shutdown_step stopping e s)
unfolding shutdown_step stopper_step
stopping-AllAgree t e s p q h = ground (arith, stopper_step-Agrees t s.prober q h.0)

shutdown_step-AllAgree :
    (m : Main) (e : Option ServeError) (s : Proxy)
    → s.main ≡ m
    → AllAgree s
    → AllAgree (shutdown_step m e s)
unfolding shutdown_step
shutdown_step-AllAgree stopping e s p h = stopping-AllAgree s.prober.stopper e s p refl h
shutdown_step-AllAgree draining e s p h = ground arith
shutdown_step-AllAgree Main.selecting e s p h = h
shutdown_step-AllAgree (exited n) e s p h = h

-- A turn of the prober leaves what main sees of it.
loop_step-MainAgrees :
    (m : Main) (l : Loop) (tick : Bool) (s : Proxy)
    → MainAgrees m s
    → MainAgrees m (record s { prober = loop_step l tick s.prober })
unfolding loop_step
loop_step-MainAgrees m l tick s h = ground arith

moved-AllAgree : (s : Proxy) (a : Action) → AllAgree s → AllAgree (moved s a)
moved-AllAgree s (serving_moves e) h = serving_step-AllAgree s.serving e s refl h
moved-AllAgree s signal_arrives h = on_signal-AllAgree s.main s refl h
moved-AllAgree s error_arrives h = on_error-AllAgree s.main s.serving s refl refl h
moved-AllAgree s (shutdown_moves e) h = shutdown_step-AllAgree s.main e s refl h
moved-AllAgree s (prober_moves tick) h = (
  loop_step-Agrees s.prober.loop s.prober.stopper tick s.prober refl refl h.0,
  loop_step-MainAgrees s.main s.prober.loop tick s h.1,
)

step-AllAgree : (s : Proxy) (a : Action) → AllAgree s → AllAgree (step s a)
unfolding step
step-AllAgree s a h = ground (arith, moved-AllAgree s a h)

run-AllAgree : (s : Proxy) (as' : List Action) → AllAgree s → AllAgree (run s as')
unfolding run
run-AllAgree s [] h = h
run-AllAgree s (a ∷ as') h = run-AllAgree (step s a) as' (step-AllAgree s a h)

new_proxy-AllAgree : (r : Result Config) → AllAgree (new_proxy r)
unfolding new_proxy
new_proxy-AllAgree (ok c) = (new_prober-Agrees, (refl, refl))
new_proxy-AllAgree (err e) = (new_prober-Agrees, tt)

abbrev QuietAt : Main → Proxy → Type 0
QuietAt draining s = IsQuiet s.prober
QuietAt (exited zero) s =
    IsQuiet s.prober ⊎ ((s.serving ≡ ended false) × (s.prober.stopper ≡ not_called))
QuietAt _ s = Unit {0}

abbrev pub IsOrderly : Proxy → Type 0
IsOrderly s = (s.prober.spawned ≤ 1) × QuietAt s.main s

orderly_lem :
    (m : Main) (v : Serving) (s : Proxy) → s.main ≡ m → s.serving ≡ v → AllAgree s → IsOrderly s
orderly_lem m v s p q h = ground (arith, stopped_lem s.prober h.0)

-- Whatever LoadConfig returned, in every interleaving of the proxy's goroutines, a signal at any
-- moment included, at most one prober is spawned; none runs, or is started later, while the HTTP
-- server drains, nor when main returns with status 0, unless Shutdown was never called and
-- ListenAndServe had ended by itself without an error but ErrServerClosed.
pub run-IsOrderly : (r : Result Config) (as' : List Action) → IsOrderly (run (new_proxy r) as')
run-IsOrderly r as' =
    let s = run (new_proxy r) as' in
    orderly_lem s.main s.serving s refl refl (run-AllAgree (new_proxy r) as' (new_proxy-AllAgree r))
