-- ===== src/Proxy/Bridge/Ending.antt =====
-- How Run ends.
use workspace_websocket_prox.Base.{
  ℕ, ◌+◌, ◌≤◌, ◌≡◌, refl, Bool, true, false, Option, none, some, List, [], ◌∷◌, ◌++◌, length,
  length-append, if_both, arith,
}
use workspace_websocket_prox.Proxy.Bridge.{
  Main, receiving, closing_ws, closing_tcp, returned, Running, Action, up_returns, down_returns,
  main_moves, launched, run_step, step, run,
}

abbrev copying : Bool → ℕ
copying true = 1
copying false = 0

module _ {E : Type 0} where
  abbrev received : Main E → ℕ
  received receiving = 0
  received _ = 1

  -- One result for each loop that has returned.
  abbrev Results : Running E → Type 0
  Results s = length s.channel + received s.main + copying s.up_copying + copying s.down_copying ≡ 2

  abbrev CloseAgrees : Main E → Running E → Type 0
  CloseAgrees receiving s = Unit {0}
  CloseAgrees (closing_ws e) s = Unit {0}
  CloseAgrees (closing_tcp e) s = s.ws_closed ≡ true
  CloseAgrees (returned e) s = (s.ws_closed ≡ true) × (s.tcp_closed ≡ true)

  -- The first result that a loop returns.
  abbrev pub first_result : List (Action E) → Option (Option E)
  first_result [] = none
  first_result (up_returns e ∷ as') = some e
  first_result (down_returns e ∷ as') = some e
  first_result (main_moves ∷ as') = first_result as'

  run_step-CloseAgrees :
      (m : Main E) (s : Running E)
      → s.main ≡ m
      → CloseAgrees m s
      → CloseAgrees (run_step m s).main (run_step m s)
  unfolding run_step
  run_step-CloseAgrees receiving s e h = ground arith
  run_step-CloseAgrees (closing_ws x) s e h = ground arith
  run_step-CloseAgrees (closing_tcp x) s e h = ground arith
  run_step-CloseAgrees (returned x) s e h = ground arith

  run_step-Results : (m : Main E) (s : Running E) → s.main ≡ m → Results s → Results (run_step m s)
  unfolding run_step
  run_step-Results receiving s e h = ground arith
  run_step-Results (closing_ws x) s e h = ground arith
  run_step-Results (closing_tcp x) s e h = ground arith
  run_step-Results (returned x) s e h = ground arith

  step-Results : (s : Running E) (a : Action E) → Results s → Results (step s a)
  unfolding step
  step-Results s (up_returns e) h = ground (arith, length-append s.channel (e ∷ []))
  step-Results s (down_returns e) h = ground (arith, length-append s.channel (e ∷ []))
  step-Results s main_moves h = run_step-Results s.main s refl h

  step-CloseAgrees :
      (s : Running E) (a : Action E) → CloseAgrees s.main s → CloseAgrees (step s a).main (step s a)
  unfolding step
  step-CloseAgrees s (up_returns e) h = ground arith
  step-CloseAgrees s (down_returns e) h = ground arith
  step-CloseAgrees s main_moves h = run_step-CloseAgrees s.main s refl h

  Results-run : (s : Running E) (as' : List (Action E)) → Results s → Results (run s as')
  unfolding run
  Results-run s [] h = h
  Results-run s (a ∷ as') h = Results-run (step s a) as' (step-Results s a h)

  CloseAgrees-run :
      (s : Running E) (as' : List (Action E))
      → CloseAgrees s.main s
      → CloseAgrees (run s as').main (run s as')
  unfolding run
  CloseAgrees-run s [] h = h
  CloseAgrees-run s (a ∷ as') h = CloseAgrees-run (step s a) as' (step-CloseAgrees s a h)

launched-Results : (E : Type 0) → Results (launched {E = E})
unfolding launched
launched-Results E = omega arith

launched-CloseAgrees : (E : Type 0) → CloseAgrees (launched {E = E}).main launched
unfolding launched
launched-CloseAgrees E = tt

module _ {E : Type 0} where
  -- The channel has room for both results, so that neither loop is ever blocked by its send.
  pub length-channel : (as' : List (Action E)) → length (run launched as').channel ≤ 2
  length-channel as' = ground (arith, Results-run launched as' (launched-Results E))

  -- The result that Run returns, as soon as that is settled.
  abbrev oldest : List (Option E) → Option (Option E)
  oldest [] = none
  oldest (e ∷ es) = some e

  abbrev settled : Main E → List (Option E) → Option (Option E)
  settled receiving c = oldest c
  settled (closing_ws e) c = some e
  settled (closing_tcp e) c = some e
  settled (returned e) c = some e

  settled-append :
      (m : Main E) (c : List (Option E)) (x e : Option E)
      → settled m c ≡ some x
      → settled m (c ++ e ∷ []) ≡ some x
  settled-append receiving [] x e h = ground arith
  settled-append receiving (y ∷ c) x e h = h
  settled-append (closing_ws y) c x e h = h
  settled-append (closing_tcp y) c x e h = h
  settled-append (returned y) c x e h = h

  run_step-settled :
      (m : Main E) (s : Running E) (x : Option E)
      → s.main ≡ m
      → settled m s.channel ≡ some x
      → settled (run_step m s).main (run_step m s).channel ≡ some x
  unfolding run_step
  run_step-settled receiving s x e h = ground arith
  run_step-settled (closing_ws y) s x e h = h
  run_step-settled (closing_tcp y) s x e h = h
  run_step-settled (returned y) s x e h = ground arith

  step-settled :
      (s : Running E) (a : Action E) (x : Option E)
      → settled s.main s.channel ≡ some x
      → settled (step s a).main (step s a).channel ≡ some x
  unfolding step
  step-settled s (up_returns e) x h =
      if_both (λ (r : Running E). settled r.main r.channel ≡ some x) s.up_copying
        (settled-append s.main s.channel x e h) h
  step-settled s (down_returns e) x h =
      if_both (λ (r : Running E). settled r.main r.channel ≡ some x) s.down_copying
        (settled-append s.main s.channel x e h) h
  step-settled s main_moves x h = run_step-settled s.main s x refl h

  settled-run :
      (s : Running E) (as' : List (Action E)) (x : Option E)
      → settled s.main s.channel ≡ some x
      → settled (run s as').main (run s as').channel ≡ some x
  unfolding run
  settled-run s [] x h = h
  settled-run s (a ∷ as') x h = settled-run (step s a) as' x (step-settled s a x h)

  settled-first_result :
      (as' : List (Action E))
      → settled (run launched as').main (run launched as').channel ≡ first_result as'
  unfolding run step run_step launched
  settled-first_result [] = refl
  settled-first_result (up_returns e ∷ as') = settled-run (step launched (up_returns e)) as' e refl
  settled-first_result (down_returns e ∷ as') =
      settled-run (step launched (down_returns e)) as' e refl
  settled-first_result (main_moves ∷ as') = settled-first_result as'

  returned_lem :
      (m : Main E) (s : Running E) (e : Option E) (r : Option (Option E))
      → m ≡ returned e
      → CloseAgrees m s
      → settled m s.channel ≡ r
      → (r ≡ some e) × (s.ws_closed ≡ true) × (s.tcp_closed ≡ true)
  returned_lem m s e r h c l = ground arith

  -- Whenever Run has returned, in whatever order the loops end, its result is that of the loop
  -- that returned first, and both connections have been closed.
  pub run-first_result :
      (as' : List (Action E)) (e : Option E)
      → (run launched as').main ≡ returned e
      → (first_result as' ≡ some e)
        × ((run launched as').ws_closed ≡ true)
        × ((run launched as').tcp_closed ≡ true)
  run-first_result as' e h =
      returned_lem (run launched as').main (run launched as') e (first_result as') h
        (CloseAgrees-run launched as' (launched-CloseAgrees E)) (settled-first_result as')
