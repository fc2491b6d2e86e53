-- ===== src/Proxy/Health/Prober.antt =====
-- startTargetProber and stopTargetProber, called from any goroutines.
use workspace_websocket_prox.Base.{
  ℕ, suc, ◌≡◌, ◌≢◌, ◌≤◌, ◌⊎◌, refl, Bool, true, false, List, [], ◌∷◌, arith, ◌||◌, if◌then◌else◌,
}

-- The prober's goroutine: never spawned, in a probe, in its select, or returned.
pub data Loop : Type 0 where
  unspawned probing selecting ended : Loop

-- A call of stopTargetProber that has set proberStopped: before proberCancel, at <-done, returned.
pub data Stopper : Type 0 where
  not_called cancelling waiting returned : Stopper

pub record Prober : Type 0 where
  pub prober_stopped : Bool
  pub prober_done : Bool
  pub canceled : Bool
  pub loop : Loop
  pub spawned : ℕ
  pub stopper : Stopper

unfoldable pub new_prober : Prober
new_prober = record {
  prober_stopped = false;
  prober_done = false;
  canceled = false;
  loop = unspawned;
  spawned = 0;
  stopper = not_called;
}

unfoldable pub start_target_prober : Prober → Prober
start_target_prober s =
    if s.prober_stopped || s.prober_done
    then s
    else record s { prober_done = true; loop = probing; spawned = suc s.spawned }

-- The locked part of stopTargetProber; a call that finds proberStopped set returns at once.
unfoldable pub stop_target_prober : Prober → Prober
stop_target_prober s =
    if s.prober_stopped then s else record s { prober_stopped = true; stopper = cancelling }

abbrev pub is_over : Loop → Bool
is_over probing = false
is_over selecting = false
is_over _ = true

unfoldable pub stopper_step : Stopper → Prober → Prober
stopper_step cancelling s = record s { canceled = true; stopper = waiting }
stopper_step waiting s = if is_over s.loop then record s { stopper = returned } else s
stopper_step _ s = s

-- The end of a probe, a tick, or the end of the context.
unfoldable pub loop_step : Loop → Bool → Prober → Prober
loop_step probing tick s = record s { loop = selecting }
loop_step selecting true s = record s { loop = probing }
loop_step selecting false s = if s.canceled then record s { loop = ended } else s
loop_step _ tick s = s

pub data Action : Type 0 where
  starts stops stopper_moves : Action
  loop_moves : (tick : Bool) → Action

unfoldable pub step : Prober → Action → Prober
unfolding start_target_prober stop_target_prober stopper_step loop_step
step s starts = start_target_prober s
step s stops = stop_target_prober s
step s stopper_moves = stopper_step s.stopper s
step s (loop_moves tick) = loop_step s.loop tick s

unfoldable pub run : Prober → List Action → Prober
run s [] = s
run s (a ∷ as') = run (step s a) as'

abbrev pub LoopAgrees : Loop → Prober → Type 0
LoopAgrees unspawned s = (s.prober_done ≡ false) × (s.spawned ≡ 0)
LoopAgrees _ s = (s.prober_done ≡ true) × (s.spawned ≡ 1)

abbrev pub StopperAgrees : Stopper → Prober → Type 0
StopperAgrees not_called s = Unit {0}
StopperAgrees returned s = (s.prober_stopped ≡ true) × (is_over s.loop ≡ true)
StopperAgrees _ s = s.prober_stopped ≡ true

abbrev pub Agrees : Prober → Type 0
Agrees s = LoopAgrees s.loop s × StopperAgrees s.stopper s

pub loop_step-Agrees :
    (l : Loop) (t : Stopper) (tick : Bool) (s : Prober)
    → s.loop ≡ l
    → s.stopper ≡ t
    → Agrees s
    → Agrees (loop_step l tick s)
unfolding loop_step
loop_step-Agrees l t tick s e f h = ground arith

pub stopper_step-Agrees :
    (t : Stopper) (s : Prober) → s.stopper ≡ t → Agrees s → Agrees (stopper_step t s)
unfolding stopper_step
stopper_step-Agrees t s e h = ground arith

step-Agrees : (s : Prober) (a : Action) → Agrees s → Agrees (step s a)
unfolding step start_target_prober stop_target_prober
step-Agrees s starts h = ground arith
step-Agrees s stops h = ground arith
step-Agrees s stopper_moves h = stopper_step-Agrees s.stopper s refl h
step-Agrees s (loop_moves tick) h = loop_step-Agrees s.loop s.stopper tick s refl refl h

pub start_target_prober-Agrees : (s : Prober) → Agrees s → Agrees (start_target_prober s)
unfolding step
start_target_prober-Agrees s h = step-Agrees s starts h

pub stop_target_prober-Agrees : (s : Prober) → Agrees s → Agrees (stop_target_prober s)
unfolding step
stop_target_prober-Agrees s h = step-Agrees s stops h

Agrees-run : (s : Prober) (as' : List Action) → Agrees s → Agrees (run s as')
unfolding run
Agrees-run s [] h = h
Agrees-run s (a ∷ as') h = Agrees-run (step s a) as' (step-Agrees s a h)

pub new_prober-Agrees : Agrees new_prober
unfolding new_prober
new_prober-Agrees = ((refl, refl), tt)

-- At most one prober was spawned, and it does not run if the stopping call has returned.
abbrev pub IsStopped : Prober → Type 0
IsStopped s =
    (s.spawned ≤ 1) × ((s.stopper ≢ returned) ⊎ ((s.loop ≢ probing) × (s.loop ≢ selecting)))

pub stopped_lem : (s : Prober) → Agrees s → IsStopped s
stopped_lem s h = ground arith

-- In every interleaving of calls of startTargetProber and stopTargetProber at most one prober
-- is ever spawned, and once the call of stopTargetProber that stops it has returned, none runs.
pub run-IsStopped : (as' : List Action) → IsStopped (run new_prober as')
run-IsStopped as' = stopped_lem (run new_prober as') (Agrees-run new_prober as' new_prober-Agrees)
