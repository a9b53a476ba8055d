-- ===== src/Worker/Transitions.antt =====
-- How the state of a worker's thread changes, and what the calls of the controller return.
use lib_sloppy.Base.{◌≡◌, refl, arith, ◌⊎◌, inl}
use lib_sloppy.Base.Int.{ℤ}
use lib_sloppy.Worker.{
  CyclicWorker, WorkerState, initialized, running, suspended, finished, run, pause, resume,
  terminate, destroy, next_hook, do_state_machine, end_hook, preparing, suspending, resuming,
  terminating,
}
use lib_sloppy.Worker.Loop.{
  Place, Command, Timing, Thread, Step, Reach, at, obey, advance, machine, works, obeys, quits,
}
use lib_sloppy.Worker.Invariant.{Good, Reach-Good}

-- The diagram of the states.
abbrev pub IsTransition : WorkerState → WorkerState → Type 0
IsTransition initialized s = (s ≡ preparing) ⊎ (s ≡ terminating)
IsTransition preparing s = s ≡ running
IsTransition running s = (s ≡ suspending) ⊎ (s ≡ terminating)
IsTransition suspending s = s ≡ suspended
IsTransition suspended s = (s ≡ resuming) ⊎ (s ≡ terminating)
IsTransition resuming s = s ≡ running
IsTransition terminating s = s ≡ finished
IsTransition finished s = ⊥

advance_moves :
    (cycle_ms : ℤ) (t : Timing) (w : CyclicWorker) (p : Place)
    → Good (at w p)
    → ((advance cycle_ms t w p).worker.cur_state ≡ w.cur_state)
      ⊎ IsTransition w.cur_state (advance cycle_ms t w p).worker.cur_state
unfolding advance machine do_state_machine next_hook end_hook
advance_moves cycle_ms t w p g = ground arith

obey_stays : (c : Command) (w : CyclicWorker) → (obey c w).cur_state ≡ w.cur_state
unfolding obey run pause resume terminate
obey_stays c w = ground arith

-- In every run, each step leaves the state or takes it along one arrow of the diagram: initialized to
-- preparing to running, running to suspending to suspended, suspended to resuming to running, and
-- from these three to terminating and finished. From finished no arrow leads on.
pub transition_lem :
    (cycle_ms : ℤ) (t t' : Thread)
    → Reach cycle_ms t
    → Step cycle_ms t t'
    → (t'.worker.cur_state ≡ t.worker.cur_state)
      ⊎ IsTransition t.worker.cur_state t'.worker.cur_state
unfolding destroy
transition_lem cycle_ms _ _ r (works w p t) =
    advance_moves cycle_ms t w p (Reach-Good cycle_ms (at w p) r)
transition_lem cycle_ms _ _ r (obeys w p c free) = inl (obey_stays c w)
transition_lem cycle_ms _ _ r (quits w p) = inl refl
