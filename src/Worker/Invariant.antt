-- ===== src/Worker/Invariant.antt =====
-- What holds of a worker's thread between two steps.
use lib_sloppy.Base.{◌≡◌, refl, Bool, true, false, arith, ◌⊎◌, inl}
use lib_sloppy.Base.Int.{ℤ}
use lib_sloppy.Worker.{
  CyclicWorker, Hook, WorkerState, initialized, running, suspended, finished, during, after, run,
  pause, resume, terminate, destroy, next_hook, do_state_machine, end_hook, new_worker,
}
use lib_sloppy.Worker.Hook.{on_terminate}
use lib_sloppy.Worker.Loop.{
  Place, Command, Timing, Thread, Step, Reach, at, obey, advance, machine, start, starts, then_step,
  works, obeys, quits, in_hook, left, threw,
}

-- The current state, the requested one and the flag of a pending transition, when no hook runs: the
-- flag says that a request is open, except that termination may be open without it.
abbrev pub IsSettled : WorkerState → WorkerState → Bool → Type 0
IsSettled initialized req pending =
    (req ≡ initialized) × (pending ≡ false) ⊎ (req ≡ running) × (pending ≡ true) ⊎ req ≡ finished
IsSettled running req pending =
    (req ≡ running) × (pending ≡ false) ⊎ (req ≡ suspended) × (pending ≡ true) ⊎ req ≡ finished
IsSettled suspended req pending =
    (req ≡ suspended) × (pending ≡ false) ⊎ (req ≡ running) × (pending ≡ true) ⊎ req ≡ finished
IsSettled finished req pending = (req ≡ finished) × (pending ≡ false)
IsSettled _ req pending = ⊥

-- The same while a hook runs.
abbrev pub IsInHook : Hook → WorkerState → WorkerState → Bool → Type 0
IsInHook on_terminate cur req pending = (cur ≡ during on_terminate) × (req ≡ finished)
IsInHook h cur req pending =
    (cur ≡ during h) × (pending ≡ true) × ((req ≡ after h) ⊎ (req ≡ finished))

-- The thread never throws, and it leaves its loop only when it has to.
abbrev pub IsGood : Place → WorkerState → WorkerState → Bool → Bool → Type 0
IsGood (in_hook h second) cur req pending quit = IsInHook h cur req pending
IsGood threw cur req pending quit = ⊥
IsGood left cur req pending quit = IsSettled cur req pending × (quit ≡ false → cur ≡ finished)
IsGood _ cur req pending quit = IsSettled cur req pending

abbrev pub Good : Thread → Type 0
Good t =
    IsGood t.place t.worker.cur_state t.worker.req_state t.worker.is_transition_pending
      t.worker.force_quit

pub advance-Good :
    (cycle_ms : ℤ) (t : Timing) (w : CyclicWorker) (p : Place)
    → Good (at w p)
    → Good (advance cycle_ms t w p)
unfolding advance machine do_state_machine next_hook end_hook
advance-Good cycle_ms t w p g = ground arith

obey-Good : (c : Command) (w : CyclicWorker) (p : Place) → Good (at w p) → Good (at (obey c w) p)
unfolding obey run pause resume terminate
obey-Good c w p g = ground arith

destroy-Good : (w : CyclicWorker) (p : Place) → Good (at w p) → Good (at (destroy w) p)
unfolding destroy
destroy-Good w p g = ground arith

pub Step-Good : (cycle_ms : ℤ) (t t' : Thread) → Step cycle_ms t t' → Good t → Good t'
Step-Good cycle_ms _ _ (works w p t) g = advance-Good cycle_ms t w p g
Step-Good cycle_ms _ _ (obeys w p c free) g = obey-Good c w p g
Step-Good cycle_ms _ _ (quits w p) g = destroy-Good w p g

-- In every run, with the controller's calls at any time that the mutex allows: the thread never finds
-- a state without a transition and so never throws, a hook runs only in its own state, and a request
-- that is not carried out is marked as pending, except for one of termination.
pub Reach-Good : (cycle_ms : ℤ) (t : Thread) → Reach cycle_ms t → Good t
unfolding start new_worker
Reach-Good cycle_ms _ starts = inl (refl, refl)
Reach-Good cycle_ms _ (then_step t t' r s) = Step-Good cycle_ms t t' s (Reach-Good cycle_ms t r)
