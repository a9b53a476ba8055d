-- ===== src/Worker.antt =====
-- CyclicWorkerThread.h and CyclicWorkerThread.cpp: a thread that calls a worker again and again, and
-- the calls by which another thread controls it. A call by the controller is one function: only the
-- controller sets the flag of a pending transition, so that what it reads of it without the mutex
-- still holds when it has the mutex. The worker's thread is cut where it gives the mutex up.
pub mod Stats
pub mod Loop
pub mod Invariant
pub mod Transitions
pub mod Liveness
pub mod Faults
pub mod Counts
mod Tests
use lib_sloppy.Base.{
  ℕ, ◌≡◌, Bool, true, false, if◌then◌else◌, ◌==◌, ◌||◌, ◌&&◌, not, Option, none, some, Result, ok,
  err, ◌>>=◌, runtime_error,
}
use Stats.{AsyncWorkerStats, new_stats}

pub data WorkerState : Type 0 where
  initialized preparing running suspending : WorkerState
  suspended resuming terminating finished : WorkerState

abbrev pub index : WorkerState → ℕ
index initialized = 0
index preparing = 1
index running = 2
index suspending = 3
index suspended = 4
index resuming = 5
index terminating = 6
index finished = 7

abbrev pub is : WorkerState → WorkerState → Bool
is s t = index s == index t

pub record CyclicWorker : Type 0 where
  pub cur_state : WorkerState
  pub req_state : WorkerState
  pub is_transition_pending : Bool
  pub force_quit : Bool
  pub stats : AsyncWorkerStats

unfoldable pub new_worker : CyclicWorker
unfolding new_stats
new_worker = record {
  cur_state = initialized;
  req_state = initialized;
  is_transition_pending = false;
  force_quit = false;
  stats = new_stats;
}

abbrev pub request : WorkerState → CyclicWorker → CyclicWorker
request s w = record w { req_state = s; is_transition_pending = true }

unfoldable pub run : CyclicWorker → Bool × CyclicWorker
run w =
    if w.is_transition_pending
    then (false, w)
    else if is w.cur_state running
    then (true, w)
    else if not (is w.cur_state initialized) && not (is w.cur_state suspended)
    then (false, w)
    else (true, request running w)

unfoldable pub pause : CyclicWorker → Bool × CyclicWorker
pause w =
    if w.is_transition_pending
    then (false, w)
    else if is w.cur_state suspended
    then (true, w)
    else if not (is w.cur_state running)
    then (false, w)
    else (true, request suspended w)

unfoldable pub resume : CyclicWorker → Bool × CyclicWorker
resume w =
    if w.is_transition_pending
    then (false, w)
    else if is w.cur_state running
    then (true, w)
    else if not (is w.cur_state suspended)
    then (false, w)
    else (true, request running w)

unfoldable pub terminate : CyclicWorker → CyclicWorker
terminate w = if is w.cur_state finished then w else request finished w

-- What the destructor does before it joins the thread.
unfoldable pub destroy : CyclicWorker → CyclicWorker
destroy w = record w { force_quit = true }

-- The hooks, with the state while one runs and the state after it.
pub data Hook : Type 0 where
  on_first_run on_suspend on_resume on_terminate : Hook

abbrev pub during : Hook → WorkerState
during on_first_run = preparing
during on_suspend = suspending
during on_resume = resuming
during on_terminate = terminating

abbrev pub after : Hook → WorkerState
after on_first_run = running
after on_suspend = suspended
after on_resume = running
after on_terminate = finished

-- The transition logic of `doStateMachine`: the hook to run, if there is anything to do.
unfoldable pub next_hook : WorkerState → WorkerState → Result (Option Hook)
next_hook cur req =
    if is req cur
    then ok none
    else if is req finished
    then ok (some on_terminate)
    else if is cur initialized && is req running
    then ok (some on_first_run)
    else if is cur running && is req suspended
    then ok (some on_suspend)
    else if is cur suspended && is req running
    then ok (some on_resume)
    else err runtime_error

abbrev pub begin_hook : CyclicWorker → Option Hook → CyclicWorker
begin_hook w none = w
begin_hook w (some h) = record w { cur_state = during h }

-- `doStateMachine` up to the call of the hook, with the mutex, and from its return.
unfoldable pub do_state_machine : CyclicWorker → Result (Option Hook × CyclicWorker)
unfolding next_hook
do_state_machine w = next_hook w.cur_state w.req_state >>= λ h. ok (h, begin_hook w h)

unfoldable pub end_hook : Hook → CyclicWorker → CyclicWorker
end_hook h w = record w { cur_state = after h; is_transition_pending = false }
