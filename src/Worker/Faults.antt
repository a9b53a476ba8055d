-- ===== src/Worker/Faults.antt =====
-- What goes wrong between the thread of a worker and its controller.
use lib_sloppy.Base.{◌<◌, ◌≡◌, ◌≢◌, refl, true, false, arith, List, [], ◌∷◌, sym}
use lib_sloppy.Base.Int.{ℤ, pos_part}
use lib_sloppy.Worker.{
  CyclicWorker, Hook, WorkerState, initialized, running, suspended, finished, terminate, run, pause,
  resume, next_hook, do_state_machine, end_hook,
}
use lib_sloppy.Worker.Hook.{on_suspend, on_terminate}
use lib_sloppy.Worker.Loop.{
  Timing, Reach, Step, at, advance, advance_all, machine, at_head, in_worker, in_hook, waiting,
  then_step, works, obeys, Command, obey, calls_run, calls_pause, calls_resume,
}
use lib_sloppy.Worker.Invariant.{Good, Reach-Good}

-- The call that undoes what a hook leads to, and the state that it asks for.
abbrev pub reverse_call : Hook → Command
reverse_call on_suspend = calls_resume
reverse_call _ = calls_pause

abbrev pub reverse_state : Hook → WorkerState
reverse_state on_suspend = running
reverse_state _ = suspended

lost :
    (cycle_ms : ℤ) (w : CyclicWorker) (h : Hook) (t : Timing)
    → Good (at w (in_hook h false))
    → h ≢ on_terminate
    → t.elapsed < pos_part cycle_ms
    → let t' = advance cycle_ms t (terminate w) (in_hook h false) in
      (t'.place ≡ waiting)
      × (t'.worker.is_transition_pending ≡ false)
      × ((obey (reverse_call h) t'.worker).req_state ≡ reverse_state h)
unfolding terminate advance end_hook obey pause resume
lost cycle_ms w h t g n lt = ground arith

-- In every run, when `terminate` is called while a hook other than that of termination runs that was
-- called before the waiting of its cycle, and there is time left in the cycle when the hook ends, then
-- the end of the hook clears the flag of the pending transition, so that `waitForStateChange` returns
-- although the worker has not finished, the thread waits, and a `pause` (or a `resume` after a
-- suspension) that comes while it waits replaces the request: the worker is not terminated.
pub terminate_lost :
    (cycle_ms : ℤ) (w : CyclicWorker) (h : Hook) (t : Timing)
    → Reach cycle_ms (at w (in_hook h false))
    → h ≢ on_terminate
    → t.elapsed < pos_part cycle_ms
    → let t' = advance cycle_ms t (terminate w) (in_hook h false) in
      (t'.place ≡ waiting)
      × (t'.worker.is_transition_pending ≡ false)
      × ((obey (reverse_call h) t'.worker).req_state ≡ reverse_state h)
terminate_lost cycle_ms w h t r n lt =
    lost cycle_ms w h t (Reach-Good cycle_ms (at w (in_hook h false)) r) n lt

abbrev pub late : Timing → Timing
late t = record t { timed_out = true }

two_steps :
    (cycle_ms : ℤ) (w : CyclicWorker) (t : Timing)
    → w.cur_state ≡ initialized
    → w.is_transition_pending ≡ false
    → w.force_quit ≡ false
    → let w' = obey calls_run w in
      (advance cycle_ms (late t) w' waiting ≡ at w' (at_head true))
      × (advance cycle_ms t w' (at_head true) ≡ at w' in_worker)
      × (w'.cur_state ≡ initialized)
      × (w'.req_state ≡ running)
unfolding obey run advance
two_steps cycle_ms w t c p q = ground arith

-- In every state of a run in which the thread of a new worker waits, no transition is pending and the
-- destructor has not been called, `run` may be called, the mutex being free. If the waiting then ends
-- by its limit, the thread goes on to a new cycle and from there straight into the worker function, in
-- the state of a new worker: the hook of the first run has not been called. The run so continued is a
-- run.
pub worker_before_first_run :
    (cycle_ms : ℤ) (w : CyclicWorker) (t : Timing)
    → Reach cycle_ms (at w waiting)
    → w.cur_state ≡ initialized
    → w.is_transition_pending ≡ false
    → w.force_quit ≡ false
    → let w' = obey calls_run w in
      Step cycle_ms (at w waiting) (at w' waiting)
      × (advance cycle_ms (late t) w' waiting ≡ at w' (at_head true))
      × (advance cycle_ms t w' (at_head true) ≡ at w' in_worker)
      × (w'.cur_state ≡ initialized)
      × (w'.req_state ≡ running)
      × Reach cycle_ms (at w' in_worker)
worker_before_first_run cycle_ms w t r c p q =
    let w' = obey calls_run w in
    let (wakes, enters, new, asks) = two_steps cycle_ms w t c p q in
    let call = obeys w waiting calls_run refl in
    let called : Reach cycle_ms (at w' waiting) = then_step _ _ r call in
    let woken : Reach cycle_ms (at w' (at_head true)) =
      rw (sym wakes) (then_step _ _ called (works w' waiting (late t))) in
    let entered : Reach cycle_ms (at w' in_worker) =
      rw (sym enters) (then_step _ _ woken (works w' (at_head true) t)) in
    (call, wakes, enters, new, asks, entered)

idles :
    (cycle_ms : ℤ) (w : CyclicWorker) (t : Timing)
    → pos_part cycle_ms ≡ 0
    → w.req_state ≡ w.cur_state
    → w.cur_state ≢ running
    → w.cur_state ≢ finished
    → w.force_quit ≡ false
    → advance cycle_ms t w (at_head true) ≡ at w (at_head true)
unfolding advance machine do_state_machine next_hook
idles cycle_ms w t z e n1 n2 q = ground arith

-- With a cycle of no milliseconds, a thread that is neither to run its worker nor to finish keeps the
-- mutex for good, whatever the time that its steps take: no call of the controller gets it, so that a
-- new worker is never run.
pub mutex_kept :
    (cycle_ms : ℤ) (w : CyclicWorker) (ts : List Timing)
    → pos_part cycle_ms ≡ 0
    → w.req_state ≡ w.cur_state
    → w.cur_state ≢ running
    → w.cur_state ≢ finished
    → w.force_quit ≡ false
    → advance_all cycle_ms ts (at w (at_head true)) ≡ at w (at_head true)
unfolding advance_all
mutex_kept cycle_ms w [] z e n1 n2 q = refl
mutex_kept cycle_ms w (t ∷ ts) z e n1 n2 q =
    rw (idles cycle_ms w t z e n1 n2 q) (mutex_kept cycle_ms w ts z e n1 n2 q)
