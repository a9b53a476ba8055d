-- ===== src/Worker/Loop.antt =====
-- `mainLoop`, and the runs of a worker's thread and its controller.
use lib_sloppy.Base.{
  ℕ, ◌≡◌, Bool, true, false, if◌then◌else◌, ltb, ◌||◌, ◌&&◌, Option, none, some, Result, ok, err,
  List, [], ◌∷◌,
}
use lib_sloppy.Base.Int.{ℤ, pos_part}
use lib_sloppy.Worker.{
  CyclicWorker, Hook, is, running, finished, run, pause, resume, terminate, destroy,
  do_state_machine, end_hook, new_worker,
}
use lib_sloppy.Worker.Stats.{update}

-- Where the thread is. It has the mutex at the head of the loop only; `in_hook` says whether the hook
-- was called by the second call of the state machine, after the waiting.
pub data Place : Type 0 where
  starting : Place
  at_head : Bool → Place
  in_worker : Place
  in_hook : Hook → Bool → Place
  waiting left threw : Place

abbrev pub has_mutex : Place → Bool
has_mutex (at_head _) = true
has_mutex _ = false

-- What the outside world decides in a step: the run time of the worker, the time since the start of
-- the cycle, and whether the waiting ends by its limit or by a notification.
pub record Timing : Type 0 where
  pub worker_time : ℤ
  pub elapsed : ℕ
  pub timed_out : Bool

pub record Thread : Type 0 where
  pub worker : CyclicWorker
  pub place : Place

abbrev pub at : CyclicWorker → Place → Thread
at w p = record { worker = w; place = p }

unfoldable pub start : Thread
unfolding new_worker
start = at new_worker starting

abbrev pub must_quit : CyclicWorker → Bool
must_quit w = w.force_quit || is w.cur_state finished

-- A cycle of `cycle_ms` from the end of the state machine on: wait for what is left of the cycle.
abbrev pub after_machine : ℤ → Timing → Bool → CyclicWorker → Thread
after_machine cycle_ms t true w = at w (at_head false)
after_machine cycle_ms t false w =
    if ltb t.elapsed (pos_part cycle_ms) then at w waiting else at w (at_head true)

abbrev pub on_machine :
    ℤ → Timing → Bool → CyclicWorker → Result (Option Hook × CyclicWorker) → Thread
on_machine cycle_ms t second w (err e) = at w threw
on_machine cycle_ms t second w (ok (none, w')) = after_machine cycle_ms t second w'
on_machine cycle_ms t second w (ok (some h, w')) = at w' (in_hook h second)

unfoldable pub machine : ℤ → Timing → Bool → CyclicWorker → Thread
unfolding do_state_machine
machine cycle_ms t second w = on_machine cycle_ms t second w (do_state_machine w)

-- One step of the thread.
unfoldable pub advance : ℤ → Timing → CyclicWorker → Place → Thread
unfolding machine end_hook update
advance cycle_ms t w starting = at w (at_head true)
advance cycle_ms t w (at_head is_new) =
    if must_quit w
    then at w left
    else if is w.req_state running && is_new
    then at w in_worker
    else machine cycle_ms t false w
advance cycle_ms t w in_worker =
    let w' = record w { stats = update w.stats t.worker_time } in
    if must_quit w' then at w' left else machine cycle_ms t false w'
advance cycle_ms t w (in_hook h second) = after_machine cycle_ms t second (end_hook h w)
advance cycle_ms t w waiting =
    if t.timed_out then at w (at_head true) else machine cycle_ms t true w
advance cycle_ms t w left = at w left
advance cycle_ms t w threw = at w threw

-- The calls by the controller.
pub data Command : Type 0 where
  calls_run calls_pause calls_resume calls_terminate : Command

unfoldable pub obey : Command → CyclicWorker → CyclicWorker
unfolding run pause resume terminate
obey calls_run w = (run w).1
obey calls_pause w = (pause w).1
obey calls_resume w = (resume w).1
obey calls_terminate w = terminate w

-- The flag of the destructor is set without the mutex.
pub data Step (cycle_ms : ℤ) : Thread → Thread → Type 0 where
  works :
      (w : CyclicWorker) (p : Place) (t : Timing) → Step cycle_ms (at w p) (advance cycle_ms t w p)
  obeys :
      (w : CyclicWorker) (p : Place) (c : Command)
      → has_mutex p ≡ false
      → Step cycle_ms (at w p) (at (obey c w) p)
  quits : (w : CyclicWorker) (p : Place) → Step cycle_ms (at w p) (at (destroy w) p)

pub data Reach (cycle_ms : ℤ) : Thread → Type 0 where
  starts : Reach cycle_ms start
  then_step : (t t' : Thread) → Reach cycle_ms t → Step cycle_ms t t' → Reach cycle_ms t'

-- The steps of the thread alone.
unfoldable pub advance_all : ℤ → List Timing → Thread → Thread
unfolding advance
advance_all cycle_ms [] t = t
advance_all cycle_ms (timing ∷ timings) t =
    advance_all cycle_ms timings (advance cycle_ms timing t.worker t.place)
