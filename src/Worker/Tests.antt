-- ===== src/Worker/Tests.antt =====
-- Runs of a worker's thread, and the theorems at concrete workers.
use lib_sloppy.Base.{◌≡◌, ◌≢◌, refl, true, false, arith, List, [], ◌∷◌, ◌⊎◌, All}
use lib_sloppy.Base.Int.{ℤ, pos}
use lib_sloppy.Worker.{
  CyclicWorker, request, initialized, preparing, running, suspended, finished, new_worker, run,
  pause, terminate, next_hook, do_state_machine,
}
use lib_sloppy.Worker.Hook.{on_first_run, on_terminate}
use lib_sloppy.Worker.Stats.{new_stats, update}
use lib_sloppy.Worker.Loop.{
  Timing, Reach, Step, at, start, advance, advance_all, machine, starting, at_head, in_worker,
  in_hook, waiting, left, starts, then_step, works, obeys, obey, calls_run, calls_pause,
}
use lib_sloppy.Worker.Invariant.{Good, Reach-Good}
use lib_sloppy.Worker.Transitions.{IsTransition, transition_lem}
use lib_sloppy.Worker.Liveness.{state_change_lem, terminate_lem}
use lib_sloppy.Worker.Counts.{update_all, IsBetween, IsOneOf, stats_lem}
use lib_sloppy.Worker.Faults.{late, terminate_lost, worker_before_first_run, mutex_kept}

abbrev quick : Timing
quick = record { worker_time = pos 2; elapsed = 3; timed_out = false }

abbrev slow : Timing
slow = record { worker_time = pos 2; elapsed = 3; timed_out = true }

abbrev cycle : ℤ
cycle = pos 10

-- A new worker waits for its first call; then `run` is called.
abbrev asked : CyclicWorker
asked = request running new_worker

abbrev in_first_run : CyclicWorker
in_first_run = record asked { cur_state = preparing }

Reach-waiting : Reach cycle (at new_worker waiting)
unfolding start new_worker advance machine do_state_machine next_hook
Reach-waiting =
    then_step _ _ (then_step _ _ starts (works new_worker starting quick))
      (works new_worker (at_head true) quick)

Reach-asked : Reach cycle (at asked waiting)
unfolding obey run new_worker
Reach-asked = then_step _ _ Reach-waiting (obeys new_worker waiting calls_run refl)

-- The notification ends the waiting.
Reach-hook : Reach cycle (at in_first_run (in_hook on_first_run true))
unfolding advance machine do_state_machine next_hook new_worker
Reach-hook = then_step _ _ Reach-asked (works asked waiting quick)

-- The waiting had ended by its limit: the hook is called by the next cycle, after the worker.
Reach-late_hook :
    Reach cycle
      (at (record in_first_run { stats = update new_stats (pos 2) }) (in_hook on_first_run false))
unfolding advance machine do_state_machine next_hook new_worker
Reach-late_hook =
    let woken : Reach cycle (at asked (at_head true)) =
      then_step _ _ Reach-asked (works asked waiting slow) in
    let entered : Reach cycle (at asked in_worker) =
      then_step _ _ woken (works asked (at_head true) quick) in
    then_step _ _ entered (works asked in_worker quick)

pause_refused : pause in_first_run ≡ (false, in_first_run)
unfolding pause new_worker
pause_refused = refl

Reach-Good_example : Good (at in_first_run (in_hook on_first_run true))
Reach-Good_example = Reach-Good cycle (at in_first_run (in_hook on_first_run true)) Reach-hook

transition_lem_example :
    (in_first_run.cur_state ≡ asked.cur_state) ⊎ IsTransition asked.cur_state in_first_run.cur_state
unfolding advance machine do_state_machine next_hook new_worker
transition_lem_example =
    transition_lem cycle (at asked waiting) (at in_first_run (in_hook on_first_run true))
      Reach-asked (works asked waiting quick)

abbrev six_steps : List Timing
six_steps = quick ∷ slow ∷ quick ∷ slow ∷ quick ∷ quick ∷ []

state_change_lem_example :
    let t' = advance_all cycle six_steps (at asked waiting) in
    (t'.worker.is_transition_pending ≡ false)
    × ((t'.worker.req_state ≡ t'.worker.cur_state) ⊎ (t'.worker.req_state ≡ finished))
unfolding new_worker
state_change_lem_example =
    state_change_lem cycle (at asked waiting) six_steps Reach-asked refl (omega arith)

terminate_lem_example :
    let t' = advance_all cycle six_steps (at (terminate asked) waiting) in
    (t'.place ≡ left) × (t'.worker.cur_state ≡ finished)
unfolding new_worker
terminate_lem_example = terminate_lem cycle asked waiting six_steps Reach-asked refl (omega arith)

abbrev late_hook : CyclicWorker
late_hook = record in_first_run { stats = update new_stats (pos 2) }

first_run_not_terminate : on_first_run ≢ on_terminate
first_run_not_terminate = λ e. cc

terminate_lost_example :
    let t' = advance cycle quick (terminate late_hook) (in_hook on_first_run false) in
    (t'.place ≡ waiting)
    × (t'.worker.is_transition_pending ≡ false)
    × ((obey calls_pause t'.worker).req_state ≡ suspended)
terminate_lost_example =
    terminate_lost cycle late_hook on_first_run quick Reach-late_hook first_run_not_terminate
      (omega arith)

worker_before_first_run_example :
    let w' = obey calls_run new_worker in
    Step cycle (at new_worker waiting) (at w' waiting)
    × (advance cycle (late quick) w' waiting ≡ at w' (at_head true))
    × (advance cycle quick w' (at_head true) ≡ at w' in_worker)
    × (w'.cur_state ≡ initialized)
    × (w'.req_state ≡ running)
    × Reach cycle (at w' in_worker)
unfolding new_worker
worker_before_first_run_example =
    worker_before_first_run cycle new_worker quick Reach-waiting refl refl refl

not_running : initialized ≢ running
not_running = λ e. cc

not_finished : initialized ≢ finished
not_finished = λ e. cc

mutex_kept_example :
    advance_all (pos 0) six_steps (at new_worker (at_head true)) ≡ at new_worker (at_head true)
unfolding new_worker
mutex_kept_example = mutex_kept (pos 0) new_worker six_steps refl refl not_running not_finished refl

stats_lem_example :
    let s = update_all new_stats (pos 5 ∷ pos 3 ∷ []) in
    (s.n_calls ≡ 2)
    × (s.total_runtime_ms ≡ 8)
    × All (λ (t : ℤ). IsBetween s.min_worker_time_ms s.max_worker_time_ms t) (pos 5 ∷ pos 3 ∷ [])
    × IsOneOf (pos 2147483647 ∷ pos 5 ∷ pos 3 ∷ []) s.min_worker_time_ms
    × IsOneOf (pos 0 ∷ pos 5 ∷ pos 3 ∷ []) s.max_worker_time_ms
stats_lem_example = stats_lem (pos 5 ∷ pos 3 ∷ [])
