-- ===== src/Queue/Tests.antt =====
-- A short run of a queue, and the theorems about queues at it.
use lib_sloppy.Base.{
  ℕ, ◌≡◌, refl, true, false, List, [], ◌∷◌, ◌++◌, none, some, ok, err, undefined_behaviour,
}
use lib_sloppy.Queue.{Queue, put, notify, get, wait_for_data, take_front, new_queue}
use lib_sloppy.Queue.Kind.{condition_variable, pipe_synced}
use lib_sloppy.Queue.Steps.{State, Event, Step, Run, all_put, all_taken, start}
use lib_sloppy.Queue.Reader.{first_in_first_out, clear_leaves_tokens}

gets :
    (get {T = ℕ} pipe_synced (put pipe_synced (put pipe_synced new_queue 4) 5)
      ≡ ok (some 4, record { items = 5 ∷ []; tokens = 1 }))
    × (get condition_variable (new_queue {T = ℕ}) ≡ ok (none, new_queue))
unfolding get put notify wait_for_data take_front new_queue
gets = (refl, refl)

abbrev one_in : Queue ℕ
one_in = record { items = 7 ∷ []; tokens = 1 }

put_one : put pipe_synced new_queue 7 ≡ one_in
unfolding put notify new_queue
put_one = refl

abbrev events : List (Event ℕ)
events = Event.did_put 7 ∷ []

Run-one : Run pipe_synced events (record { queue = one_in; woken = false })
unfolding put notify new_queue
Run-one =
    Run.then_step [] start (record { queue = one_in; woken = false }) (Event.did_put 7) Run.starts
      (Step.puts new_queue false 7)

first_in_first_out_example :
    (all_put events ≡ all_taken events ++ 7 ∷ [])
    × (false ≡ true → (x : ℕ) × (q : Queue ℕ) × (take_front one_in ≡ ok (x, q)))
first_in_first_out_example =
    first_in_first_out pipe_synced events (record { queue = one_in; woken = false }) Run-one refl

clear_leaves_tokens_example :
    (s : State ℕ) × Run pipe_synced (Event.did_wait ∷ Event.did_clear ∷ events) s
    × (s.woken ≡ true)
    × (take_front s.queue ≡ err undefined_behaviour)
clear_leaves_tokens_example = clear_leaves_tokens events one_in Run-one refl (λ e. cc)
