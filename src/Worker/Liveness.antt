-- ===== src/Worker/Liveness.antt =====
-- What the thread of a worker does in the end, when no further call of the controller comes.
use lib_sloppy.Base.{
  ℕ, ◌-◌, ◌≤◌, ◌≡◌, refl, Bool, true, false, arith, ◌⊎◌, List, [], ◌∷◌, length, ◌∙◌, if◌then◌else◌,
}
use lib_sloppy.Base.Int.{ℤ}
use lib_sloppy.Worker.{CyclicWorker, is, finished, terminate, next_hook, do_state_machine, end_hook}
use lib_sloppy.Worker.Hook.{on_terminate}
use lib_sloppy.Worker.Loop.{
  Place, Timing, Thread, Reach, at, advance, advance_all, machine, starting, at_head, in_worker,
  in_hook, waiting, left, threw,
}
use lib_sloppy.Worker.Invariant.{Good, Reach-Good, advance-Good}

-- The steps that are left until the thread has finished, when this is requested.
abbrev closing : Bool → Place → ℕ
closing is_finished starting = 5
closing is_finished (at_head _) = if is_finished then 1 else 4
closing is_finished in_worker = if is_finished then 1 else 4
closing is_finished (in_hook on_terminate _) = 3
closing is_finished (in_hook _ _) = 6
closing is_finished waiting = if is_finished then 2 else 5
closing is_finished left = 0
closing is_finished threw = 0

abbrev closing_time : Thread → ℕ
closing_time t = closing (is t.worker.cur_state finished) t.place

closes :
    (cycle_ms : ℤ) (t : Timing) (w : CyclicWorker) (p : Place)
    → Good (at w p)
    → w.req_state ≡ finished
    → (closing_time (advance cycle_ms t w p) ≤ closing_time (at w p) - 1)
      × ((advance cycle_ms t w p).worker.req_state ≡ finished)
      × ((advance cycle_ms t w p).worker.force_quit ≡ w.force_quit)
unfolding advance machine do_state_machine next_hook end_hook
closes cycle_ms t w p g e = ground arith

-- The steps that are left until no transition is pending.
abbrev opening : Bool → Place → ℕ
opening false _ = 0
opening true (in_hook _ _) = 1
opening true in_worker = 2
opening true (at_head _) = 3
opening true _ = 4

abbrev opening_time : Thread → ℕ
opening_time t = opening t.worker.is_transition_pending t.place

opens :
    (cycle_ms : ℤ) (t : Timing) (w : CyclicWorker) (p : Place)
    → Good (at w p)
    → w.force_quit ≡ false
    → (opening_time (advance cycle_ms t w p) ≤ opening_time (at w p) - 1)
      × ((advance cycle_ms t w p).worker.force_quit ≡ false)
unfolding advance machine do_state_machine next_hook end_hook
opens cycle_ms t w p g e = ground arith

closes_all :
    (cycle_ms : ℤ) (ts : List Timing) (t : Thread)
    → Good t
    → t.worker.req_state ≡ finished
    → (closing_time (advance_all cycle_ms ts t) ≤ closing_time t - length ts)
      × Good (advance_all cycle_ms ts t)
      × ((advance_all cycle_ms ts t).worker.force_quit ≡ t.worker.force_quit)
unfolding advance_all
closes_all cycle_ms [] t g e = (omega arith, g, refl)
closes_all cycle_ms (x ∷ ts) t g e =
    let (faster, kept, quit) = closes cycle_ms x t.worker t.place g e in
    let (rest, good, quits) =
      closes_all cycle_ms ts (advance cycle_ms x t.worker t.place)
        (advance-Good cycle_ms x t.worker t.place g) kept in
    (omega (arith, faster, rest), good, quits ∙ quit)

closed :
    (t : Thread)
    → Good t
    → t.worker.force_quit ≡ false
    → closing_time t ≤ 0
    → (t.place ≡ left) × (t.worker.cur_state ≡ finished)
closed t g q z = ground arith

opens_all :
    (cycle_ms : ℤ) (ts : List Timing) (t : Thread)
    → Good t
    → t.worker.force_quit ≡ false
    → (opening_time (advance_all cycle_ms ts t) ≤ opening_time t - length ts)
      × Good (advance_all cycle_ms ts t)
      × ((advance_all cycle_ms ts t).worker.force_quit ≡ false)
unfolding advance_all
opens_all cycle_ms [] t g q = (omega arith, g, q)
opens_all cycle_ms (x ∷ ts) t g q =
    let (faster, quit) = opens cycle_ms x t.worker t.place g q in
    let (rest, good, quits) =
      opens_all cycle_ms ts (advance cycle_ms x t.worker t.place)
        (advance-Good cycle_ms x t.worker t.place g) quit in
    (omega (arith, faster, rest), good, quits)

opened :
    (t : Thread)
    → Good t
    → t.worker.force_quit ≡ false
    → opening_time t ≤ 0
    → (t.worker.is_transition_pending ≡ false)
      × ((t.worker.req_state ≡ t.worker.cur_state) ⊎ (t.worker.req_state ≡ finished))
opened t g q z = ground arith

opening_bound : (t : Thread) → opening_time t ≤ 4
opening_bound t = ground arith

closing_bound : (b : Bool) (p : Place) → closing b p ≤ 6
closing_bound b p = ground arith

terminated :
    (w : CyclicWorker) (p : Place)
    → Good (at w p)
    → Good (at (terminate w) p)
      × ((terminate w).req_state ≡ finished)
      × ((terminate w).force_quit ≡ w.force_quit)
unfolding terminate
terminated w p g = ground arith

-- From every state of every run of a worker that is not being destroyed, after four steps of the
-- thread without a call of the controller, however long they take, no transition is pending, so that
-- `waitForStateChange` returns, and the requested state has been reached, or it is that of
-- termination.
pub state_change_lem :
    (cycle_ms : ℤ) (t : Thread) (ts : List Timing)
    → Reach cycle_ms t
    → t.worker.force_quit ≡ false
    → 4 ≤ length ts
    → let t' = advance_all cycle_ms ts t in
      (t'.worker.is_transition_pending ≡ false)
      × ((t'.worker.req_state ≡ t'.worker.cur_state) ⊎ (t'.worker.req_state ≡ finished))
state_change_lem cycle_ms t ts r q n =
    let (time, good, quit) = opens_all cycle_ms ts t (Reach-Good cycle_ms t r) q in
    opened (advance_all cycle_ms ts t) good quit (omega (arith, time, n, opening_bound t))

-- From every state of every run of a worker that is not being destroyed, a call of `terminate` and
-- then six steps of the thread without another call, however long they take, bring the thread out of
-- its loop, in the state of a finished worker.
pub terminate_lem :
    (cycle_ms : ℤ) (w : CyclicWorker) (p : Place) (ts : List Timing)
    → Reach cycle_ms (at w p)
    → w.force_quit ≡ false
    → 6 ≤ length ts
    → let t' = advance_all cycle_ms ts (at (terminate w) p) in
      (t'.place ≡ left) × (t'.worker.cur_state ≡ finished)
terminate_lem cycle_ms w p ts r q n =
    let (good, req, same_quit) = terminated w p (Reach-Good cycle_ms (at w p) r) in
    let (time, good', quit) = closes_all cycle_ms ts (at (terminate w) p) good req in
    let bound = closing_bound (is (terminate w).cur_state finished) p in
    closed (advance_all cycle_ms ts (at (terminate w) p)) good' (quit ∙ same_quit ∙ q)
      (omega (arith, time, n, bound))
