-- ===== src/Queue/Reader.antt =====
-- What the reader of a queue gets.
use lib_sloppy.Base.{
  ℕ, suc, ◌+◌, ◌≡◌, ◌≢◌, refl, sym, ap, ◌∙◌, Bool, true, false, List, [], ◌∷◌, ◌++◌, length,
  append_assoc, ok, err, undefined_behaviour, arith, if◌then◌else◌, inl, inr,
}
use lib_sloppy.Queue.{Kind, Queue, wait_for_data, take_front, clear, new_queue}
use lib_sloppy.Queue.Kind.{condition_variable, pipe_synced}
use lib_sloppy.Queue.Steps.{State, Event, Step, Run, all_put, all_taken, has_clear, start}
use lib_sloppy.Queue.Fifo.{
  IsBacked, put-IsBacked, items-put, items-wait_for_data, tokens-wait, waits-nonempty, take_some,
  take_none, take_front-some, list-cases,
}

start-IsBacked : (T : Type 0) (k : Kind) → IsBacked k (start {T = T})
unfolding IsBacked new_queue
start-IsBacked T condition_variable = λ w z. cc
start-IsBacked T pipe_synced = refl

module _ {T : Type 0} where
  record Good (k : Kind) (events : List (Event T)) (s : State T) : Type 0 where
    order : all_put events ≡ all_taken events ++ s.queue.items
    backed : IsBacked k s

  waited : (k : Kind) (q q' : Queue T) (b : Bool) → wait_for_data k q ≡ (b, q') → q.items ≡ q'.items
  waited k q q' b e = sym (items-wait_for_data k q) ∙ ap (λ (p : Bool × Queue T). p.1.items) e

  wait-IsBacked :
      (k : Kind) (q q' : Queue T)
      → wait_for_data k q ≡ (true, q')
      → IsBacked k (record { queue = q; woken = false })
      → IsBacked k (record { queue = q'; woken = true })
  unfolding IsBacked
  wait-IsBacked condition_variable q q' e h = λ w z.
      waits-nonempty q (ap (λ (p : Bool × Queue T). p.0) e)
        (ap (λ (xs : List T). length xs) (waited condition_variable q q' true e) ∙ z)
  wait-IsBacked pipe_synced q q' e h = omega (
    arith,
    tokens-wait q,
    ap (λ (p : Bool × Queue T). p.1.tokens + (if p.0 then 1 else 0)) e,
    ap (λ (xs : List T). length xs) (waited pipe_synced q q' true e),
    h,
  )

  time_out-IsBacked :
      (k : Kind) (q q' : Queue T)
      → wait_for_data k q ≡ (false, q')
      → IsBacked k (record { queue = q; woken = false })
      → IsBacked k (record { queue = q'; woken = false })
  unfolding IsBacked
  time_out-IsBacked condition_variable q q' e h = λ w z. cc
  time_out-IsBacked pipe_synced q q' e h = omega (
    arith,
    tokens-wait q,
    ap (λ (p : Bool × Queue T). p.1.tokens + (if p.0 then 1 else 0)) e,
    ap (λ (xs : List T). length xs) (waited pipe_synced q q' false e),
    h,
  )

  take-IsBacked :
      (k : Kind) (q q' : Queue T) (x : T)
      → take_front q ≡ ok (x, q')
      → IsBacked k (record { queue = q; woken = true })
      → IsBacked k (record { queue = q'; woken = false })
  unfolding IsBacked
  take-IsBacked condition_variable q q' x e h = λ w z. cc
  take-IsBacked pipe_synced q q' x e h =
      let t = take_front-some q q' x e in omega (arith, ap length t.0, t.1, h)

  Step-Good :
      (k : Kind) (events : List (Event T)) (s s' : State T) (e : Event T)
      → Step k s e s'
      → has_clear (e ∷ events) ≡ false
      → Good k events s
      → Good k (e ∷ events) s'
  Step-Good k events s s' e (Step.puts q woken x) n g = record {
    order =
        ap (λ (xs : List T). xs ++ x ∷ []) g.order
        ∙ append_assoc (all_taken events) q.items (x ∷ [])
        ∙ ap (λ (xs : List T). all_taken events ++ xs) (sym (items-put k q x));
    backed = put-IsBacked k q woken x g.backed;
  }
  Step-Good k events s s' e (Step.waits q q' w) n g = record {
    order = g.order ∙ ap (λ (xs : List T). all_taken events ++ xs) (waited k q q' true w);
    backed = wait-IsBacked k q q' w g.backed;
  }
  Step-Good k events s s' e (Step.times_out q q' w) n g = record {
    order = g.order ∙ ap (λ (xs : List T). all_taken events ++ xs) (waited k q q' false w);
    backed = time_out-IsBacked k q q' w g.backed;
  }
  Step-Good k events s s' e (Step.takes q q' x t) n g = record {
    order =
        g.order
        ∙ ap (λ (xs : List T). all_taken events ++ xs) (take_front-some q q' x t).0
        ∙ sym (append_assoc (all_taken events) (x ∷ []) q'.items);
    backed = take-IsBacked k q q' x t g.backed;
  }
  Step-Good k events s s' e (Step.clears q woken) n g = cc

  start_empty : [] ≡ (new_queue {T = T}).items
  unfolding new_queue
  start_empty = refl

  no_clear_before :
      (e : Event T) (events : List (Event T))
      → has_clear (e ∷ events) ≡ false
      → has_clear events ≡ false
  no_clear_before (Event.did_put x) events n = n
  no_clear_before Event.did_wait events n = n
  no_clear_before Event.did_time_out events n = n
  no_clear_before (Event.did_take x) events n = n
  no_clear_before Event.did_clear events n = cc

  Run-Good :
      (k : Kind) (events : List (Event T)) (s : State T)
      → Run k events s
      → has_clear events ≡ false
      → Good k events s
  Run-Good k events s (Run.starts) n = record { order = start_empty; backed = start-IsBacked T k }
  Run-Good k events s (Run.then_step before r r' e run step) n =
      Step-Good k before r r' e step n (Run-Good k before r run (no_clear_before e before n))

  woken_nonempty :
      (k : Kind) (s : State T) → IsBacked k s → s.woken ≡ true → length s.queue.items ≢ 0
  unfolding IsBacked
  woken_nonempty condition_variable s h w = h w
  woken_nonempty pipe_synced s h w = λ z. ground (arith, h, w, z)

  -- In every run without a clear, whatever the writers and the reader do in whichever order: what
  -- has been put is what has been taken and then what is in the queue, in order; and a reader whose
  -- wait has succeeded finds an element to take.
  pub first_in_first_out :
      (k : Kind) (events : List (Event T)) (s : State T)
      → Run k events s
      → has_clear events ≡ false
      → (all_put events ≡ all_taken events ++ s.queue.items)
        × (s.woken ≡ true → (x : T) × (q : Queue T) × (take_front s.queue ≡ ok (x, q)))
  first_in_first_out k events s run n =
      let g = Run-Good k events s run n in
      (
        g.order,
        λ w. elim (list-cases s.queue.items) [
          | inl e ↦ absurd (woken_nonempty k s g.backed w (ap (λ (xs : List T). length xs) e))
          | inr (x, rest, e) ↦ (x, record s.queue { items = rest }, take_some s.queue x rest e)
        ],
      )

  wait_token :
      (q : Queue T) (n : ℕ)
      → q.tokens ≡ suc n
      → wait_for_data pipe_synced q ≡ (true, record q { tokens = n })
  unfolding wait_for_data
  wait_token q n e = rw (wait_for_data, e)

  token_count :
      (q : Queue T)
      → IsBacked pipe_synced (record { queue = q; woken = false })
      → q.tokens ≡ length q.items
  unfolding IsBacked
  token_count q h = omega (arith, h)

  -- With a pipe, a clear leaves the tokens of the elements that it removes: after any run that has
  -- left an element in the queue and the reader not waiting, a clear and a wait succeed, and the
  -- reader then takes from an empty queue.
  pub clear_leaves_tokens :
      (events : List (Event T)) (q : Queue T)
      → Run pipe_synced events (record { queue = q; woken = false })
      → has_clear events ≡ false
      → q.items ≢ []
      → (s : State T) × Run pipe_synced (Event.did_wait ∷ Event.did_clear ∷ events) s
        × (s.woken ≡ true)
        × (take_front s.queue ≡ err undefined_behaviour)
  unfolding clear
  clear_leaves_tokens events q run n ne =
      let g = Run-Good pipe_synced events (record { queue = q; woken = false }) run n in
      elim (list-cases q.items) [
        | inl e ↦ absurd (ne e)
        | inr (x, rest, e) ↦
            let m = length rest in
            let tokens : q.tokens ≡ suc m =
              token_count q g.backed ∙ ap (λ (xs : List T). length xs) e in
            let cleared : State T = record { queue = clear q; woken = false } in
            let after : Queue T = record { items = []; tokens = m } in
            (
              record { queue = after; woken = true },
              Run.then_step (Event.did_clear ∷ events) cleared _ Event.did_wait
                  (Run.then_step events _ cleared Event.did_clear run (Step.clears q false))
                  (Step.waits (clear q) after (wait_token (clear q) m tokens)),
              refl,
              take_none after refl,
            )
      ]
