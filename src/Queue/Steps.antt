-- ===== src/Queue/Steps.antt =====
-- The steps of a queue with any number of writers and one reader.
use lib_sloppy.Base.{◌≡◌, Bool, true, false, List, [], ◌∷◌, ◌++◌, ok}
use lib_sloppy.Queue.{Kind, Queue, put, wait_for_data, take_front, clear, new_queue}

-- A queue and whether its reader has waited with success and not taken the data yet.
pub record State (T : Type 0) : Type 0 where
  pub queue : Queue T
  pub woken : Bool

pub data Event (T : Type 0) : Type 0 where
  did_put : T → Event T
  did_wait : Event T
  did_time_out : Event T
  did_take : T → Event T
  did_clear : Event T

pub data Step {T : Type 0} (k : Kind) : State T → Event T → State T → Type 0 where
  puts :
      (q : Queue T) (woken : Bool) (x : T)
      → Step k
          (record { queue = q; woken = woken })
          (Event.did_put x)
          (record { queue = put k q x; woken = woken })
  waits :
      (q q' : Queue T)
      → wait_for_data k q ≡ (true, q')
      → Step k
          (record { queue = q; woken = false })
          Event.did_wait
          (record { queue = q'; woken = true })
  times_out :
      (q q' : Queue T)
      → wait_for_data k q ≡ (false, q')
      → Step k
          (record { queue = q; woken = false })
          Event.did_time_out
          (record { queue = q'; woken = false })
  takes :
      (q q' : Queue T) (x : T)
      → take_front q ≡ ok (x, q')
      → Step k
          (record { queue = q; woken = true })
          (Event.did_take x)
          (record { queue = q'; woken = false })
  clears :
      (q : Queue T) (woken : Bool)
      → Step k
          (record { queue = q; woken = woken })
          Event.did_clear
          (record { queue = clear q; woken = woken })

module _ {T : Type 0} where
  abbrev pub start : State T
  start = record { queue = new_queue; woken = false }

-- The runs from the start, the last event first.
pub data Run {T : Type 0} (k : Kind) : List (Event T) → State T → Type 0 where
  starts : Run k [] start
  then_step :
      (events : List (Event T)) (s s' : State T) (e : Event T)
      → Run k events s
      → Step k s e s'
      → Run k (e ∷ events) s'

module _ {T : Type 0} where
  -- What has been put and taken, in order.
  abbrev pub all_put : List (Event T) → List T
  all_put [] = []
  all_put (Event.did_put x ∷ events) = all_put events ++ x ∷ []
  all_put (_ ∷ events) = all_put events

  abbrev pub all_taken : List (Event T) → List T
  all_taken [] = []
  all_taken (Event.did_take x ∷ events) = all_taken events ++ x ∷ []
  all_taken (_ ∷ events) = all_taken events

  abbrev pub has_clear : List (Event T) → Bool
  has_clear [] = false
  has_clear (Event.did_clear ∷ events) = true
  has_clear (_ ∷ events) = has_clear events
