-- ===== src/Queue.antt =====
-- ThreadSafeQueue.h: AbstractThreadSafeQueue with its two implementations, one that wakes the reader
-- by a condition variable and one that does so by tokens in a pipe. What a thread does while it has
-- the mutex is one function. The reader has the mutex when it takes data, but not from the end of
-- its waiting on, so that waiting and taking are two functions. Writing a token into a full pipe
-- blocks until the reader has read one, so that no token is lost.
pub mod Steps
pub mod Fifo
pub mod Reader
mod Tests
use lib_sloppy.Base.Int.{ℤ, to_int}
use lib_sloppy.Base.{
  ℕ, zero, suc, ◌+◌, Bool, true, false, if◌then◌else◌, not, List, [], ◌∷◌, ◌++◌, Option, none, some,
  length, ◌==◌, Result, ok, err, ◌>>=◌, undefined_behaviour, bad_optional_access,
}

pub data Kind : Type 0 where
  condition_variable pipe_synced : Kind

-- The deque, and the bytes in the pipe.
pub record Queue (T : Type 0) : Type 0 where
  pub items : List T
  pub tokens : ℕ

module _ {T : Type 0} where
  unfoldable pub notify : Kind → Queue T → Queue T
  notify condition_variable q = q
  notify pipe_synced q = record q { tokens = q.tokens + 1 }

  unfoldable pub put : Kind → Queue T → T → Queue T
  unfolding notify
  put k q in_data = notify k (record q { items = q.items ++ in_data ∷ [] })

  -- What waiting ends with: whether there are data, within the time or, without a limit, at all.
  abbrev pub wait_on_condition : Queue T → Bool × Queue T
  wait_on_condition q = (not (length q.items == 0), q)

  abbrev pub wait_for_token : Queue T → Bool × Queue T
  wait_for_token q = elim q.tokens [ zero ↦ (false, q) | suc n ↦ (true, record q { tokens = n }) ]

  unfoldable pub wait_for_data : Kind → Queue T → Bool × Queue T
  wait_for_data condition_variable q = wait_on_condition q
  wait_for_data pipe_synced q = wait_for_token q

  -- `front` and `pop_front`, which an empty deque gives no meaning.
  unfoldable pub take_front : Queue T → Result (T × Queue T)
  take_front q = elim q.items [
    | [] ↦ err undefined_behaviour
    | x ∷ xs ↦ ok (x, record q { items = xs })
  ]

  -- `get` with a time limit, when no other thread comes between.
  unfoldable pub get : Kind → Queue T → Result (Option T × Queue T)
  unfolding wait_for_data take_front
  get k q =
      let waited = wait_for_data k q in
      if waited.0
      then (take_front waited.1 >>= λ taken. ok (some taken.0, taken.1))
      else ok (none, waited.1)

  -- The result is of type `int`.
  unfoldable pub size : Queue T → ℤ
  unfolding to_int
  size q = to_int (length q.items)

  unfoldable pub empty : Queue T → Bool
  empty q = length q.items == 0

  unfoldable pub has_data : Queue T → Bool
  has_data q = not (length q.items == 0)

  unfoldable pub clear : Queue T → Queue T
  clear q = record q { items = [] }

  unfoldable pub new_queue : Queue T
  new_queue = record { items = []; tokens = 0 }
