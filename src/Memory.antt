-- ===== src/Memory.antt =====
-- Sloppy/Memory.h: ArrayView<T> and ManagedArray<T>. A view is the list of the elements that it
-- covers: the null pointer of an empty view is the empty list. Which array a view points into
-- (pointer comparison, dangling views) is not modelled; `size_t` is a 64-bit word.
pub mod Arrays
pub mod Slices
pub mod Files
mod Tests
use lib_sloppy.Base.{
  ℕ, zero, suc, ◌+◌, ◌-◌, ◌%◌, ◌^◌, Bool, ◌||◌, List, [], ◌∷◌, Option, none, some, length,
  get_elem?, take, drop, ltb, leb, ◌==◌, if◌then◌else◌, Result, ok, err, Error, invalid_argument,
  out_of_range, undefined_behaviour,
}

-- One more than the largest `size_t`.
abbrev pub size_mod : ℕ
size_mod = 2 ^ 64

module _ {ℓ} {A : Type ℓ} where
  -- A read at an index, outside the array without a meaning.
  abbrev pub deref : List A → ℕ → Result A
  deref v i = elim (get_elem? v i) [ none ↦ err undefined_behaviour | some a ↦ ok a ]

  unfoldable pub elem_at : List A → ℕ → Result A
  elem_at v idx = if leb (length v) idx then err out_of_range else deref v idx

  -- The view of `n` elements from `idx`, without a meaning if it leaves the array.
  abbrev pub window : List A → ℕ → ℕ → Result (List A)
  window v idx n =
      if leb (idx + n) (length v) then ok (take n (drop idx v)) else err undefined_behaviour

  unfoldable pub slice_by_idx : List A → ℕ → ℕ → Result (List A)
  slice_by_idx v first last =
      if ltb last first
      then err invalid_argument
      else if leb (length v) first || leb (length v) last
      then err out_of_range
      else window v first (last - first + 1)

  -- The sum of the test is one of `size_t` values, and wraps.
  unfoldable pub slice_by_count : List A → ℕ → ℕ → Result (List A)
  slice_by_count v first n =
      if leb (length v) first
      then err out_of_range
      else if n == 0
      then ok []
      else if leb (length v) ((first + n - 1) % size_mod)
      then err out_of_range
      else window v first n

  unfoldable pub chop_left : List A → ℕ → Result (List A)
  chop_left v n =
      if n == 0
      then ok v
      else if ltb (length v) n
      then err out_of_range
      else if n == length v
      then ok []
      else ok (drop n v)

  unfoldable pub chop_right : List A → ℕ → Result (List A)
  chop_right v n =
      if n == 0
      then ok v
      else if ltb (length v) n
      then err out_of_range
      else if n == length v
      then ok []
      else ok (take (length v - n) v)

  unfoldable pub first : List A → Result A
  first v = if length v == 0 then err out_of_range else deref v 0

  unfoldable pub last : List A → Result A
  last v = if length v == 0 then err out_of_range else deref v (length v - 1)
