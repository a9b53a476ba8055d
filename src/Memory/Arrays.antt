-- ===== src/Memory/Arrays.antt =====
-- ManagedArray<T>: an address, the elements that stand there, and whether the object disposes of
-- them. The allocator is a parameter: the address that it returns (0 is the null pointer) and the
-- elements that it happens to find in the new block.
pub mod Ownership
use lib_sloppy.Base.{
  ℕ, ◌+◌, ◌%◌, Bool, true, false, not, ◌&&◌, List, [], ◌∷◌, ◌++◌, length, take, drop, ltb, leb,
  ◌==◌, if◌then◌else◌, Result, ok, err, out_of_range, runtime_error, bad_alloc, undefined_behaviour,
}
use lib_sloppy.Memory.{size_mod}

pub record ManagedArray {ℓ} (A : Type ℓ) : Type ℓ where
  pub ptr : ℕ
  pub elems : List A
  pub owning : Bool

-- The addresses that a call disposes of.
abbrev pub Freed : Type 0
Freed = List ℕ

module _ {ℓ} {A : Type ℓ} where
  unfoldable pub overwrite_pointer : ℕ → List A → Bool → ManagedArray A
  overwrite_pointer p es own =
      if p == 0
      then record { ptr = 0; elems = []; owning = false }
      else record { ptr = p; elems = es; owning = own }

  unfoldable pub release_memory : ManagedArray A → Result (ManagedArray A × Freed)
  release_memory m =
      if m.ptr == 0 && length m.elems == 0
      then ok (m, [])
      else if not m.owning
      then err runtime_error
      else if m.ptr == 0
      then ok (m, [])
      else ok (record m { ptr = 0; elems = [] }, m.ptr ∷ [])

  -- The move assignment: the new value of each of the two objects.
  unfoldable pub move_assign :
      ManagedArray A → ManagedArray A → ManagedArray A × ManagedArray A × Freed
  unfolding overwrite_pointer
  move_assign m other = (
    overwrite_pointer other.ptr other.elems other.owning,
    overwrite_pointer 0 [] false,
    (if m.owning && not (m.ptr == 0) then m.ptr ∷ [] else []),
  )

  -- `operator ==`, which assigns to `ptr` in its test: the new value of the left object, and the
  -- answer. The left object keeps its count; at its new address stand the elements of the other
  -- object, and what is behind them, if the count is larger, is left open: here it is as before.
  unfoldable pub equals : ManagedArray A → ManagedArray A → ManagedArray A × Bool
  equals m other = (
    record m {
      ptr = other.ptr;
      elems = take (length m.elems) (other.elems ++ drop (length other.elems) m.elems);
    },
    not (other.ptr == 0) && length m.elems == length other.elems,
  )

  -- What a new block of `n` elements holds after the old ones have been copied to its front.
  abbrev pub copied : ℕ → ManagedArray A → List A → List A
  copied n m fresh =
      take (if ltb (length m.elems) n then length m.elems else n) m.elems
      ++ drop (if ltb (length m.elems) n then length m.elems else n) fresh

  unfoldable pub resize : ManagedArray A → ℕ → ℕ → List A → Result (ManagedArray A × Freed)
  unfolding release_memory overwrite_pointer
  resize m n address fresh =
      if n == length m.elems
      then ok (m, [])
      else if not m.owning
      then err runtime_error
      else if n == 0
      then release_memory m
      else if address == 0
      then err bad_alloc
      else if m.ptr == 0
      then ok (overwrite_pointer address fresh true, [])
      else ok (overwrite_pointer address (copied n m fresh) true, m.ptr ∷ [])

  -- The sum of the test is one of `size_t` values, and wraps; a copy that leaves the array has no
  -- meaning.
  unfoldable pub copy_over : ManagedArray A → List A → ℕ → Result (ManagedArray A)
  copy_over m src i =
      if ltb (length m.elems) ((i + length src) % size_mod)
      then err out_of_range
      else if leb (i + length src) (length m.elems)
      then ok (record m { elems = take i m.elems ++ (src ++ drop (i + length src) m.elems) })
      else err undefined_behaviour
