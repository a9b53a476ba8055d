-- ===== src/Memory/Arrays/Ownership.antt =====
-- Who disposes of a block, and what it holds, after the operations of ManagedArray.
use lib_sloppy.Base.{
  ℕ, ◌+◌, ◌≤◌, ◌<◌, ◌≡◌, ◌≢◌, ◌↔◌, refl, ◌⊎◌, true, false, List, [], ◌∷◌, ◌++◌, arith, ltb,
  if◌then◌else◌, length, take, drop, length-take, length-drop, length-append, take-append_take, ok,
  err, out_of_range, undefined_behaviour,
}
use lib_sloppy.Memory.{size_mod}
use lib_sloppy.Memory.Arrays.{ManagedArray, Freed, move_assign, equals, resize, copied, copy_over}

module _ {A : Type 0} where
  -- An array has an address exactly when it has elements.
  pub record IsValid (m : ManagedArray A) : Type 0 where
    pub null_empty : m.ptr ≡ 0 → m.elems ≡ []
    pub empty_null : m.elems ≡ [] → m.ptr ≡ 0

  abbrev pub Owns : ManagedArray A → ℕ → Type 0
  Owns m p = (m.ptr ≡ p) × (m.owning ≡ true) × (p ≢ 0)

  -- A move from a consistent array, which owns nothing if it has no address, hands the block over:
  -- the target is as the source was, the source is left with nothing, and exactly the block that
  -- the target owned before is disposed of.
  pub move_assign_hands_over :
      (m other : ManagedArray A)
      → IsValid other
      → (other.ptr ≡ 0 → other.owning ≡ false)
      → let (a, b, freed) = move_assign m other in
        (a ≡ other)
        × (b ≡ record { ptr = 0; elems = []; owning = false })
        × ((p : ℕ) → Owns m p ↔ (freed ≡ p ∷ []))
  unfolding move_assign
  move_assign_hands_over m other v w =
      (ground arith, refl, λ p. (λ h. ground arith, λ h. ground arith))

  length-copied :
      (m : ManagedArray A) (n : ℕ) (fresh : List A)
      → length fresh ≡ n
      → length (copied n m fresh) ≡ n
  length-copied m n fresh f = ground (
    arith,
    length-append (take (length m.elems) m.elems) (drop (length m.elems) fresh),
    length-append (take n m.elems) (drop n fresh),
    length-take (length m.elems) m.elems,
    length-take n m.elems,
    length-drop (length m.elems) fresh,
    length-drop n fresh,
  )

  -- The smaller of the old and the new number of elements.
  abbrev pub kept : ℕ → ManagedArray A → ℕ
  kept n m = if ltb (length m.elems) n then length m.elems else n

  take-copied :
      (m : ManagedArray A) (n : ℕ) (fresh : List A)
      → take (kept n m) (copied n m fresh) ≡ take (kept n m) m.elems
  take-copied m n fresh = take-append_take (kept n m) m.elems _ (ground arith)

  -- A successful `resize` of a consistent array, where the allocator's block has the elements that
  -- were asked for, gives exactly `n` elements, keeps those of the old ones that fit, in place, and
  -- leaves the array consistent.
  pub resize_keeps :
      (m : ManagedArray A) (n address : ℕ) (fresh : List A) {r : ManagedArray A × Freed}
      → IsValid m
      → length fresh ≡ n
      → resize m n address fresh ≡ ok r
      → (length r.0.elems ≡ n) × (take (kept n m) r.0.elems ≡ take (kept n m) m.elems) × IsValid r.0
  unfolding resize
  resize_keeps m n address fresh v f e = (
    ground (arith, length-copied m n fresh f),
    ground (arith, take-copied m n fresh),
    record {
      null_empty = ground (arith, length-copied m n fresh f);
      empty_null = ground (arith, length-copied m n fresh f);
    },
  )

  -- A copy that the check lets through, with no wrap of the sum, overwrites exactly the elements
  -- from `i` on; one that is too long is refused.
  pub copy_over_lem :
      (m : ManagedArray A) (src : List A) (i : ℕ)
      → i + length src < size_mod
      → ((i + length src ≤ length m.elems)
          × (copy_over m src i
              ≡ ok (record m { elems = take i m.elems ++ (src ++ drop (i + length src) m.elems) })))
        ⊎ ((length m.elems < i + length src) × (copy_over m src i ≡ err out_of_range))
  unfolding copy_over
  copy_over_lem m src i h = ground arith

  -- Where the sum of the index and the number of elements wraps round, the check of `copyOver` lets
  -- a copy of no more elements than the array has through, and it leaves the array.
  pub copy_over_wraps :
      (m : ManagedArray A) (src : List A) (i : ℕ)
      → i < size_mod
      → length src ≤ length m.elems
      → length m.elems < size_mod
      → size_mod ≤ i + length src
      → copy_over m src i ≡ err undefined_behaviour
  unfolding copy_over
  copy_over_wraps m src i h k c w = ground arith

  -- `operator ==` is no comparison: of two arrays that own their blocks both own the block of the
  -- right one after it, and the left one owns its former block no more, if that was another.
  pub equals_shares_block :
      (m other : ManagedArray A) (p q : ℕ)
      → Owns m p
      → Owns other q
      → Owns (equals m other).0 q × Owns other q × (p ≢ q → ¬ Owns (equals m other).0 p)
  unfolding equals
  equals_shares_block m other p q h k = (ground arith, k, λ d o. ground arith)
