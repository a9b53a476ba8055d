-- ===== src/Memory/Slices.antt =====
-- What the slices and the chops of ArrayView give.
use lib_sloppy.Base.{
  ℕ, zero, suc, ◌-◌, ◌≤◌, ◌<◌, ◌≡◌, refl, sym, ap, List, [], ◌∷◌, ◌++◌, arith, length, take, drop,
  drop_all, take_all, take-append, drop-append, length-append, ok, err, out_of_range,
}
use lib_sloppy.Memory.{size_mod, slice_by_count, chop_left, chop_right}

module _ {A : Type 0} where
  -- The special cases of no and of all elements do what the general case does.
  pub chop_left-drop : (v : List A) (n : ℕ) → n ≤ length v → chop_left v n ≡ ok (drop n v)
  unfolding chop_left
  chop_left-drop v zero h = refl
  chop_left-drop v (suc n) h = ground (arith, drop_all (suc n) v)

  pub chop_left_refused : (v : List A) (n : ℕ) → length v < n → chop_left v n ≡ err out_of_range
  unfolding chop_left
  chop_left_refused v n h = ground arith

  -- Chopping the first of two parts leaves the second.
  pub chop_left-append : (u v : List A) → chop_left (u ++ v) (length u) ≡ ok v
  chop_left-append u v =
      rw (chop_left-drop (u ++ v) (length u) (omega (arith, length-append u v)), drop-append u v)

  pub chop_right-take :
      (v : List A) (n : ℕ) → n ≤ length v → chop_right v n ≡ ok (take (length v - n) v)
  unfolding chop_right
  chop_right-take v zero h =
      let e : length v - 0 ≡ length v = omega arith in
      rw e (ap ok (sym (take_all (length v) v (omega arith))))
  chop_right-take v (suc n) h = ground arith

  -- The slice of the first of two parts, if there is anything to slice.
  pub slice_by_count-append :
      (u v : List A) (n : ℕ)
      → length u ≡ n
      → n < size_mod
      → 0 < length (u ++ v)
      → slice_by_count (u ++ v) 0 n ≡ ok u
  unfolding slice_by_count
  slice_by_count-append [] v n e h p = ground arith
  slice_by_count-append (x ∷ u) v n e h p = ground (arith, take-append (x ∷ u) v, length-append u v)
