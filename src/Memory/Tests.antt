-- ===== src/Memory/Tests.antt =====
-- Small arrays, and the theorems about arrays at them.
use lib_sloppy.Base.{ℕ, ◌≡◌, refl, true, [], ◌∷◌, arith, ok, err, Bytes, undefined_behaviour}
use lib_sloppy.Memory.Files.{get_string}
use lib_sloppy.Memory.Files.Bounds.{get_string_lem}
use lib_sloppy.Memory.{slice_by_idx, slice_by_count, chop_right}
use lib_sloppy.Memory.Arrays.{ManagedArray, move_assign, equals, copy_over}
use lib_sloppy.Memory.Arrays.Ownership.{
  IsValid, Owns, move_assign_hands_over, copy_over_wraps, equals_shares_block,
}

slices :
    (slice_by_idx {A = ℕ} (5 ∷ 6 ∷ 7 ∷ []) 1 2 ≡ ok (6 ∷ 7 ∷ []))
    × (slice_by_count {A = ℕ} (5 ∷ 6 ∷ 7 ∷ []) 1 2 ≡ ok (6 ∷ 7 ∷ []))
    × (chop_right {A = ℕ} (5 ∷ 6 ∷ 7 ∷ []) 2 ≡ ok (5 ∷ []))
unfolding slice_by_idx slice_by_count chop_right
slices = (refl, refl, refl)

abbrev pair : ManagedArray ℕ
pair = record { ptr = 64; elems = 5 ∷ 6 ∷ []; owning = true }

abbrev triple : ManagedArray ℕ
triple = record { ptr = 96; elems = 7 ∷ 8 ∷ 9 ∷ []; owning = true }

triple-IsValid : IsValid triple
triple-IsValid = record { null_empty = λ e. cc; empty_null = λ e. cc }

move_assign_hands_over_example : (move_assign pair triple).0 ≡ triple
move_assign_hands_over_example = (move_assign_hands_over pair triple triple-IsValid (λ e. cc)).0

copy_over_wraps_example :
    copy_over triple (1 ∷ 2 ∷ []) 18446744073709551615 ≡ err undefined_behaviour
copy_over_wraps_example =
    copy_over_wraps triple (1 ∷ 2 ∷ []) 18446744073709551615 (omega arith) (omega arith)
      (omega arith) (omega arith)

equals_shares_block_example : Owns (equals pair triple).0 96
equals_shares_block_example =
    (equals_shares_block pair triple 64 96 (refl, refl, λ e. omega arith)
      (refl, refl, λ e. omega arith)).0

-- A file with a zero byte in it.
abbrev file : Bytes
file = 104 ∷ 105 ∷ 0 ∷ 33 ∷ []

get_string_lem_example : get_string file 1 ≡ ok (105 ∷ 0 ∷ 33 ∷ [])
get_string_lem_example = get_string_lem file 1 105 (omega arith) refl
