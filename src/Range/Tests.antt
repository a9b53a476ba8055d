-- ===== src/Range/Tests.antt =====
-- Ranges of natural numbers, and the theorems about ranges at them.
use lib_sloppy.Base.{
  ℕ, ◌≡◌, ◌⊎◌, refl, Bool, true, false, Option, some, ltb, leb, arith, ok, err, invalid_argument,
}
use lib_sloppy.Range.{
  Relations, AreTotal, RelationToRange, GenericRange, closed_range, is_in_range,
  determine_relation_to_range,
}
use lib_sloppy.Range.Bounds.{IsOrdered, relation_lem}

abbrev numbers : Relations ℕ
numbers = record { lt = ltb; gt = λ a b. ltb b a; le = leb; ge = λ a b. leb b a }

numbers-AreTotal : AreTotal numbers
numbers-AreTotal = record {
  gt-lt = λ a b. refl;
  le-lt = λ a b. ground arith;
  ge-lt = λ a b. ground arith;
}

abbrev two_to_five : GenericRange ℕ
two_to_five = record { start = 2; last = some 5 }

ranges :
    (closed_range numbers 2 5 ≡ ok two_to_five) × (closed_range numbers 5 2 ≡ err invalid_argument)
unfolding closed_range
ranges = (refl, refl)

two_to_five-IsOrdered : IsOrdered numbers two_to_five
unfolding IsOrdered
two_to_five-IsOrdered = λ last q. ground arith

relation_lem_example :
    (ltb 6 2 ≡ true)
      × (determine_relation_to_range numbers two_to_five 6 ≡ RelationToRange.is_before)
      × (is_in_range numbers two_to_five 6 ≡ false)
    ⊎ (ltb 6 2 ≡ false)
      × ((last : ℕ) → some 5 ≡ some last → ltb last 6 ≡ false)
      × (determine_relation_to_range numbers two_to_five 6 ≡ RelationToRange.is_in)
      × (is_in_range numbers two_to_five 6 ≡ true)
    ⊎ (last : ℕ) × (ltb 6 2 ≡ false)
      × (some 5 ≡ some last)
      × (ltb last 6 ≡ true)
      × (determine_relation_to_range numbers two_to_five 6 ≡ RelationToRange.is_after)
      × (is_in_range numbers two_to_five 6 ≡ false)
relation_lem_example = relation_lem numbers two_to_five 6 numbers-AreTotal

-- Numbers and one value that is related to none, itself included.
abbrev with_nan : (ℕ → ℕ → Bool) → Option ℕ → Option ℕ → Bool
with_nan test (some a) (some b) = test a b
with_nan test _ _ = false

abbrev doubles : Relations (Option ℕ)
doubles = record {
  lt = with_nan ltb;
  gt = with_nan (λ a b. ltb b a);
  le = with_nan leb;
  ge = with_nan (λ a b. leb b a);
}
