-- ===== src/Config/Checks.antt =====
-- What the checks of bounds accept.
use lib_sloppy.Base.{
  ℕ, ◌≡◌, ◌≢◌, ◌≤◌, ◌⊎◌, ◌∙◌, [], arith, ap, refl, inl, inr, Bool, true, false, not, ◌&&◌, ◌∷◌,
  Option, Bytes, length, ltb, ◌==◌, if◌then◌else◌, Bool-cases, Result, ok, err, ◌>>=◌, All,
}
use lib_sloppy.Base.Int.{ℤ}
use lib_sloppy.Text.Numbers.{
  is_int, stoi, in_int_range, digits_value, IsDigit, is_int-stoi, is_digit, all_of,
}
use lib_sloppy.Config.{
  lt_z, inconsistent, at_least, at_most, check_constraint_int_range, long_enough, short_enough,
  check_constraint_str_len,
}

-- The early returns as one test.
returns_and :
    (a b : Bool) → (if not a then ok false else if not b then ok false else ok true) ≡ ok (a && b)
returns_and true true = refl
returns_and true false = refl
returns_and false b = refl

returns_within :
    (m : Result ℤ) (min_val max_val : Option ℤ)
    → (m >>= λ v.
        (if not (at_least min_val v)
          then ok false
          else if not (at_most max_val v)
          then ok false
          else ok true))
      ≡ (m >>= λ v. ok (at_least min_val v && at_most max_val v))
returns_within (ok v) min_val max_val = returns_and (at_least min_val v) (at_most max_val v)
returns_within (err e) min_val max_val = refl

-- What the check promises: an optional minus sign and digits, at least one.
abbrev pub IsDecimal : ℕ → Type 0
IsDecimal c = (b'0' ≤ c) × (c ≤ b'9')

abbrev pub Writes : Bytes → Bool → Bytes → Type 0
Writes val negative ds = (val ≡ (if negative then b'-' ∷ ds else ds)) × All IsDecimal ds × (ds ≢ [])

all_of-IsDecimal : (ds : Bytes) → All IsDecimal ds → all_of is_digit ds ≡ true
unfolding all_of is_digit
all_of-IsDecimal [] h = refl
all_of-IsDecimal (c ∷ ds) h = ground (arith, h.0, all_of-IsDecimal ds h.1)

digits-IsDecimal : (ds : Bytes) → All IsDigit ds → All IsDecimal ds
unfolding is_digit
digits-IsDecimal [] h = tt
digits-IsDecimal (c ∷ ds) h = ((ground (arith, h.0), ground (arith, h.0)), digits-IsDecimal ds h.1)

signed-is_int :
    (negative : Bool) (ds : Bytes)
    → All IsDecimal ds
    → ds ≢ []
    → is_int (if negative then b'-' ∷ ds else ds) ≡ true
unfolding is_int
signed-is_int negative [] h ne = absurd (ne refl)
signed-is_int true (c ∷ ds) h ne = ground (arith, all_of-IsDecimal (c ∷ ds) h)
signed-is_int false (c ∷ ds) h ne =
    let digits = all_of-IsDecimal (c ∷ ds) h in
    let start : (c == b'-') ≡ false = ground (arith, h.0) in rw (start, digits)

Writes-is_int :
    (val : Bytes) (negative : Bool) (ds : Bytes) → Writes val negative ds → is_int val ≡ true
Writes-is_int val negative ds h = ap is_int h.0 ∙ signed-is_int negative ds h.1 h.2

-- With bounds in order, the check of an integer accepts an optional minus sign and digits, at least
-- one, exactly if the number that they write is within the bounds, and throws out_of_range for a
-- number that is no `int`; it refuses every other string.
pub int_range_lem :
    (val : Bytes) (min_val max_val : Option ℤ)
    → inconsistent lt_z min_val max_val ≡ false
    → ((negative : Bool) × (ds : Bytes) × Writes val negative ds
        × (check_constraint_int_range val min_val max_val ≡ (
            in_int_range negative (digits_value 0 ds) >>= λ v.
            ok (at_least min_val v && at_most max_val v))))
      ⊎ ((negative : Bool) (ds : Bytes) → ¬ Writes val negative ds)
        × (check_constraint_int_range val min_val max_val ≡ ok false)
unfolding check_constraint_int_range
int_range_lem val min_val max_val c = elim (Bool-cases (is_int val)) [
  | inl i ↦
      let (negative, ds, e, digits, some_ds, read) = is_int-stoi val i in
      inl (
        negative,
        ds,
        (e, digits-IsDecimal ds digits, some_ds),
        rw (check_constraint_int_range, c, i)
            (returns_within (stoi val) min_val max_val
              ∙ ap (λ (m : Result ℤ). m >>= λ v. ok (at_least min_val v && at_most max_val v))
                  read),
      )
  | inr i ↦ inr (
    λ negative ds w. (let accepted = Writes-is_int val negative ds w in cc),
    rw (check_constraint_int_range, c, i),
  )
]

-- With limits in order, a string passes the check of its length exactly if it is not empty and as
-- long as the limits say, a limit of 0 being none.
pub str_len_lem :
    (val : Bytes) (min_len max_len : Option ℕ)
    → inconsistent ltb min_len max_len ≡ false
    → check_constraint_str_len val min_len max_len
      ≡ ok (not (length val == 0) && (long_enough min_len val && short_enough max_len val))
unfolding check_constraint_str_len
str_len_lem val min_len max_len c = elim (Bool-cases (length val == 0)) [
  | inl e ↦ rw (c, e)
  | inr e ↦ rw (c, e) (returns_and (long_enough min_len val) (short_enough max_len val))
]
