-- ===== src/Config.antt =====
-- ConfigFileParser/ConstraintChecker.cpp: the checks of a value against bounds, without the error
-- messages, which a caller can ask for.
pub mod Checks
pub mod Parser
pub mod Lines
pub mod Reading
pub mod Constraints
pub mod Agreement
mod Tests
use lib_sloppy.Base.{
  ℕ, zero, suc, ◌≡◌, Bool, true, false, not, ◌&&◌, ◌||◌, Option, none, some, Bytes, length, ltb,
  leb, ◌==◌, if◌then◌else◌, Result, ok, err, ◌>>=◌, range_error,
}
use lib_sloppy.Base.Int.{ℤ, pos, negsuc}
use lib_sloppy.Text.Numbers.{is_int, stoi}

-- `<` on `int`.
abbrev pub lt_z : ℤ → ℤ → Bool
lt_z (pos a) (pos b) = ltb a b
lt_z (pos a) (negsuc b) = false
lt_z (negsuc a) (pos b) = true
lt_z (negsuc a) (negsuc b) = ltb b a

abbrev pub inconsistent {ℓ} : {A : Type ℓ} → (A → A → Bool) → Option A → Option A → Bool
inconsistent lt (some lowest) (some highest) = lt highest lowest
inconsistent lt _ _ = false

abbrev pub at_least : Option ℤ → ℤ → Bool
at_least none v = true
at_least (some lowest) v = not (lt_z v lowest)

abbrev pub at_most : Option ℤ → ℤ → Bool
at_most none v = true
at_most (some highest) v = not (lt_z highest v)

unfoldable pub check_constraint_int_range : Bytes → Option ℤ → Option ℤ → Result Bool
unfolding is_int stoi
check_constraint_int_range val min_val max_val =
    if inconsistent lt_z min_val max_val
    then err range_error
    else if not (is_int val)
    then ok false
    else (stoi val >>= λ v.
        (if not (at_least min_val v)
          then ok false
          else if not (at_most max_val v)
          then ok false
          else ok true))

-- A limit of 0 is none.
abbrev pub long_enough : Option ℕ → Bytes → Bool
long_enough none val = true
long_enough (some n) val = if ltb 0 n then leb n (length val) else true

abbrev pub short_enough : Option ℕ → Bytes → Bool
short_enough none val = true
short_enough (some n) val = if ltb 0 n then leb (length val) n else true

unfoldable pub check_constraint_str_len : Bytes → Option ℕ → Option ℕ → Result Bool
check_constraint_str_len val min_len max_len =
    if inconsistent ltb min_len max_len
    then err range_error
    else if length val == 0
    then ok false
    else if not (long_enough min_len val)
    then ok false
    else if not (short_enough max_len val)
    then ok false
    else ok true

-- The checks of a value that may be missing.
abbrev pub if_exists : (Bytes → Result Bool) → Option Bytes → Result Bool
if_exists check none = ok false
if_exists check (some val) = check val
