-- ===== src/Config/Constraints.antt =====
-- ConfigFileParser/ConstraintChecker.cpp: the constraints of values, and their checks for the values
-- of a parser (ConfigFileParser.cpp). What the file system and the libraries of dates and time zones
-- say is a parameter.
use lib_sloppy.Base.{
  ℕ, Bool, true, false, not, ◌&&◌, ◌||◌, List, [], ◌∷◌, Option, none, some, Bytes, length, ltb, leb,
  ◌==◌, same, if◌then◌else◌, Result, ok, err, ◌>>=◌, invalid_argument, range_error,
  bad_optional_access,
}
use lib_sloppy.Base.Int.{ℤ}
use lib_sloppy.Text.Numbers.{is_int, is_double, is_digit, all_of, stoi}
use lib_sloppy.Text.Case.{to_lower}
use lib_sloppy.Config.{lt_z, inconsistent, at_least, at_most, long_enough, short_enough}
use lib_sloppy.Config.Parser.{Content, default_section_name, get_value, get_value_as_int, cut_at}

pub data ValueConstraint : Type 0 where
  exist not_empty alnum alpha digit numeric integer bool : ValueConstraint
  file directory standard_timezone iso_date : ValueConstraint

pub record Environment : Type 0 where
  pub is_regular_file : Bytes → Bool
  pub is_directory : Bytes → Bool
  pub is_zone : Bytes → Bool
  pub is_date : ℤ → ℤ → ℤ → Bool

-- The classes of the regular expressions.
abbrev pub is_alpha : ℕ → Bool
is_alpha c = (leb b'a' c && leb c b'z') || (leb b'A' c && leb c b'Z')

abbrev pub is_alnum : ℕ → Bool
is_alnum c = is_alpha c || is_digit c

-- The texts of truth values.
abbrev pub on_words : List Bytes
on_words =
    (b'1' ∷ [])
    ∷ (b't' ∷ b'r' ∷ b'u' ∷ b'e' ∷ [])
    ∷ (b'o' ∷ b'n' ∷ [])
    ∷ (b'y' ∷ b'e' ∷ b's' ∷ [])
    ∷ []

abbrev pub off_words : List Bytes
off_words =
    (b'0' ∷ [])
    ∷ (b'f' ∷ b'a' ∷ b'l' ∷ b's' ∷ b'e' ∷ [])
    ∷ (b'o' ∷ b'f' ∷ b'f' ∷ [])
    ∷ (b'n' ∷ b'o' ∷ [])
    ∷ []

unfoldable pub is_permitted : Bytes → List Bytes → Bool
unfolding same
is_permitted s [] = false
is_permitted s (permitted ∷ rest) = same s permitted || is_permitted s rest

-- `reIsoDate`: year, month and day.
abbrev pub between : ℕ → ℕ → Bytes → Bool
between shortest longest s =
    all_of is_digit s && (leb shortest (length s) && leb (length s) longest)

abbrev pub month_and_day : Bytes → Option (Bytes × Bytes) → Option (Bytes × Bytes × Bytes)
month_and_day y none = none
month_and_day y (some (m, d)) =
    if between 4 4 y && (between 1 2 m && between 1 2 d) then some (y, m, d) else none

unfoldable pub iso_date_parts : Bytes → Option (Bytes × Bytes × Bytes)
unfolding cut_at all_of is_digit
iso_date_parts val = elim (cut_at b'-' val) [
  | none ↦ none
  | some p ↦ month_and_day p.0 (cut_at b'-' p.1)
]

-- The truth value of a text that may be missing.
abbrev pub bool_in : Option Bytes → Option Bool
bool_in none = none
bool_in (some s) =
    if is_permitted (to_lower s) on_words
    then some true
    else if is_permitted (to_lower s) off_words
    then some false
    else none

unfoldable pub get_value_as_bool : Content → Bytes → Bytes → Option Bool
unfolding get_value to_lower is_permitted
get_value_as_bool content sec_name key_name = bool_in (get_value content sec_name key_name)

abbrev pub is_exist : ValueConstraint → Bool
is_exist exist = true
is_exist _ = false

-- `value()` of an optional value.
abbrev pub value_of {ℓ} : {A : Type ℓ} → Option A → Result A
value_of none = err bad_optional_access
value_of (some a) = ok a

module _ (env : Environment) where
  -- The check of a value that is not empty. `exist` is none of those that the code asks for.
  abbrev pub check_of : ValueConstraint → Bytes → Result Bool
  check_of exist val = ok false
  check_of not_empty val = ok true
  check_of alnum val = ok (all_of is_alnum val)
  check_of alpha val = ok (all_of is_alpha val)
  check_of digit val = ok (all_of is_digit val)
  check_of numeric val = ok (is_double val)
  check_of integer val = ok (is_int val)
  check_of bool val =
      ok (is_permitted (to_lower val) on_words || is_permitted (to_lower val) off_words)
  check_of file val = ok (env.is_regular_file val)
  check_of directory val = ok (env.is_directory val)
  check_of standard_timezone val = ok (env.is_zone val)
  check_of iso_date val = elim (iso_date_parts val) [
    | none ↦ ok false
    | some (year, month, day) ↦
        stoi year >>= λ y. stoi month >>= λ m. stoi day >>= λ d. ok (env.is_date y m d)
  ]

  unfoldable pub check_constraint : ValueConstraint → Bytes → Result Bool
  unfolding iso_date_parts is_permitted to_lower is_int is_double all_of stoi
  check_constraint c val = if length val == 0 then ok false else check_of c val

  -- The check of a value that may be missing.
  unfoldable pub check_optional : ValueConstraint → Option Bytes → Result Bool
  unfolding check_constraint
  check_optional c none = ok false
  check_optional c (some val) = if is_exist c then ok true else check_constraint c val

  -- The checks of the parser.
  unfoldable pub check_key : Content → Bytes → Bytes → ValueConstraint → Result Bool
  unfolding get_value check_optional
  check_key content sec_name key_name c =
      if length key_name == 0
      then err invalid_argument
      else if length sec_name == 0
      then err invalid_argument
      else check_optional c (get_value content sec_name key_name)

  unfoldable pub check_data : Content → Bytes × Bytes × ValueConstraint → Result Bool
  unfolding check_key
  check_data content (sec_name, key_name, c) =
      check_key content (if length sec_name == 0 then default_section_name else sec_name) key_name c

  unfoldable pub bulk_check_constraints :
      Content → List (Bytes × Bytes × ValueConstraint) → Result Bool
  unfolding check_data
  bulk_check_constraints content [] = ok true
  bulk_check_constraints content (ccd ∷ list) =
      let rest = bulk_check_constraints content list in
      check_data content ccd >>= λ is_okay. (if is_okay then rest else ok false)

  unfoldable pub check_key_int_range : Content → Bytes → Bytes → Option ℤ → Option ℤ → Result Bool
  unfolding check_key get_value_as_int
  check_key_int_range content sec_name key_name min_val max_val =
      if inconsistent lt_z min_val max_val
      then err range_error
      else (check_key content sec_name key_name integer >>= λ is_okay.
          (if not is_okay
            then ok false
            else (get_value_as_int content sec_name key_name >>= λ found. value_of found >>= λ v.
                (if not (at_least min_val v)
                  then ok false
                  else if not (at_most max_val v)
                  then ok false
                  else ok true))))

  unfoldable pub check_key_str_len : Content → Bytes → Bytes → Option ℕ → Option ℕ → Result Bool
  unfolding check_key get_value
  check_key_str_len content sec_name key_name min_len max_len =
      if inconsistent ltb min_len max_len
      then err range_error
      else (check_key content sec_name key_name not_empty >>= λ is_okay.
          (if not is_okay
            then ok false
            else (value_of (get_value content sec_name key_name) >>= λ v.
                (if not (long_enough min_len v)
                  then ok false
                  else if not (short_enough max_len v)
                  then ok false
                  else ok true))))
