-- ===== src/Csv/Values.antt =====
-- CSV_Value and its text. Doubles are a parameter, with what `std::to_string` writes of one and what
-- `std::stod` reads.
use lib_sloppy.Base.{
  ℕ, Bool, true, false, ◌||◌, ◌&&◌, not, [], ◌∷◌, ◌++◌, Option, none, some, Bytes, length, ltb,
  ◌==◌, if◌then◌else◌, Result, ok, err, ◌>>=◌, bad_optional_access, invalid_argument, get_elem?,
  ◌-◌, drop,
}
use lib_sloppy.Base.Int.{ℤ}
use lib_sloppy.Text.Trim.{trim}
use lib_sloppy.Text.Numbers.{is_int, is_double}
use lib_sloppy.Text.Print.{to_string, stol}
use lib_sloppy.Text.Edit.{chop_right}
use lib_sloppy.Csv.Escape.{escape_string_for_csv, unescape_string_for_csv, quote, backslash}

pub data StringRepresentation : Type 0 where
  plain quoted escaped quoted_and_escaped : StringRepresentation

abbrev pub uses_escaping : StringRepresentation → Bool
uses_escaping escaped = true
uses_escaping quoted_and_escaped = true
uses_escaping _ = false

abbrev pub uses_quotes : StringRepresentation → Bool
uses_quotes quoted = true
uses_quotes quoted_and_escaped = true
uses_quotes _ = false

pub data Value (D : Type 0) : Type 0 where
  null : Value D
  long : ℤ → Value D
  double : D → Value D
  string : Bytes → Value D

-- `front` and `back` of a string that is not empty, and the character before the last one.
abbrev pub has_front : ℕ → Bytes → Bool
has_front a s = elim (get_elem? s 0) [ none ↦ false | some c ↦ c == a ]

abbrev pub has_near_back : ℕ → ℕ → Bytes → Bool
has_near_back k a s = elim (get_elem? s (length s - k)) [ none ↦ false | some c ↦ c == a ]

module _ {D : Type 0} (double_to_string : D → Bytes) where
  unfoldable pub as_string : StringRepresentation → Value D → Result Bytes
  unfolding to_string escape_string_for_csv
  as_string rep null = if not (uses_quotes rep) then err bad_optional_access else ok []
  as_string rep (long l) = ok (to_string l)
  as_string rep (double d) = ok (double_to_string d)
  as_string rep (string s) =
      let s' = if uses_escaping rep then escape_string_for_csv s false else s in
      ok (if uses_quotes rep then quote ∷ (s' ++ quote ∷ []) else s')

module _ {D : Type 0} (stod : Bytes → Result D) where
  -- What the constructor of a row makes of a chunk that is no number.
  unfoldable pub string_of_chunk : StringRepresentation → Bytes → Result (Value D)
  unfolding unescape_string_for_csv chop_right
  string_of_chunk rep s =
      if uses_quotes rep && ltb (length s) 2
      then err invalid_argument
      else if uses_quotes rep && (not (has_front quote s) || not (has_near_back 1 quote s))
      then err invalid_argument
      else if (uses_escaping rep && uses_quotes rep)
          && (ltb 2 (length s) && has_near_back 2 backslash s)
      then err invalid_argument
      else ((if uses_escaping rep then unescape_string_for_csv s else ok s) >>= λ raw.
          ok (string (if uses_quotes rep then chop_right (drop 1 raw) 1 else raw)))

  -- The constructor's loop body. The checks of a constraint fail on an empty string.
  unfoldable pub value_of_chunk : StringRepresentation → Option Bytes → Result (Value D)
  unfolding is_int is_double string_of_chunk stol
  value_of_chunk rep none = ok null
  value_of_chunk rep (some chunk) =
      let trimmed = trim chunk in
      if is_int trimmed
      then (stol trimmed >>= λ l. ok (long l))
      else if is_double trimmed
      then (stod trimmed >>= λ d. ok (double d))
      else string_of_chunk rep chunk
