-- ===== src/Csv/RoundTrip.antt =====
-- Rows that are read back from their text.
use lib_sloppy.Base.{
  ◌<◌, ◌≡◌, ◌≢◌, refl, sym, ap, ◌∙◌, true, false, List, [], ◌∷◌, ◌++◌, map, some, Bytes, length,
  ◌==◌, Result, ok, arith, All, Bool-cases, inl, inr,
}
use lib_sloppy.Base.Int.{ℤ}
use lib_sloppy.Text.Edit.{npos}
use lib_sloppy.Text.Trim.{trim}
use lib_sloppy.Text.Numbers.{is_int, is_double, is_int-is_double}
use lib_sloppy.Text.Print.{to_string, IsLong, stol-to_string}
use lib_sloppy.Csv.Escape.{escape_string_for_csv, unescape_string_for_csv, backslash}
use lib_sloppy.Csv.Unescape.{has_pair, unescape-escape}
use lib_sloppy.Csv.Values.{
  StringRepresentation, Value, null, long, double, string, plain, quoted, escaped,
  quoted_and_escaped, as_string, value_of_chunk, string_of_chunk,
}
use lib_sloppy.Csv.Rows.{chunk_of, values_of_chunks, read_row, rest_as_string, row_as_string}
use lib_sloppy.Csv.Scans.{IsField, texts, split-texts, chunk-nil}
use lib_sloppy.Csv.Fields.{
  escape_each, escape-each, ends_in_backslash, in_quotes, escaped-IsField, quoted-IsField,
  nil-IsField, numerals-IsField,
}
use lib_sloppy.Csv.Quoting.{chunk_in_quotes, quotes_solid, quotes_no_number}

int_not_empty : (w : Bytes) → is_int w ≡ true → (length w == 0) ≡ false
unfolding is_int
int_not_empty [] h = cc
int_not_empty (c ∷ w) h = ground arith

true-false : true ≡ false → ⊥
true-false h = cc

pub not_int : (w : Bytes) → is_double w ≡ false → is_int w ≡ false
not_int w h = elim (Bool-cases (is_int w)) [
  | inl e ↦ absurd (true-false (sym (is_int-is_double w e) ∙ h))
  | inr e ↦ e
]

each_not_empty : (s : Bytes) → s ≢ [] → (length (escape_each s) == 0) ≡ false
each_not_empty [] h = absurd (h refl)
each_not_empty (c ∷ s) h = ground arith

pub chunk_trimmed :
    (rep : StringRepresentation) (w : Bytes)
    → trim w ≡ w
    → (length w == 0) ≡ false
    → chunk_of rep w ≡ some w
chunk_trimmed rep w t h = ground arith

abbrev pub IsSafeString : Bytes → Type 0
IsSafeString s = (has_pair backslash b'n' s ≡ false) × (ends_in_backslash s ≡ false)

module _ {D : Type 0} where
  -- The values that the text keeps: 64-bit numbers; strings without a backslash before an n or at the
  -- end, which, without quotation marks, are not empty and do not look like a number; with
  -- quotation marks also the missing value.
  abbrev pub IsSafe : StringRepresentation → Value D → Type 0
  IsSafe escaped (string s) =
      IsSafeString s × (s ≢ []) × (is_double (trim (escape_string_for_csv s false)) ≡ false)
  IsSafe escaped (long l) = IsLong l
  IsSafe quoted_and_escaped null = Unit
  IsSafe quoted_and_escaped (string s) = IsSafeString s
  IsSafe quoted_and_escaped (long l) = IsLong l
  IsSafe _ _ = ⊥

  -- The text of a value, and of a row.
  abbrev pub field_text : StringRepresentation → Value D → Bytes
  field_text quoted_and_escaped (string s) = in_quotes (escape_each s)
  field_text _ (string s) = escape_each s
  field_text _ (long l) = to_string l
  field_text _ _ = []

  abbrev pub line_text : StringRepresentation → List (Value D) → Bytes
  line_text rep [] = []
  line_text rep (v ∷ vs) = field_text rep v ++ texts (map (field_text rep) vs)

module _ {D : Type 0} (stod : Bytes → Result D) (double_to_string : D → Bytes) where
  abbrev IsReadable : StringRepresentation → Value D → Type 0
  IsReadable rep v =
      (as_string double_to_string rep v ≡ ok (field_text rep v))
      × IsField rep (field_text rep v)
      × (value_of_chunk stod rep (chunk_of rep (field_text rep v)) ≡ ok v)

  long_readable :
      (rep : StringRepresentation) (l : ℤ)
      → IsLong l
      → value_of_chunk stod rep (chunk_of rep (to_string l)) ≡ ok (long l)
  unfolding value_of_chunk
  long_readable rep l h =
      let w = to_string l in
      let (int, chars, trimmed, read) = stol-to_string l h in
      rw (chunk_trimmed rep w trimmed (int_not_empty w int), trimmed, int, read)

  escaped_readable :
      (s : Bytes)
      → IsSafe {D = D} escaped (string s)
      → value_of_chunk stod escaped (chunk_of escaped (escape_each s)) ≡ ok (string s)
  unfolding value_of_chunk string_of_chunk
  escaped_readable s h =
      let e = escape_each s in
      let no_double : is_double (trim e) ≡ false =
        ap (λ w. is_double (trim w)) (sym (escape-each s)) ∙ h.2 in
      let read : unescape_string_for_csv e ≡ ok s =
        ap unescape_string_for_csv (sym (escape-each s)) ∙ unescape-escape s h.0.0 in
      rw (each_not_empty s h.1, not_int (trim e) no_double, no_double, read)

  quoted_readable :
      (s : Bytes)
      → IsSafeString s
      → value_of_chunk stod quoted_and_escaped
          (chunk_of quoted_and_escaped (in_quotes (escape_each s)))
        ≡ ok (string s)
  unfolding value_of_chunk
  quoted_readable s h =
      let w = in_quotes (escape_each s) in
      let (no_int, no_double) = quotes_no_number (escape_each s) in
      let solid = quotes_solid (escape_each s) in
      let chunk : chunk_of quoted_and_escaped w ≡ some w =
        chunk_trimmed quoted_and_escaped w solid (ground arith) in
      let value : value_of_chunk stod quoted_and_escaped (some w) ≡ ok (string s) =
        rw (solid, no_int, no_double) (chunk_in_quotes stod s h.0 h.1) in
      ap (value_of_chunk stod quoted_and_escaped) chunk ∙ value

  readable : (rep : StringRepresentation) (v : Value D) → IsSafe rep v → IsReadable rep v
  unfolding as_string value_of_chunk
  readable escaped (string s) h =
      (rw (escape-each s), escaped-IsField s h.0.1, escaped_readable s h)
  readable escaped (long l) h = (
    refl,
    numerals-IsField escaped (to_string l) (stol-to_string l h).1,
    long_readable escaped l h,
  )
  readable quoted_and_escaped null h =
      (refl, nil-IsField quoted_and_escaped, rw (chunk-nil quoted_and_escaped))
  readable quoted_and_escaped (string s) h =
      (rw (escape-each s), quoted-IsField s h.1, quoted_readable s h)
  readable quoted_and_escaped (long l) h = (
    refl,
    numerals-IsField quoted_and_escaped (to_string l) (stol-to_string l h).1,
    long_readable quoted_and_escaped l h,
  )
  readable escaped null h = absurd h
  readable escaped (double d) h = absurd h
  readable quoted_and_escaped (double d) h = absurd h
  readable plain v h = absurd h
  readable quoted v h = absurd h

  rest_written :
      (rep : StringRepresentation) (vs : List (Value D))
      → All (IsSafe rep) vs
      → (rest_as_string double_to_string rep vs ≡ ok (texts (map (field_text rep) vs)))
        × All (IsField rep) (map (field_text rep) vs)
        × (values_of_chunks stod rep (map (chunk_of rep) (map (field_text rep) vs)) ≡ ok vs)
  unfolding rest_as_string values_of_chunks
  rest_written rep [] h = (refl, tt, refl)
  rest_written rep (v ∷ vs) h =
      let (written, field, read) = readable rep v h.0 in
      let (written', fields, read') = rest_written rep vs h.1 in
      (rw (written, written'), (field, fields), rw (read, read'))

  -- A row of values that the representation keeps (with escaping, with or without quotation marks)
  -- is written as its values' texts with commas between them, and if that line is not empty and
  -- shorter than `npos`, reading it gives the row back.
  pub read_row-row_as_string :
      (rep : StringRepresentation) (vs : List (Value D))
      → All (IsSafe rep) vs
      → (length (line_text rep vs) == 0) ≡ false
      → length (line_text rep vs) < npos
      → (row_as_string double_to_string rep vs ≡ ok (line_text rep vs))
        × (read_row stod rep (line_text rep vs) ≡ ok vs)
  unfolding row_as_string read_row
  read_row-row_as_string rep [] h ne small = absurd (true-false ne)
  read_row-row_as_string rep (v ∷ vs) h ne small =
      let (written, field, read) = readable rep v h.0 in
      let (written', fields, read') = rest_written rep vs h.1 in
      let ws = map (field_text rep) vs in
      (
        rw (written, written'),
        rw (split-texts rep (field_text rep v) ws (field, fields) ne small)
            (unfold values_of_chunks in rw (read, read')),
      )
