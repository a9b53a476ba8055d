-- ===== src/Csv/Rows.antt =====
-- CSV_Row: the cutting of a line at its commas, the row that is read from the line, and its text.
use lib_sloppy.Base.{
  ℕ, ◌+◌, ◌-◌, Bool, ◌&&◌, ◌||◌, not, List, [], ◌∷◌, ◌++◌, Option, none, some, Bytes, length, ltb,
  ◌==◌, if◌then◌else◌, Result, ok, err, ◌>>=◌, invalid_argument,
}
use lib_sloppy.Text.Trim.{trim}
use lib_sloppy.Text.Edit.{slice}
use lib_sloppy.Csv.Escape.{quote, comma, backslash}
use lib_sloppy.Csv.Values.{
  StringRepresentation, uses_quotes, uses_escaping, Value, as_string, value_of_chunk,
}

-- A character is not behind a backslash, or there is no escaping.
abbrev pub is_effective : StringRepresentation → ℕ → Bool
is_effective rep prev = not (uses_escaping rep) || not (prev == backslash)

abbrev pub count_quote : StringRepresentation → ℕ → ℕ → ℕ → ℕ
count_quote rep prev quote_count c =
    if uses_quotes rep && c == quote && is_effective rep prev then quote_count + 1 else quote_count

abbrev pub is_separator : StringRepresentation → ℕ → ℕ → ℕ → Bool
is_separator rep prev quote_count c = c == comma && not (quote_count == 1) && is_effective rep prev

-- The positions of the commas between the fields, from `idx` on.
unfoldable pub comma_positions : StringRepresentation → ℕ → ℕ → ℕ → Bytes → Result (List ℕ)
comma_positions rep idx prev quote_count [] = ok []
comma_positions rep idx prev quote_count (c ∷ s) =
    let count = count_quote rep prev quote_count c in
    let found = is_separator rep prev count c in
    let rest = comma_positions rep (idx + 1) c (if found then 0 else count) s in
    if ltb 2 count
    then err invalid_argument
    else (rest >>= λ ps. ok (if found then idx ∷ ps else ps))

abbrev pub chunk_of : StringRepresentation → Bytes → Option Bytes
chunk_of rep part =
    let s = if uses_quotes rep then trim part else part in if length s == 0 then none else some s

-- The fields from position `start` on, between the commas.
unfoldable pub cut_chunks : StringRepresentation → Bytes → ℕ → List ℕ → Result (List (Option Bytes))
unfolding slice
cut_chunks rep input start [] =
    if ltb start (length input)
    then (slice input start (length input - 1) >>= λ part. ok (chunk_of rep part ∷ []))
    else if start == length input
    then ok (none ∷ [])
    else ok []
cut_chunks rep input start (idx ∷ ps) =
    let rest = cut_chunks rep input (idx + 1) ps in
    (if idx == start
      then ok none
      else (slice input start (idx - 1) >>= λ part. ok (chunk_of rep part)))
    >>= λ chunk. rest >>= λ chunks. ok (chunk ∷ chunks)

unfoldable pub split_input_in_chunks : StringRepresentation → Bytes → Result (List (Option Bytes))
unfolding comma_positions cut_chunks
split_input_in_chunks rep input =
    if length input == 0
    then ok []
    else (comma_positions rep 0 0 0 input >>= λ commas. cut_chunks rep input 0 commas)

module _ {D : Type 0} (stod : Bytes → Result D) where
  unfoldable pub values_of_chunks :
      StringRepresentation → List (Option Bytes) → Result (List (Value D))
  unfolding value_of_chunk
  values_of_chunks rep [] = ok []
  values_of_chunks rep (chunk ∷ chunks) =
      let rest = values_of_chunks rep chunks in
      value_of_chunk stod rep chunk >>= λ v. rest >>= λ vs. ok (v ∷ vs)

  unfoldable pub read_row : StringRepresentation → Bytes → Result (List (Value D))
  unfolding split_input_in_chunks values_of_chunks
  read_row rep row_data =
      split_input_in_chunks rep row_data >>= λ chunks. values_of_chunks rep chunks

module _ {D : Type 0} (double_to_string : D → Bytes) where
  -- The loop from the second column on.
  unfoldable pub rest_as_string : StringRepresentation → List (Value D) → Result Bytes
  unfolding as_string
  rest_as_string rep [] = ok []
  rest_as_string rep (v ∷ cols) =
      let rest = rest_as_string rep cols in
      as_string double_to_string rep v >>= λ s. rest >>= λ text. ok (comma ∷ (s ++ text))

  unfoldable pub row_as_string : StringRepresentation → List (Value D) → Result Bytes
  unfolding as_string rest_as_string
  row_as_string rep [] = ok []
  row_as_string rep (v ∷ cols) =
      as_string double_to_string rep v >>= λ s. rest_as_string rep cols >>= λ text. ok (s ++ text)
