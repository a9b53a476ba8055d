-- ===== src/Csv/Texts.antt =====
-- The text of a CSV_Table: the constructor that reads one, and asString. A row that is empty has no
-- text of its own, since the lines without characters are dropped.
use lib_sloppy.Base.{
  ℕ, zero, suc, ◌+◌, Bool, false, ◌&&◌, not, List, [], ◌∷◌, ◌++◌, Option, none, some, Bytes, length,
  ◌==◌, if◌then◌else◌, Result, ok, err, ◌>>=◌, invalid_argument,
}
use lib_sloppy.Text.Trim.{trim}
use lib_sloppy.Text.Edit.{chop_right}
use lib_sloppy.Text.Split.{split}
use lib_sloppy.Csv.Escape.{newline, comma, escape_string_for_csv}
use lib_sloppy.Csv.Values.{
  StringRepresentation, plain, uses_quotes, uses_escaping, Value, null, as_string, has_near_back,
}
use lib_sloppy.Csv.Rows.{read_row, row_as_string}
use lib_sloppy.Csv.Tables.{Table, empty_table, append, set_header_trimmed, get_header}

abbrev pub carriage_return : ℕ
carriage_return = 13

-- A trailing carriage return is taken off a line, which is not empty.
abbrev pub without_return : Bytes → Bytes
without_return line = if has_near_back 1 carriage_return line then chop_right line 1 else line

module _ {D : Type 0} (double_to_string : D → Bytes) where
  -- The names in a row, `none` for a missing value.
  unfoldable pub names_of_row : List (Value D) → Result (Option (List Bytes))
  unfolding as_string
  names_of_row [] = ok (some [])
  names_of_row (null ∷ values) = ok none
  names_of_row (v ∷ values) =
      let rest = names_of_row values in
      as_string double_to_string plain v >>= λ s.
      rest >>= λ names. elim names [ none ↦ ok none | some others ↦ ok (some (trim s ∷ others)) ]

  unfoldable pub set_header_row : Table (Value D) → List (Value D) → Result (Table (Value D) × Bool)
  unfolding names_of_row set_header_trimmed
  set_header_row t row = names_of_row row >>= λ names. elim names [
    | none ↦ ok (t, false)
    | some v ↦ ok (set_header_trimmed t v)
  ]

abbrev accepted {ℓ} : {A : Type ℓ} → A × Bool → Result A
accepted r = if r.1 then ok r.0 else err invalid_argument

module _ {D : Type 0} (stod : Bytes → Result D) (double_to_string : D → Bytes) where
  -- One round of the constructor's loop: a line makes the headers or a row.
  unfoldable pub add_line :
      Bool → StringRepresentation → Table (Value D) → Bytes → Result (Table (Value D))
  unfolding read_row set_header_row append
  add_line first_row_contains_headers rep t line = read_row stod rep (without_return line) >>= λ r.
      (if first_row_contains_headers && t.col_count == 0
        then (set_header_row double_to_string t r >>= λ set. accepted set)
        else accepted (append t r))

  unfoldable pub add_lines :
      Bool → StringRepresentation → Table (Value D) → List Bytes → Result (Table (Value D))
  unfolding add_line
  add_lines first_row_contains_headers rep t [] = ok t
  add_lines first_row_contains_headers rep t (line ∷ lines) =
      add_line first_row_contains_headers rep t line >>= λ t'.
      add_lines first_row_contains_headers rep t' lines

  -- `none` if the splitting had too little fuel.
  unfoldable pub read_table :
      Bytes → Bool → StringRepresentation → Option (Result (Table (Value D)))
  unfolding split add_lines empty_table
  read_table table_data first_row_contains_headers rep =
      if length table_data == 0
      then some (ok empty_table)
      else elim (split table_data (newline ∷ []) false false) [
        | none ↦ none
        | some r ↦ some (r >>= λ lines. add_lines first_row_contains_headers rep empty_table lines)
      ]

module _ {V : Type 0} where
  -- The loop over the headers: `n` of them from column `col_idx` on, behind `result`.
  unfoldable pub header_line : StringRepresentation → Table V → ℕ → ℕ → Bytes → Result Bytes
  unfolding get_header escape_string_for_csv
  header_line rep t zero col_idx result = ok result
  header_line rep t (suc n) col_idx result = get_header t col_idx >>= λ hdr.
      let hdr' = if uses_escaping rep then escape_string_for_csv hdr (uses_quotes rep) else hdr in
      let separated = if length result == 0 then result else result ++ comma ∷ [] in
      header_line rep t n (col_idx + 1) (separated ++ hdr')

module _ {D : Type 0} (double_to_string : D → Bytes) where
  unfoldable pub rows_text : StringRepresentation → List (List (Value D)) → Result Bytes
  unfolding row_as_string
  rows_text rep [] = ok []
  rows_text rep (row ∷ rows) =
      let rest = rows_text rep rows in
      row_as_string double_to_string rep row >>= λ line.
      rest >>= λ text. ok (line ++ (newline ∷ text))

  unfoldable pub table_as_string : Table (Value D) → Bool → StringRepresentation → Result Bytes
  unfolding header_line rows_text
  table_as_string t include_headers rep =
      (if include_headers && not (length t.headers == 0)
        then (header_line rep t (length t.headers) 0 [] >>= λ line. ok (line ++ newline ∷ []))
        else ok [])
      >>= λ result. rows_text rep t.rows >>= λ text. ok (result ++ text)
