-- ===== src/Csv/RowFaults.antt =====
-- Lines that the code writes and does not read.
use lib_sloppy.Base.{
  ℕ, ◌<◌, ◌≡◌, sym, ap, ◌∙◌, true, false, [], ◌∷◌, ◌++◌, append-nil, some, Bytes, length,
  length-append, ltb, ◌==◌, Result, ok, err, arith, invalid_argument,
}
use lib_sloppy.Text.Edit.{npos}
use lib_sloppy.Text.Trim.{trim, trim-nil}
use lib_sloppy.Text.Numbers.{is_int, is_double}
use lib_sloppy.Csv.Escape.{quote, newline}
use lib_sloppy.Csv.HeaderMap.{has_bad_char, find_header}
use lib_sloppy.Csv.Tables.{Table, get_header}
use lib_sloppy.Csv.Texts.{table_as_string, header_line, rows_text}
use lib_sloppy.Csv.Values.{
  StringRepresentation, Value, string, quoted, quoted_and_escaped, as_string, value_of_chunk,
  string_of_chunk,
}
use lib_sloppy.Csv.Rows.{
  chunk_of, comma_positions, cut_chunks, split_input_in_chunks, values_of_chunks, read_row,
  row_as_string, rest_as_string,
}
use lib_sloppy.Csv.Scans.{passes, positions_pass, cut_last}
use lib_sloppy.Csv.Fields.{
  escape_each, escape-each, ends_in_backslash, in_quotes, open_passes, bare_passes, bare_last,
}
use lib_sloppy.Csv.Quoting.{quotes_solid, quotes_no_number, back_one, back_two, ends-each}
use lib_sloppy.Csv.RoundTrip.{chunk_trimmed, not_int}

-- A line in which no comma separates is one field.
single_field :
    (rep : StringRepresentation) (w : Bytes) (p q : ℕ)
    → passes rep 0 0 w ≡ some (p, q)
    → (length w == 0) ≡ false
    → length w < npos
    → split_input_in_chunks rep w ≡ ok (chunk_of rep w ∷ [])
unfolding split_input_in_chunks
single_field rep w p q over ne small =
    let places : comma_positions rep 0 0 0 w ≡ ok [] =
      ap (comma_positions rep 0 0 0) (sym (append-nil w))
      ∙ unfold comma_positions in positions_pass rep 0 0 0 w [] p q over in
    let cut : cut_chunks rep w 0 [] ≡ ok (chunk_of rep w ∷ []) =
      ap (λ u. cut_chunks rep u 0 []) (sym (append-nil w)) ∙ cut_last rep [] w (omega arith) in
    rw (ne, places) cut

module _ {D : Type 0} (stod : Bytes → Result D) (double_to_string : D → Bytes) where
  refused :
      (s : Bytes)
      → ends_in_backslash s ≡ true
      → value_of_chunk stod quoted_and_escaped (some (in_quotes (escape_each s)))
        ≡ err invalid_argument
  unfolding value_of_chunk string_of_chunk
  refused s h =
      let e = escape_each s in
      let (no_int, no_double) = quotes_no_number e in
      let long : ltb (length (in_quotes e)) 2 ≡ false =
        ground (arith, length-append e (quote ∷ [])) in
      let back = back_one quote quote e in
      let near = back_two quote quote e ∙ ends-each s ∙ h in
      rw (quotes_solid e, no_int, no_double, long, back, near)

  -- A string that ends in a backslash is written with escaping and quotation marks without error,
  -- but, unless the line is too long, it is refused with `invalid_argument` when the row of it is
  -- read.
  pub trailing_backslash_refused :
      (s : Bytes)
      → ends_in_backslash s ≡ true
      → length (in_quotes (escape_each s)) < npos
      → (row_as_string double_to_string quoted_and_escaped (string s ∷ [])
          ≡ ok (in_quotes (escape_each s)))
        × (read_row stod quoted_and_escaped (in_quotes (escape_each s)) ≡ err invalid_argument)
  unfolding row_as_string rest_as_string as_string read_row
  trailing_backslash_refused s h small =
      let w = in_quotes (escape_each s) in
      let solid = quotes_solid (escape_each s) in
      let chunk = chunk_trimmed quoted_and_escaped w solid (ground arith) in
      let split : split_input_in_chunks quoted_and_escaped w ≡ ok (some w ∷ []) =
        single_field quoted_and_escaped w quote 1 (open_passes s h) (ground arith) small
        ∙ ap (λ c. ok (c ∷ [])) chunk in
      (rw (escape-each s, append-nil w), rw split (unfold values_of_chunks in rw (refused s h)))

  no_front :
      (w : Bytes)
      → has_bad_char w ≡ false
      → is_int w ≡ false
      → is_double w ≡ false
      → trim w ≡ w
      → value_of_chunk stod quoted (some w) ≡ err invalid_argument
  unfolding value_of_chunk string_of_chunk has_bad_char
  no_front [] b i d t = rw trim-nil
  no_front (c ∷ w) b i d t =
      let other : (c == quote) ≡ false = ground arith in rw (t, i, d, other) (ground arith)

  -- A table of one column that has a name which is no number writes, with quotation marks and
  -- without escaping, that name without quotation marks; reading it as a row with quotation marks
  -- throws `invalid_argument`.
  pub header_unquoted :
      (w : Bytes)
      → has_bad_char w ≡ false
      → is_double w ≡ false
      → trim w ≡ w
      → (length w == 0) ≡ false
      → length w < npos
      → let t : Table (Value D) = record { col_count = 1; rows = []; headers = (w, 0) ∷ [] } in
        (table_as_string double_to_string t true quoted ≡ ok (w ++ newline ∷ []))
        × (read_row stod quoted w ≡ err invalid_argument)
  unfolding table_as_string header_line rows_text get_header find_header read_row
  header_unquoted w b d t ne small =
      let chunk = chunk_trimmed quoted w t ne in
      let split : split_input_in_chunks quoted w ≡ ok (some w ∷ []) =
        single_field quoted w (bare_last 0 w) 0 (bare_passes quoted 0 w b) ne small
        ∙ ap (λ c. ok (c ∷ [])) chunk in
      (
        rw (append-nil (w ++ newline ∷ [])),
        rw split (unfold values_of_chunks in rw (no_front w b (not_int w d) d t)),
      )
