-- ===== src/Csv/RowTests.antt =====
-- Rows and tables as text, and the theorems about them at concrete values. Doubles are natural
-- numbers here.
use lib_sloppy.Base.{
  ℕ, ◌≡◌, refl, true, false, List, [], ◌∷◌, ◌++◌, none, some, Bytes, length, Result, ok, err, arith,
  invalid_argument,
}
use lib_sloppy.Base.Int.{pos, negsuc}
use lib_sloppy.Text.Trim.{trim, trim_left, trim_right, spaces, is_space}
use lib_sloppy.Text.Search.{find_from, find}
use lib_sloppy.Text.Print.{to_string}
use lib_sloppy.Text.Numbers.{is_double}
use lib_sloppy.Csv.Escape.{newline}
use lib_sloppy.Csv.Unescape.{has_pair}
use lib_sloppy.Csv.HeaderMap.{has_bad_char}
use lib_sloppy.Csv.Values.{
  Value, null, long, double, string, plain, quoted, escaped, quoted_and_escaped,
}
use lib_sloppy.Csv.Rows.{read_row, row_as_string, split_input_in_chunks}
use lib_sloppy.Csv.Tables.{Table}
use lib_sloppy.Csv.Texts.{read_table, table_as_string}
use lib_sloppy.Csv.Fields.{ends_in_backslash}
use lib_sloppy.Csv.RoundTrip.{line_text, IsSafeString, read_row-row_as_string}
use lib_sloppy.Csv.RowFaults.{trailing_backslash_refused, header_unquoted}

abbrev read_double : Bytes → Result ℕ
read_double s = ok (length s)

abbrev write_double : ℕ → Bytes
write_double d = b'1' ∷ b'.' ∷ b'5' ∷ []

abbrev word : Bytes
word = b'a' ∷ b',' ∷ b'"' ∷ b'b' ∷ []

-- Three columns: a string, nothing, and a number.
abbrev row : List (Value ℕ)
row = string word ∷ null ∷ long (negsuc 41) ∷ []

word_is_safe : IsSafeString word
unfolding has_pair ends_in_backslash
word_is_safe = (refl, refl)

read_row-row_as_string_example :
    (row_as_string write_double quoted_and_escaped row ≡ ok (line_text quoted_and_escaped row))
    × (read_row read_double quoted_and_escaped (line_text quoted_and_escaped row) ≡ ok row)
unfolding to_string
read_row-row_as_string_example =
    read_row-row_as_string read_double write_double quoted_and_escaped row
      (word_is_safe, (tt, (omega arith, tt))) refl (ground arith)

unquoted_read :
    read_row read_double escaped (b'a' ∷ b',' ∷ b' ' ∷ b'7' ∷ b',' ∷ b'1' ∷ b'.' ∷ b'5' ∷ [])
    ≡ ok (string (b'a' ∷ []) ∷ long (pos 7) ∷ double 3 ∷ [])
unfolding read_row trim trim_right spaces trim_left is_space
unquoted_read = refl

quoted_comma :
    split_input_in_chunks quoted (b'"' ∷ b',' ∷ b'"' ∷ b',' ∷ [])
    ≡ ok (some (b'"' ∷ b',' ∷ b'"' ∷ []) ∷ none ∷ [])
unfolding split_input_in_chunks trim trim_right spaces trim_left is_space
quoted_comma = refl

three_quotes : split_input_in_chunks quoted (b'"' ∷ b'"' ∷ b'"' ∷ []) ≡ err invalid_argument
unfolding split_input_in_chunks
three_quotes = refl

-- A table with a header and a row, read and written.
abbrev small_text : Bytes
small_text = b'h' ∷ 13 ∷ 10 ∷ b'4' ∷ 10 ∷ []

abbrev small_table : Table (Value ℕ)
small_table = record {
  col_count = 1;
  rows = (long (pos 4) ∷ []) ∷ [];
  headers = (b'h' ∷ [], 0) ∷ [];
}

table_read : read_table read_double write_double small_text true plain ≡ some (ok small_table)
unfolding read_table find_from find trim trim_right spaces trim_left is_space
table_read = refl

table_written :
    table_as_string write_double small_table true plain ≡ ok (b'h' ∷ 10 ∷ b'4' ∷ 10 ∷ [])
unfolding table_as_string
table_written = refl

abbrev path : Bytes
path = b'c' ∷ b'\\' ∷ []

path_ends : ends_in_backslash path ≡ true
unfolding ends_in_backslash
path_ends = refl

trailing_backslash_refused_example :
    (row_as_string write_double quoted_and_escaped (string path ∷ [])
      ≡ ok (b'"' ∷ b'c' ∷ b'\\' ∷ b'\\' ∷ b'"' ∷ []))
    × (read_row read_double quoted_and_escaped (b'"' ∷ b'c' ∷ b'\\' ∷ b'\\' ∷ b'"' ∷ [])
        ≡ err invalid_argument)
trailing_backslash_refused_example =
    trailing_backslash_refused read_double write_double path path_ends (ground arith)

abbrev name : Bytes
name = b'i' ∷ b'd' ∷ []

name_is_good : (has_bad_char name ≡ false) × (is_double name ≡ false) × (trim name ≡ name)
unfolding has_bad_char is_double trim trim_left trim_right spaces is_space
name_is_good = (refl, refl, refl)

header_unquoted_example :
    let t : Table (Value ℕ) = record { col_count = 1; rows = []; headers = (name, 0) ∷ [] } in
    (table_as_string write_double t true quoted ≡ ok (name ++ newline ∷ []))
    × (read_row read_double quoted name ≡ err invalid_argument)
header_unquoted_example =
    header_unquoted read_double write_double name name_is_good.0 name_is_good.1 name_is_good.2 refl
      (ground arith)
