-- ===== src/Csv/Tests.antt =====
-- Small tables and cells, and the theorems about them.
use lib_sloppy.Base.{
  ℕ, ◌≡◌, ◌≢◌, ◌≤◌, ◌+◌, ◌⊎◌, refl, true, false, List, [], ◌∷◌, map, some, Bytes, length, ok, err,
  out_of_range,
}
use lib_sloppy.Text.Trim.{trim}
use lib_sloppy.Csv.Escape.{escape_string_for_csv, unescape_string_for_csv, backslash}
use lib_sloppy.Csv.Unescape.{has_pair, unescape-escape, unescape_loses_backslash_n}
use lib_sloppy.Csv.HeaderMap.{number_headers, emplace_header, lookup, check_headers, has_bad_char}
use lib_sloppy.Csv.Tables.{Table, set_headers, get, erase_at, erase_column, erase_column_by_name}
use lib_sloppy.Csv.Names.{Represents}
use lib_sloppy.Csv.Models.{Models, HasNames, erase_name, erase_column_lem}
use lib_sloppy.Csv.HeaderRules.{AreHeaders}
use lib_sloppy.Csv.Naming.{set_headers_lem, number-Represents}

-- A line break, a quotation mark, a backslash and a comma.
abbrev cell : Bytes
cell = b'a' ∷ 10 ∷ b'"' ∷ b'\\' ∷ b',' ∷ []

cell_has_no_pair : has_pair backslash b'n' cell ≡ false
unfolding has_pair
cell_has_no_pair = refl

unescape-escape_example : unescape_string_for_csv (escape_string_for_csv cell false) ≡ ok cell
unescape-escape_example = unescape-escape cell cell_has_no_pair

unescape_loses_backslash_n_example :
    unescape_string_for_csv (escape_string_for_csv (b'\\' ∷ b'n' ∷ b'!' ∷ []) false)
    ≢ ok (b'\\' ∷ b'n' ∷ b'!' ∷ [])
unescape_loses_backslash_n_example = unescape_loses_backslash_n (b'!' ∷ [])

abbrev a : Bytes
a = b'a' ∷ []

abbrev b : Bytes
b = b'b' ∷ []

abbrev table : Table ℕ
table = record {
  col_count = 2;
  rows = (1 ∷ 2 ∷ []) ∷ (3 ∷ 4 ∷ []) ∷ [];
  headers = (b, 1) ∷ (a, 0) ∷ [];
}

names_checked : check_headers (a ∷ b ∷ []) ≡ true
unfolding check_headers has_bad_char
names_checked = refl

numbered : Represents table.headers (a ∷ b ∷ [])
unfolding number_headers emplace_header lookup
numbered = number-Represents (a ∷ b ∷ []) names_checked

table-Models : Models table table.rows (some (a ∷ b ∷ []))
unfolding HasNames
table-Models = record { same_rows = refl; width = (refl, (refl, tt)); has_names = (refl, numbered) }

abbrev new_row : List ℕ
new_row = 5 ∷ 6 ∷ []

erase_column_lem_example :
    (2 ≤ 0) × (erase_column table 0 ≡ ok (table, false))
    ⊎ (t' : Table ℕ) × (t'.col_count + 1 ≡ 2)
      × (erase_column table 0 ≡ ok (t', true))
      × Models t' (map (erase_at 0) table.rows) (erase_name 0 (some (a ∷ b ∷ [])))
erase_column_lem_example = erase_column_lem table table.rows (some (a ∷ b ∷ [])) 0 table-Models

set_headers_lem_example :
    ((length (b ∷ a ∷ []) ≢ table.col_count) ⊎ ¬ AreHeaders (map trim (b ∷ a ∷ [])))
      × (set_headers table (b ∷ a ∷ []) ≡ (table, false))
    ⊎ (t' : Table ℕ) × (length (b ∷ a ∷ []) ≡ 2)
      × AreHeaders (map trim (b ∷ a ∷ []))
      × (t'.col_count ≡ 2)
      × (set_headers table (b ∷ a ∷ []) ≡ (t', true))
      × Models t' table.rows (some (map trim (b ∷ a ∷ [])))
set_headers_lem_example =
    set_headers_lem table table.rows (some (a ∷ b ∷ [])) (b ∷ a ∷ []) table-Models (λ e. cc)

abbrev one_cell : List ℕ
one_cell = 7 ∷ []

-- The table's operations in a row.
erases :
    (erase_column_by_name table a
      ≡ ok (record { col_count = 1; rows = (2 ∷ []) ∷ (4 ∷ []) ∷ []; headers = (b, 0) ∷ [] }, true))
    × (get table 2 0 ≡ err out_of_range)
unfolding erase_column_by_name erase_column get
erases = (refl, refl)
