-- ===== src/Config/Parser.antt =====
-- ConfigFileParser/ConfigFileParser.cpp: sections of keys and values, and how they are read. The two
-- regular expressions of fillFromStream are written out as functions on the line.
use lib_sloppy.Base.{
  ℕ, Bool, true, false, not, ◌&&◌, ◌||◌, List, [], ◌∷◌, Option, none, some, Bytes, length, leb,
  ◌==◌, same, if◌then◌else◌, Result, ok, err, ◌>>=◌, invalid_argument,
}
use lib_sloppy.Base.Int.{ℤ}
use lib_sloppy.Text.Trim.{trim}
use lib_sloppy.Text.Numbers.{is_int, stoi, is_digit}

abbrev pub KeyValueMap : Type 0
KeyValueMap = List (Bytes × Bytes)

abbrev pub Content : Type 0
Content = List (Bytes × KeyValueMap)

-- "__DEFAULT__"
abbrev pub default_section_name : Bytes
default_section_name =
    b'_' ∷ b'_' ∷ b'D' ∷ b'E' ∷ b'F' ∷ b'A' ∷ b'U' ∷ b'L' ∷ b'T' ∷ b'_' ∷ b'_' ∷ []

-- `find`, and the entry of a key set to a value, at the end if it is new.
unfoldable pub find_key {ℓ} : {A : Type ℓ} → Bytes → List (Bytes × A) → Option A
unfolding same
find_key key [] = none
find_key key (e ∷ m) = if same e.0 key then some e.1 else find_key key m

unfoldable pub set_key {ℓ} : {A : Type ℓ} → Bytes → A → List (Bytes × A) → List (Bytes × A)
unfolding same
set_key key val [] = (key, val) ∷ []
set_key key val (e ∷ m) =
    let rest = set_key key val m in if same e.0 key then (e.0, val) ∷ m else e ∷ rest

unfoldable pub has_section : Content → Bytes → Bool
unfolding find_key
has_section content sec_name = elim (find_key sec_name content) [ none ↦ false | some sec ↦ true ]

unfoldable pub get_value : Content → Bytes → Bytes → Option Bytes
unfolding find_key
get_value content sec_name key_name = elim (find_key sec_name content) [
  | none ↦ none
  | some sec ↦ find_key key_name sec
]

unfoldable pub has_key : Content → Bytes → Bytes → Bool
unfolding find_key
has_key content sec_name key_name = elim (find_key sec_name content) [
  | none ↦ false
  | some sec ↦ elim (find_key key_name sec) [ none ↦ false | some val ↦ true ]
]

-- The integer in a text that may be missing.
abbrev pub int_in : Option Bytes → Result (Option ℤ)
int_in none = ok none
int_in (some s) = if not (is_int (trim s)) then ok none else (stoi (trim s) >>= λ n. ok (some n))

unfoldable pub get_value_as_int : Content → Bytes → Bytes → Result (Option ℤ)
unfolding get_value
get_value_as_int content sec_name key_name = int_in (get_value content sec_name key_name)

-- The content with the section, and the section.
unfoldable pub get_or_create_section : Content → Bytes → Result (Content × KeyValueMap)
unfolding find_key set_key
get_or_create_section content sec_name =
    if length sec_name == 0 then err invalid_argument else elim (find_key sec_name content) [
      | none ↦ ok (set_key sec_name [] content, [])
      | some sec ↦ ok (content, sec)
    ]

unfoldable pub insert_or_overwrite_value : Content → Bytes → Bytes → Bytes → Result Content
unfolding get_or_create_section set_key
insert_or_overwrite_value content sec_name key_name val =
    get_or_create_section content sec_name >>= λ found.
    ok (set_key sec_name (set_key key_name val found.1) found.0)

-- What is before and behind the first `a`.
unfoldable pub cut_at : ℕ → Bytes → Option (Bytes × Bytes)
cut_at a [] = none
cut_at a (c ∷ s) =
    if c == a
    then some ([], s)
    else elim (cut_at a s) [ none ↦ none | some p ↦ some (c ∷ p.0, p.1) ]

-- `_` and `[:alnum:]`, and what `.*` matches.
unfoldable pub starts_key : ℕ → Bool
unfolding is_digit
starts_key c =
    c == b'_' || (is_digit c || ((leb b'A' c && leb c b'Z') || (leb b'a' c && leb c b'z')))

unfoldable pub to_line_end : Bytes → Bytes
to_line_end [] = []
to_line_end (c ∷ s) = let rest = to_line_end s in if c == 10 || c == 13 then [] else c ∷ rest

unfoldable pub section_of : Bytes → Option Bytes
unfolding cut_at
section_of [] = none
section_of (c ∷ s) =
    if c == b'[' then elim (cut_at b']' s) [ none ↦ none | some p ↦ some p.0 ] else none

unfoldable pub pair_of : Bytes → Option (Bytes × Bytes)
unfolding cut_at to_line_end
pair_of [] = none
pair_of (c ∷ s) =
    if starts_key c
    then elim (cut_at b'=' (c ∷ s)) [ none ↦ none | some p ↦ some (p.0, to_line_end p.1) ]
    else none

unfoldable pub is_comment : Bytes → Bool
is_comment [] = false
is_comment (c ∷ s) = c == b'#' || c == b';'

-- A line without the white space around it, with the content and the name of the current section
-- before it and after it.
unfoldable pub read_trimmed : Content × Bytes → Bytes → Result (Content × Bytes)
unfolding section_of pair_of is_comment get_or_create_section insert_or_overwrite_value
read_trimmed state line =
    if length line == 0
    then ok state
    else if is_comment line
    then ok state
    else elim (section_of line) [
      | some name ↦ (get_or_create_section state.0 (trim name) >>= λ found. ok (found.0, trim name))
      | none ↦ elim (pair_of line) [
        | some p ↦
            (insert_or_overwrite_value state.0 state.1 (trim p.0) (trim p.1) >>= λ content.
            ok (content, state.1))
        | none ↦ ok state
      ]
    ]

unfoldable pub read_line : Content × Bytes → Bytes → Result (Content × Bytes)
unfolding read_trimmed
read_line state line = read_trimmed state (trim line)

unfoldable pub read_lines : Content × Bytes → List Bytes → Result (Content × Bytes)
unfolding read_line
read_lines state [] = ok state
read_lines state (line ∷ lines) = read_line state line >>= λ next. read_lines next lines

-- What `getline` reads, one line after the other.
unfoldable pub lines_of : Bytes → List Bytes
lines_of [] = [] ∷ []
lines_of (c ∷ s) =
    let rest = lines_of s in
    if c == 10
    then [] ∷ rest
    else elim rest [ [] ↦ (c ∷ []) ∷ [] | line ∷ lines ↦ (c ∷ line) ∷ lines ]

unfoldable pub fill_from_stream : Bytes → Result Content
unfolding read_lines lines_of set_key
fill_from_stream stream =
    read_lines (set_key default_section_name [] [], default_section_name) (lines_of stream)
    >>= λ state. ok state.0
