-- ===== src/Config/Tests.antt =====
-- Small values, and the theorems about checks at them.
use lib_sloppy.Base.{
  ◌≡◌, ◌⊎◌, inr, arith, refl, Bool, true, false, ◌&&◌, [], ◌∷◌, ◌++◌, same, none, some, Bytes,
  if◌then◌else◌, ok, err, ◌>>=◌, range_error, out_of_range, All,
}
use lib_sloppy.Base.Int.{pos, negsuc}
use lib_sloppy.Text.Trim.{trim, trim_left, trim_right, spaces, is_space}
use lib_sloppy.Text.Numbers.{is_int, is_digit, all_of, stoi, in_int_range, digits_value}
use lib_sloppy.Text.Case.{to_lower}
use lib_sloppy.Text.Search.{replace_all, find}
use lib_sloppy.Config.Constraints.{
  Environment, exist, alnum, integer, digit, bool, iso_date, get_value_as_bool, check_key,
  check_data, bulk_check_constraints, check_optional, check_constraint, is_permitted,
  iso_date_parts, check_key_int_range,
}
use lib_sloppy.Config.Agreement.{has, bool_constraint_lem, int_range_agrees}
use lib_sloppy.Config.{if_exists, at_least, at_most, check_constraint_int_range}
use lib_sloppy.Config.Parser.{
  Content, default_section_name, get_value, find_key, set_key, get_or_create_section,
  insert_or_overwrite_value, cut_at, starts_key, to_line_end, section_of, pair_of, is_comment,
  read_line, read_trimmed, read_lines, lines_of, fill_from_stream,
}
use lib_sloppy.Config.Lines.{insert_lem}
use lib_sloppy.Config.Reading.{IsKeyStart, IsNoEquals, IsNoBreak, read_line_lem}
use lib_sloppy.Config.Checks.{Writes, int_range_lem}

-- A key, as a line with white space, and the same at the end of a small file.
abbrev line : Bytes
line = b' ' ∷ b'k' ∷ b' ' ∷ b'=' ∷ b'7' ∷ []

abbrev a : Bytes
a = b'a' ∷ []

abbrev k : Bytes
k = b'k' ∷ []

abbrev file : Bytes
file = b';' ∷ 10 ∷ b'[' ∷ b'a' ∷ b']' ∷ 10 ∷ line

reads : fill_from_stream file ≡ ok ((default_section_name, []) ∷ (a, (k, b'7' ∷ []) ∷ []) ∷ [])
unfolding fill_from_stream lines_of read_lines read_line read_trimmed section_of pair_of is_comment
    cut_at starts_key to_line_end get_or_create_section insert_or_overwrite_value find_key set_key
    trim trim_left trim_right spaces is_space is_digit
reads = refl

line_trimmed : trim line ≡ (b'k' ∷ b' ' ∷ []) ++ b'=' ∷ b'7' ∷ []
unfolding trim trim_left trim_right spaces is_space
line_trimmed = refl

line_parts : IsKeyStart b'k' × All IsNoEquals (b' ' ∷ []) × All IsNoBreak (b'7' ∷ [])
line_parts = (
  inr (inr (inr (omega arith, omega arith))),
  ((λ e. omega (arith, e)), tt),
  (((λ e. omega (arith, e)), λ e. omega (arith, e)), tt),
)

read_line_lem_example :
    (after : Content) × (read_line ([], a) line ≡ ok (after, a))
    × ((s key : Bytes)
        → get_value after s key ≡ (
            if same a s && same (trim (b'k' ∷ b' ' ∷ [])) key
            then some (trim (b'7' ∷ []))
            else get_value [] s key))
read_line_lem_example =
    read_line_lem [] a line b'k' (b' ' ∷ []) (b'7' ∷ []) (λ e. cc) line_trimmed line_parts.0
      line_parts.1 line_parts.2

insert_lem_example :
    (after : Content) × (insert_or_overwrite_value ((a, (k, []) ∷ []) ∷ []) a k (b'8' ∷ [])
      ≡ ok after)
    × ((s key : Bytes)
        → get_value after s key ≡ (
            if same a s && same k key
            then some (b'8' ∷ [])
            else get_value ((a, (k, []) ∷ []) ∷ []) s key))
insert_lem_example = insert_lem ((a, (k, []) ∷ []) ∷ []) a k (b'8' ∷ []) (λ e. cc)

-- The digits of 2147483648, which is no `int`.
abbrev too_large : Bytes
too_large = b'2' ∷ b'1' ∷ b'4' ∷ b'7' ∷ b'4' ∷ b'8' ∷ b'3' ∷ b'6' ∷ b'4' ∷ b'8' ∷ []

checks :
    (check_constraint_int_range (b'-' ∷ b'7' ∷ []) (some (negsuc 9)) none ≡ ok true)
    × (check_constraint_int_range (b'7' ∷ []) (some (pos 8)) none ≡ ok false)
    × (check_constraint_int_range (b'7' ∷ []) (some (pos 8)) (some (pos 1)) ≡ err range_error)
    × (check_constraint_int_range too_large none none ≡ err out_of_range)
unfolding check_constraint_int_range is_int is_digit all_of stoi spaces is_space
checks = (refl, refl, refl, refl)

int_range_lem_example :
    ((negative : Bool) × (ds : Bytes) × Writes too_large negative ds
      × (check_constraint_int_range too_large (some (pos 1)) none ≡ (
          in_int_range negative (digits_value 0 ds) >>= λ v.
          ok (at_least (some (pos 1)) v && at_most none v))))
    ⊎ ((negative : Bool) (ds : Bytes) → ¬ Writes too_large negative ds)
      × (check_constraint_int_range too_large (some (pos 1)) none ≡ ok false)
int_range_lem_example = int_range_lem too_large (some (pos 1)) none refl

-- "On" and an integer, as values.
abbrev settings : Content
settings = (a, (k, b'O' ∷ b'n' ∷ []) ∷ (a, b'7' ∷ []) ∷ []) ∷ []

-- A system without files, directories and time zones, where every date is valid.
abbrev bare : Environment
bare = record {
  is_regular_file = λ s. false;
  is_directory = λ s. false;
  is_zone = λ s. false;
  is_date = λ y m d. true;
}

constraints :
    (get_value_as_bool settings a k ≡ some true)
    × (check_key bare settings a k alnum ≡ ok true)
    × (check_key bare settings a k integer ≡ ok false)
    × (check_data bare settings ([], k, exist) ≡ ok false)
    × (bulk_check_constraints bare settings ((a, k, exist) ∷ (a, a, digit) ∷ []) ≡ ok true)
    × (check_constraint bare exist (b'7' ∷ []) ≡ ok false)
    × (check_constraint bare iso_date
          (b'2' ∷ b'0' ∷ b'2' ∷ b'6' ∷ b'-' ∷ b'1' ∷ b'-' ∷ b'3' ∷ b'1' ∷ [])
        ≡ ok true)
unfolding get_value_as_bool check_key check_data bulk_check_constraints check_optional
    check_constraint get_value find_key is_permitted to_lower replace_all find is_int is_digit
    all_of stoi spaces is_space iso_date_parts cut_at
constraints = (refl, refl, refl, refl, refl, refl, refl)

bool_constraint_lem_example :
    check_key bare settings a k bool ≡ ok (has (get_value_as_bool settings a k))
bool_constraint_lem_example = bool_constraint_lem bare settings a k refl refl

int_range_agrees_example :
    check_key_int_range bare settings a a (some (pos 1)) none
    ≡ if_exists (λ val. check_constraint_int_range val (some (pos 1)) none) (get_value settings a a)
int_range_agrees_example = int_range_agrees bare settings a a (some (pos 1)) none refl refl refl
