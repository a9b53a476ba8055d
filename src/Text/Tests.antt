-- ===== src/Text/Tests.antt =====
-- Small strings, and the theorems about strings at them.
use lib_sloppy.Base.{
  undefined_behaviour, ◌≢◌, ◌≡◌, ◌≤◌, refl, Bool, true, false, List, [], ◌∷◌, some, Bytes, arith,
  length, Error, ok, err, All,
}
use lib_sloppy.Base.Int.{negsuc}
use Prim.Native.Char.{code}
use Prim.Native.String.{String}
use lib_sloppy.Text.Edit.{slice}
use lib_sloppy.Text.Trim.{trim, trim_left, trim_right, spaces, is_space}
use lib_sloppy.Text.Search.{replace_all, find, find_from, contains, starts_with, replace_first}
use lib_sloppy.Text.Split.{split, join}
use lib_sloppy.Text.Cuts.{intercalate, HasNo}
use lib_sloppy.Text.Parts.{split_lem, selected}
use lib_sloppy.Text.Joined.{join-split, join_loses_first}
use lib_sloppy.Text.Replaced.{replace_all-split}
use lib_sloppy.Text.Numbers.{is_int, is_double, is_digit, all_of, stoi, count}
use lib_sloppy.Text.Tags.{arg_percent_at_end}
use lib_sloppy.Text.Args.{arg, find_all_arg_tags}

-- The bytes of an ASCII text.
abbrev codes : String → Bytes
codes String.[] = []
codes (String.◌∷◌ c s) = code c ∷ codes s

splits :
    (split (codes "a, b,,") (codes ",") true false
      ≡ some (ok (codes "a" ∷ codes " b" ∷ [] ∷ [] ∷ [])))
    × (split (codes "a, b,,") (codes ",") false true ≡ some (ok (codes "a" ∷ codes "b" ∷ [])))
unfolding split slice trim trim_left trim_right spaces is_space find_from find
splits = (refl, refl)

replaces : replace_all (codes "aXbXX") (codes "X") (codes "XY") ≡ some (codes "aXYbXYXY", true)
unfolding replace_all find find_from
replaces = refl

replaces_first :
    (replace_first (codes "aXbX") (codes "X") (codes "YY") ≡ (codes "aYYbX", true))
    × (replace_first (codes "ab") (codes "X") (codes "Y") ≡ (codes "ab", false))
unfolding replace_first find
replaces_first = (refl, refl)

args :
    (arg (codes "%2 und %1%1!") (codes "x") ≡ ok (codes "%2 und xx!"))
    × (arg (codes "100% sure") (codes "x") ≡ ok (codes "100% sure"))
unfolding arg find_all_arg_tags stoi slice spaces is_space is_digit
args = (refl, refl)

numbers :
    (is_int (codes "-42") ≡ true)
    × (is_int (codes "-") ≡ false)
    × (is_double (codes "4.2") ≡ true)
    × (stoi (codes " -42x") ≡ ok (negsuc 41))
unfolding is_int is_double is_digit all_of count stoi spaces is_space
numbers = (refl, refl, refl, refl)

split_lem_example :
    (parts : List Bytes) × (intercalate (codes ", ") parts ≡ codes "a, b, ")
    × All (HasNo (codes ", ")) parts
    × ((keep_empty trim_parts : Bool)
        → split (codes "a, b, ") (codes ", ") keep_empty trim_parts
          ≡ some (ok (selected keep_empty trim_parts parts)))
split_lem_example = split_lem (codes "a, b, ") (codes ", ") (λ e. cc) (λ e. cc) (omega arith)

starts_otherwise : starts_with (codes "-") (codes "a--b") ≡ false
unfolding starts_with
starts_otherwise = refl

join-split_example :
    (parts : List Bytes) × (split (codes "a--b") (codes "-") true false ≡ some (ok parts))
    × (join parts (codes "-") ≡ codes "a--b")
join-split_example =
    join-split (codes "a--b") (codes "-") (λ e. cc) (λ e. cc) (omega arith) starts_otherwise

join_loses_first_example :
    (parts : List Bytes) × (split (codes "-a-b") (codes "-") true false ≡ some (ok parts))
    × (length (join parts (codes "-")) ≤ length (codes "a-b"))
join_loses_first_example = join_loses_first (codes "-") (codes "a-b") (λ e. cc) (omega arith)

replace_all-split_example :
    (parts : List Bytes) × (split (codes "aXb") (codes "X") true false ≡ some (ok parts))
    × (replace_all (codes "aXb") (codes "X") (codes "XX")
        ≡ some (intercalate (codes "XX") parts, contains (codes "aXb") (codes "X")))
replace_all-split_example =
    replace_all-split (codes "aXb") (codes "X") (codes "XX") (λ e. cc) (λ e. cc) (omega arith)

minus_accepted : is_int (codes "-2147483649") ≡ true
unfolding is_int is_digit all_of
minus_accepted = refl

arg_percent_at_end_example :
    (e : Error) × (arg (codes "%1: 100%") (codes "x") ≡ err e) × (e ≢ undefined_behaviour)
arg_percent_at_end_example = arg_percent_at_end (codes "%1: 100") (codes "x") (omega arith)
