-- ===== src/Text/Split.antt =====
-- split, and the constructor that joins parts.
use lib_sloppy.Base.{
  ℕ, zero, suc, ◌+◌, ◌-◌, Bool, ◌&&◌, not, List, [], ◌∷◌, ◌++◌, Option, none, some, Bytes, length,
  drop, ltb, ◌==◌, if◌then◌else◌, Result, ok, err, invalid_argument,
}
use lib_sloppy.Text.Edit.{slice}
use lib_sloppy.Text.Trim.{trim}
use lib_sloppy.Text.Search.{find_from}

-- A section, with its white space trimmed or not.
abbrev pub trimmed : Bool → Bytes → Bytes
trimmed trim_parts t = if trim_parts then trim t else t

-- The part before a delimiter at `at`: no slice is taken of no characters.
abbrev pub part : Bytes → Bool → ℕ → ℕ → Result Bytes
part s trim_parts start at =
    if ltb start at
    then elim (slice s start (at - 1)) [ ok t ↦ ok (trimmed trim_parts t) | err e ↦ err e ]
    else ok []

abbrev pub push : List Bytes → Bytes → Bool → List Bytes
push result t keep_empty = if length t == 0 && not keep_empty then result else result ++ t ∷ []

-- What follows the loop: the section behind the last delimiter.
abbrev pub last_part : Bytes → Bool → Bool → ℕ → List Bytes → List Bytes
last_part s keep_empty trim_parts start result =
    if ltb start (length s)
    then push result (trimmed trim_parts (drop start s)) keep_empty
    else if start == length s && keep_empty
    then result ++ [] ∷ []
    else result

-- Where the loop finds its next delimiter, if it goes on.
abbrev pub next_delim : Bytes → Bytes → ℕ → Option ℕ
next_delim delim s start = if ltb start (length s) then find_from delim s start else none

-- The loop and what follows it; `none` with no fuel left.
unfoldable pub split_loop :
    ℕ → Bytes → Bytes → Bool → Bool → ℕ → List Bytes → Option (Result (List Bytes))
split_loop zero s delim keep_empty trim_parts start result = none
split_loop (suc fuel) s delim keep_empty trim_parts start result = elim (next_delim delim s start) [
  | none ↦ some (ok (last_part s keep_empty trim_parts start result))
  | some at ↦ elim (part s trim_parts start at) [
    | ok t ↦
        split_loop fuel s delim keep_empty trim_parts (at + length delim) (push result t keep_empty)
    | err e ↦ some (err e)
  ]
]

-- Every round moves `start` forward, and none but the last leaves it at the end.
unfoldable pub split : Bytes → Bytes → Bool → Bool → Option (Result (List Bytes))
unfolding split_loop
split s delim keep_empty trim_parts =
    if length s == 0
    then some (ok [])
    else if length delim == 0
    then some (err invalid_argument)
    else split_loop (suc (length s)) s delim keep_empty trim_parts 0 []

-- The constructor: a delimiter goes in front of a part unless nothing has been written yet.
unfoldable pub join_loop : Bytes → Bytes → List Bytes → Bytes
join_loop delim result [] = result
join_loop delim result (p ∷ parts) =
    join_loop delim ((if length result == 0 then result else result ++ delim) ++ p) parts

unfoldable pub join : List Bytes → Bytes → Bytes
unfolding join_loop
join parts delim = join_loop delim [] parts
