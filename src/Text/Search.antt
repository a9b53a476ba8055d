-- ===== src/Text/Search.antt =====
-- Finding and replacing.
use lib_sloppy.Base.{
  ℕ, zero, suc, ◌+◌, Bool, true, false, ◌&&◌, [], ◌∷◌, ◌++◌, Option, none, some, Bytes, length,
  take, drop, ltb, ◌==◌, if◌then◌else◌,
}

unfoldable pub starts_with : Bytes → Bytes → Bool
starts_with [] s = true
starts_with (k ∷ key) [] = false
starts_with (k ∷ key) (c ∷ s) = k == c && starts_with key s

-- `find(key)`: the index of the first occurrence.
unfoldable pub find : Bytes → Bytes → Option ℕ
unfolding starts_with
find key [] = if starts_with key [] then some 0 else none
find key (c ∷ s) =
    if starts_with key (c ∷ s)
    then some 0
    else elim (find key s) [ none ↦ none | some i ↦ some (suc i) ]

-- `find(key, from)`.
unfoldable pub find_from : Bytes → Bytes → ℕ → Option ℕ
find_from key s from =
    if ltb (length s) from
    then none
    else elim (find key (drop from s)) [ none ↦ none | some i ↦ some (from + i) ]

unfoldable pub contains : Bytes → Bytes → Bool
contains s key =
    if length key == 0 then true else elim (find key s) [ none ↦ false | some i ↦ true ]

-- `replace(pos, n, value)`.
abbrev pub replace : Bytes → ℕ → ℕ → Bytes → Bytes
replace s pos n value = take pos s ++ (value ++ drop (pos + n) s)

unfoldable pub replace_first : Bytes → Bytes → Bytes → Bytes × Bool
replace_first s key value =
    if length s == 0
    then (s, false)
    else if length key == 0
    then (s, false)
    else elim (find key s) [
      | none ↦ (s, false)
      | some start ↦ (replace s start (length key) value, true)
    ]

-- The loop of replaceAll: `at` is idxFirst, and `none` with no fuel left.
unfoldable pub replace_loop : ℕ → Bytes → Bytes → Bytes → Option ℕ → Option Bytes
replace_loop fuel key value s none = some s
replace_loop zero key value s (some i) = none
replace_loop (suc fuel) key value s (some i) =
    let t = replace s i (length key) value in
    replace_loop fuel key value t (find_from key t (i + length value))

-- A string as long as the fuel is used up by replacements of keys that are not empty.
unfoldable pub replace_all : Bytes → Bytes → Bytes → Option (Bytes × Bool)
unfolding replace_loop
replace_all s key value =
    if length s == 0
    then some (s, false)
    else if length key == 0
    then some (s, false)
    else elim (find key s) [
      | none ↦ some (s, false)
      | some i ↦ elim (replace_loop (suc (length s)) key value s (some i)) [
        | none ↦ none
        | some t ↦ some (t, true)
      ]
    ]
