-- ===== src/Csv/HeaderMap.antt =====
-- The map from the headers of a table to column indices: a list of pairs, of which nothing depends
-- on the order.
use lib_sloppy.Base.{
  ℕ, zero, suc, ◌+◌, ◌-◌, Bool, true, false, ◌||◌, List, [], ◌∷◌, ◌++◌, Option, none, some, Bytes,
  length, ◌==◌, same, if◌then◌else◌, Result, ok, err, undefined_behaviour,
}

abbrev pub Headers : Type 0
Headers = List (Bytes × ℕ)

-- `find_if` by the column index: the key of the entry.
unfoldable pub find_header : ℕ → Headers → Option Bytes
find_header idx [] = none
find_header idx (e ∷ h) = if e.1 == idx then some e.0 else find_header idx h

unfoldable pub lookup : Bytes → Headers → Option ℕ
unfolding same
lookup name [] = none
lookup name (e ∷ h) = if same e.0 name then some e.1 else lookup name h

-- `erase` of a key, `emplace` of a new one, and assignment through `operator[]`.
unfoldable pub erase_header : Bytes → Headers → Headers
unfolding same
erase_header name [] = []
erase_header name (e ∷ h) = (if same e.0 name then [] else e ∷ []) ++ erase_header name h

unfoldable pub emplace_header : Bytes → ℕ → Headers → Headers
unfolding lookup
emplace_header name idx h = elim (lookup name h) [ none ↦ (name, idx) ∷ h | some i ↦ h ]

unfoldable pub assign_header : Bytes → ℕ → Headers → Headers
unfolding erase_header
assign_header name idx h = (name, idx) ∷ erase_header name h

unfoldable pub has_bad_char : Bytes → Bool
has_bad_char [] = false
has_bad_char (c ∷ s) = (c == b',' || c == b'"') || has_bad_char s

unfoldable pub occurs : Bytes → List Bytes → Bool
unfolding same
occurs s [] = false
occurs s (x ∷ xs) = same x s || occurs s xs

-- The loop that checks each header and looks for it behind its position.
unfoldable pub check_headers : List Bytes → Bool
unfolding occurs has_bad_char
check_headers [] = true
check_headers (hdr ∷ rest) =
    if length hdr == 0
    then false
    else if occurs hdr rest
    then false
    else if has_bad_char hdr
    then false
    else check_headers rest

unfoldable pub number_headers : List Bytes → ℕ → Headers → Headers
unfolding emplace_header
number_headers [] idx h = h
number_headers (hdr ∷ rest) idx h = number_headers rest (idx + 1) (emplace_header hdr idx h)

-- The loop that moves `n` headers, from that of column `idx` on, one column to the left.
unfoldable pub shift_headers : ℕ → ℕ → Headers → Result Headers
unfolding find_header assign_header
shift_headers zero idx h = ok h
shift_headers (suc n) idx h = elim (find_header idx h) [
  | none ↦ err undefined_behaviour
  | some name ↦ shift_headers n (idx + 1) (assign_header name (idx - 1) h)
]

unfoldable pub erase_from_headers : ℕ → ℕ → Headers → Result Headers
unfolding find_header erase_header shift_headers
erase_from_headers col_count col_idx h =
    if length h == 0 then ok h else elim (find_header col_idx h) [
      | none ↦ err undefined_behaviour
      | some name ↦ shift_headers (col_count - (col_idx + 1)) (col_idx + 1) (erase_header name h)
    ]
