-- ===== src/Text/Edit.antt =====
-- Slices and cuts by index.
use lib_sloppy.Base.{
  ℕ, zero, suc, ◌+◌, ◌-◌, ◌<◌, ◌≡◌, refl, min, inl, inr, [], ◌++◌, Bytes, arith, length, take, drop,
  length-take, length-drop, length-append, take-append-drop, take_all, drop_all, take-append,
  drop-append, Bool-cases, append-nil, append_assoc, ltb, leb, ◌==◌, if◌then◌else◌, Result, ok, err,
  invalid_argument,
}

-- `string::npos`.
abbrev pub npos : ℕ
npos = 18446744073709551615

unfoldable pub slice : Bytes → ℕ → ℕ → Result Bytes
slice s first last =
    if ltb last first
    then err invalid_argument
    else if leb (length s) first
    then ok []
    else ok (if last == npos then drop first s else take (last - first + 1) (drop first s))

unfoldable pub right : Bytes → ℕ → Bytes
right s n = if n == 0 then [] else if leb (length s) n then s else take n (drop (length s - n) s)

unfoldable pub left : Bytes → ℕ → Bytes
left s n = if n == 0 then [] else if leb (length s) n then s else take n s

-- chopRight and chopRight_copy, chopLeft and chopLeft_copy.
unfoldable pub chop_right : Bytes → ℕ → Bytes
chop_right s n = if n == 0 then s else if leb (length s) n then [] else take (length s - n) s

unfoldable pub chop_left : Bytes → ℕ → Bytes
chop_left s n = if n == 0 then s else if leb (length s) n then [] else drop n s

-- `erase` of the section, then `insert` at its start.
unfoldable pub replace_section : Bytes → ℕ → ℕ → Bytes → Result Bytes
replace_section s first last t =
    if ltb last first
    then err invalid_argument
    else if leb (length s) first
    then ok (s ++ t)
    else let end = if leb (length s) last then length s - 1 else last in
      let rest = take first s ++ drop (first + (end - first + 1)) s in
      ok (take first rest ++ (t ++ drop first rest))

left-take : (s : Bytes) (n : ℕ) → left s n ≡ take n s
unfolding left
left-take s zero = refl
left-take s (suc n) = ground (arith, take_all (suc n) s)

chop_left-drop : (s : Bytes) (n : ℕ) → chop_left s n ≡ drop n s
unfolding chop_left
chop_left-drop s zero = refl
chop_left-drop s (suc n) = ground (arith, drop_all (suc n) s)

chop_right-right : (s : Bytes) (n : ℕ) → chop_right s n ++ right s n ≡ s
unfolding chop_right right
chop_right-right s n = elim (Bool-cases (n == 0)) [
  | inl z ↦ ground (arith, append-nil s)
  | inr nz ↦ elim (Bool-cases (leb (length s) n)) [
    | inl all ↦ ground arith
    | inr part ↦ ground (
      arith,
      take-append-drop (length s - n) s,
      take_all n (drop (length s - n) s),
      length-drop (length s - n) s,
    )
  ]
]

length-right : (s : Bytes) (n : ℕ) → length (right s n) ≡ min n (length s)
unfolding right
length-right s n =
    ground (arith, length-take n (drop (length s - n) s), length-drop (length s - n) s)

-- For every number of characters, the left part and what is left after it is chopped off make the
-- string, and so do what is left after the right part is chopped off and the right part; the left
-- and the right part have that many characters, or all that there are.
pub parts_make_whole :
    (s : Bytes) (n : ℕ)
    → (left s n ++ chop_left s n ≡ s)
      × (chop_right s n ++ right s n ≡ s)
      × (length (left s n) ≡ min n (length s))
      × (length (right s n) ≡ min n (length s))
parts_make_whole s n = (
  rw (left-take s n, chop_left-drop s n) (take-append-drop n s),
  chop_right-right s n,
  rw (left-take s n) (length-take n s),
  length-right s n,
)

-- A slice from the first to the last index of a part that is not empty, the last one not being
-- `npos`, is that part.
pub slice_lem :
    (before middle after : Bytes) (last : ℕ)
    → 0 < length middle
    → last + 1 ≡ length before + length middle
    → last < npos
    → slice (before ++ (middle ++ after)) (length before) last ≡ ok middle
unfolding slice
slice_lem before middle after last ne e p =
    let count : last - length before + 1 ≡ length middle = omega arith in
    ground (
      arith,
      count,
      drop-append before (middle ++ after),
      take-append middle after,
      length-append before (middle ++ after),
      length-append middle after,
    )

-- Replacing the section from the first to the last index of a part that is not empty replaces that
-- part and nothing else.
pub replace_section_lem :
    (before middle after t : Bytes) (last : ℕ)
    → 0 < length middle
    → last + 1 ≡ length before + length middle
    → replace_section (before ++ (middle ++ after)) (length before) last t
      ≡ ok (before ++ (t ++ after))
unfolding replace_section
replace_section_lem before middle after t last ne e =
    let count : length before + (last - length before + 1) ≡ length (before ++ middle) =
      omega (arith, length-append before middle) in
    let cut : drop (length (before ++ middle)) (before ++ (middle ++ after)) ≡ after =
      rw (← append_assoc before middle after) (drop-append (before ++ middle) after) in
    ground (
      arith,
      count,
      cut,
      take-append before (middle ++ after),
      take-append before after,
      drop-append before after,
      length-append before (middle ++ after),
      length-append middle after,
    )
