-- ===== src/Text/Parts.antt =====
-- What split and the joining constructor make of the parts of a string.
use lib_sloppy.Base.{
  ℕ, zero, suc, ◌+◌, ◌-◌, ◌≤◌, ◌<◌, ◌≡◌, ◌≢◌, refl, sym, ap, ◌∙◌, inl, inr, Bool, true, false, List,
  [], ◌∷◌, ◌++◌, append_assoc, append-nil, none, some, Bytes, arith, length, take, drop,
  length-drop, drop-drop, drop_all, All, ok, Option-cases,
}
use lib_sloppy.Text.Edit.{npos, slice}
use lib_sloppy.Text.Trim.{trim-nil}
use lib_sloppy.Text.Search.{find, find_from}
use lib_sloppy.Text.Cuts.{
  intercalate, cut, HasNo, find-append, intercalate-cut, cut-HasNo, length_pos,
}
use lib_sloppy.Text.Split.{part, push, trimmed, last_part, next_delim, split_loop, split}

-- The parts that are kept, each trimmed or not.
abbrev pub selected : Bool → Bool → List Bytes → List Bytes
selected keep_empty trim_parts [] = []
selected keep_empty trim_parts (p ∷ parts) =
    push [] (trimmed trim_parts p) keep_empty ++ selected keep_empty trim_parts parts

push-append :
    (result : List Bytes) (t : Bytes) (keep_empty : Bool)
    → push result t keep_empty ≡ result ++ push [] t keep_empty
push-append result t keep_empty = ground (arith, append-nil result)

module _ (s delim : Bytes) (ne : delim ≢ []) (fits : length s ≤ npos)
    (keep_empty trim_parts : Bool) where
  -- The part before the next delimiter, `k` characters on.
  part-take :
      (start k : ℕ)
      → start + k < length s
      → part s trim_parts start (start + k) ≡ ok (trimmed trim_parts (take k (drop start s)))
  unfolding slice
  part-take start zero h =
      let e : start + 0 ≡ start = omega arith in rw e (ground (arith, trim-nil))
  part-take start (suc k) h =
      let count : start + suc k - 1 - start + 1 ≡ suc k = omega arith in ground (arith, count)

  last_part-selected :
      (start : ℕ) (result : List Bytes)
      → start ≤ length s
      → last_part s keep_empty trim_parts start result
        ≡ result ++ selected keep_empty trim_parts (drop start s ∷ [])
  last_part-selected start result h = ground (
    arith,
    drop_all start s,
    trim-nil,
    push-append result (trimmed trim_parts (drop start s)) keep_empty,
    append-nil (push [] (trimmed trim_parts (drop start s)) keep_empty),
    append-nil result,
  )

  next_delim-none : (start : ℕ) → find delim (drop start s) ≡ none → next_delim delim s start ≡ none
  unfolding find_from
  next_delim-none start e = ground arith

  next_delim-some :
      (start k : ℕ)
      → find delim (drop start s) ≡ some k
      → (next_delim delim s start ≡ some (start + k))
        × (start + k < length s)
        × (start + k + length delim ≤ length s)
  unfolding find_from
  next_delim-some start k e =
      let room : k + length delim ≤ length s - start =
        omega (arith, (find-append delim (drop start s) k e).1, length-drop start s) in
      (
        ground (arith, length_pos delim ne, room),
        omega (arith, length_pos delim ne, room),
        omega (arith, length_pos delim ne, room),
      )

  split_loop-cut :
      (fuel start : ℕ) (result : List Bytes)
      → start ≤ length s
      → length s - start < fuel
      → split_loop fuel s delim keep_empty trim_parts start result
        ≡ some (ok (result ++ selected keep_empty trim_parts (cut fuel delim (drop start s))))
  unfolding split_loop cut
  split_loop-cut zero start result h f = elim f [ ]
  split_loop-cut (suc fuel) start result h f = elim (Option-cases (find delim (drop start s))) [
    | inl e ↦ ground (arith, next_delim-none start e, last_part-selected start result h)
    | inr (k, e) ↦
        let t = trimmed trim_parts (take k (drop start s)) in
        let (found, inside, room) = next_delim-some start k e in
        let rest = drop (k + length delim) (drop start s) in
        let same_rest : drop (start + k + length delim) s ≡ rest =
          let sum : start + k + length delim ≡ start + (k + length delim) = omega arith in
          ap (λ n. drop n s) sum ∙ sym (drop-drop (k + length delim) start s) in
        let later : split_loop fuel s delim keep_empty trim_parts (start + k + length delim)
              (push result t keep_empty)
            ≡ some (
                ok (
                  push result t keep_empty
                  ++ selected keep_empty trim_parts (cut fuel delim rest))) =
          split_loop-cut fuel (start + k + length delim) (push result t keep_empty) room
            (omega (arith, length_pos delim ne))
          ∙ rw same_rest in
        ground (
          arith,
          part-take start k inside,
          push-append result t keep_empty,
          append_assoc result (push [] t keep_empty)
              (selected keep_empty trim_parts (cut fuel delim rest)),
        )
  ]

split-selected :
    (s delim : Bytes) (keep_empty trim_parts : Bool)
    → s ≢ []
    → delim ≢ []
    → length s ≤ npos
    → split s delim keep_empty trim_parts
      ≡ some (ok (selected keep_empty trim_parts (cut (suc (length s)) delim s)))
unfolding split
split-selected s delim keep_empty trim_parts some_s ne fits = ground (
  arith,
  length_pos s some_s,
  length_pos delim ne,
  split_loop-cut s delim ne fits keep_empty trim_parts (suc (length s)) 0 [] (omega arith)
      (omega arith),
)

-- A string that is not empty has parts without the delimiter, which must not be empty either, that
-- make the string with the delimiter between them; split returns these parts, in order, trimmed or
-- not, with or without those that are then empty. The string is as long as a string can be at most.
pub split_lem :
    (s delim : Bytes)
    → s ≢ []
    → delim ≢ []
    → length s ≤ npos
    → (parts : List Bytes) × (intercalate delim parts ≡ s)
      × All (HasNo delim) parts
      × ((keep_empty trim_parts : Bool)
          → split s delim keep_empty trim_parts ≡ some (ok (selected keep_empty trim_parts parts)))
split_lem s delim some_s ne fits = (
  cut (suc (length s)) delim s,
  intercalate-cut (suc (length s)) delim s,
  cut-HasNo (suc (length s)) delim s ne (omega arith),
  λ keep_empty trim_parts. split-selected s delim keep_empty trim_parts some_s ne fits,
)

selected_all : (parts : List Bytes) → selected true false parts ≡ parts
selected_all [] = refl
selected_all (p ∷ parts) = ground (arith, selected_all parts)

pub split-cut :
    (s delim : Bytes)
    → s ≢ []
    → delim ≢ []
    → length s ≤ npos
    → split s delim true false ≡ some (ok (cut (suc (length s)) delim s))
split-cut s delim some_s ne fits =
    split-selected s delim true false some_s ne fits
    ∙ ap (λ ps. some (ok ps)) (selected_all (cut (suc (length s)) delim s))
