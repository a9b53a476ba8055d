-- ===== src/Text/Trim.antt =====
-- trimLeft, trimRight and trim.
use mathlib.Core.List.{reverse-append, reverse-reverse, reverse-cons}
use lib_sloppy.Base.{
  ℕ, suc, ◌-◌, ◌≤◌, ◌≡◌, refl, sym, ap, ◌∙◌, Bool, true, false, ◌&&◌, ◌||◌, [], ◌∷◌, ◌++◌, reverse,
  Bytes, arith, length, take, drop, take-append-drop, drop_all, length-reverse, take-reverse, All,
  All-append, leb, ◌==◌, if◌then◌else◌, Bool-cases, inl, inr,
}

-- `isspace`.
unfoldable pub is_space : ℕ → Bool
is_space c = c == 32 || (leb 9 c && leb c 13)

-- The distance to the iterator that `find_if_not` returns for `isspace`.
unfoldable pub spaces : Bytes → ℕ
spaces [] = 0
spaces (c ∷ s) = if is_space c then suc (spaces s) else 0

-- What the distance `k` of the first other character makes of the string.
unfoldable pub trim_left : Bytes → Bytes
trim_left s = if spaces s == 0 then s else if spaces s == length s then [] else drop (spaces s) s

-- The same through reverse iterators.
unfoldable pub trim_right : Bytes → Bytes
trim_right s =
    if spaces (reverse s) == 0
    then s
    else if spaces (reverse s) == length s
    then []
    else take (length s - spaces (reverse s)) s

unfoldable pub trim : Bytes → Bytes
trim s = trim_right (trim_left s)

abbrev pub IsSpace : ℕ → Type 0
IsSpace c = is_space c ≡ true

-- A string splits at its first character that is no space.
spaces_split :
    (s : Bytes)
    → All IsSpace (take (spaces s) s) × (spaces (drop (spaces s) s) ≡ 0) × (spaces s ≤ length s)
unfolding spaces
spaces_split [] = (tt, refl, omega arith)
spaces_split (c ∷ s) = elim (Bool-cases (is_space c)) [
  | inl e ↦ rw e ((e, (spaces_split s).0), (spaces_split s).1, omega (arith, (spaces_split s).2))
  | inr e ↦ rw e (tt, rw e, omega arith)
]

trim_left-drop : (s : Bytes) → trim_left s ≡ drop (spaces s) s
unfolding trim_left
trim_left-drop s = ground (arith, drop_all (spaces s) s)

-- The last characters of a string as the first of its reverse.
trim_right-reverse : (s : Bytes) → trim_right s ≡ reverse (drop (spaces (reverse s)) (reverse s))
unfolding trim_right
trim_right-reverse s = elim (Bool-cases (spaces (reverse s) == 0)) [
  | inl e ↦ ground (arith, reverse-reverse s)
  | inr e ↦ elim (Bool-cases (spaces (reverse s) == length s)) [
    | inl f ↦ ground (arith, drop_all (spaces (reverse s)) (reverse s), length-reverse s)
    | inr f ↦ ground (arith, take-reverse (spaces (reverse s)) s)
  ]
]

-- `s` splits into spaces, a part with no space at either end, and spaces.
pub record IsTrimmed (s t : Bytes) : Type 0 where
  pub before : Bytes
  pub after : Bytes
  pub splits : s ≡ before ++ (t ++ after)
  pub spaces_before : All IsSpace before
  pub spaces_after : All IsSpace after
  pub no_space_first : spaces t ≡ 0
  pub no_space_last : spaces (reverse t) ≡ 0

All-reverse : (P : ℕ → Type 0) (xs : Bytes) → All P xs → All P (reverse xs)
All-reverse P [] h = tt
All-reverse P (x ∷ xs) h =
    rw (reverse-cons x xs) (All-append P (reverse xs) (x ∷ []) (All-reverse P xs h.1) (h.0, tt))

-- The front of a string with no space first has no space first.
spaces_front : (t u : Bytes) → spaces (t ++ u) ≡ 0 → spaces t ≡ 0
unfolding spaces
spaces_front [] u h = refl
spaces_front (c ∷ t) u h = ground arith

-- `trim` takes the spaces off both ends, and nothing else.
pub trim-IsTrimmed : (s : Bytes) → IsTrimmed s (trim s)
unfolding trim
trim-IsTrimmed s =
    let t = trim_left s in
    let r = reverse t in
    let k = spaces r in
    let whole : trim s ++ reverse (take k r) ≡ t = rw (trim_right-reverse t) (
      sym (reverse-append (take k r) (drop k r))
      ∙ ap reverse (take-append-drop k r)
      ∙ reverse-reverse t) in
    record {
      before = take (spaces s) s;
      after = reverse (take k r);
      splits =
          sym (take-append-drop (spaces s) s)
          ∙ ap (◌++◌ (take (spaces s) s)) (sym (trim_left-drop s) ∙ sym whole);
      spaces_before = (spaces_split s).0;
      spaces_after = All-reverse IsSpace (take k r) (spaces_split r).0;
      no_space_first =
          spaces_front (trim s) (reverse (take k r))
            (ap spaces (whole ∙ trim_left-drop s) ∙ (spaces_split s).1);
      no_space_last =
          ap spaces (ap reverse (trim_right-reverse t) ∙ reverse-reverse (drop k r))
          ∙ (spaces_split r).1;
    }

pub trim_bare : (t : Bytes) → spaces t ≡ 0 → spaces (reverse t) ≡ 0 → trim t ≡ t
unfolding trim trim_right trim_left
trim_bare t h k = ground arith

-- Trimming twice is trimming once.
pub trim_idem : (s : Bytes) → trim (trim s) ≡ trim s
trim_idem s = let i = trim-IsTrimmed s in trim_bare (trim s) i.no_space_first i.no_space_last

pub trim-nil : trim [] ≡ []
unfolding trim trim_right trim_left spaces
trim-nil = refl

abbrev pub IsNoSpace : ℕ → Type 0
IsNoSpace c = is_space c ≡ false

spaces_none : (s : Bytes) → All IsNoSpace s → spaces s ≡ 0
unfolding spaces
spaces_none [] h = refl
spaces_none (c ∷ s) h = rw h.0

-- A string without spaces is trimmed.
pub trim_solid : (s : Bytes) → All IsNoSpace s → trim s ≡ s
trim_solid s h = trim_bare s (spaces_none s h) (spaces_none (reverse s) (All-reverse IsNoSpace s h))

spaces-le : (s : Bytes) → All IsSpace s → spaces s ≡ length s
unfolding spaces
spaces-le [] h = refl
spaces-le (c ∷ s) h = rw h.0 (ap suc (spaces-le s h.1))

-- Of white space alone nothing is left.
pub trim-spaces_only : (s : Bytes) → All IsSpace s → trim s ≡ []
unfolding trim
trim-spaces_only s h =
    ap trim_right
      (trim_left-drop s ∙ ap (λ n. drop n s) (spaces-le s h) ∙ drop_all (length s) s (omega arith))
    ∙ unfold trim_right spaces in refl
