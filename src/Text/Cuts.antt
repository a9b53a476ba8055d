-- ===== src/Text/Cuts.antt =====
-- A string cut at every occurrence of a delimiter, from left to right: what split and replaceAll
-- are measured by.
use lib_sloppy.Base.{
  ℕ, zero, suc, ◌+◌, ◌≤◌, ◌<◌, ◌≡◌, ◌≢◌, refl, sym, ap, ◌∙◌, inl, inr, true, false, List, [], ◌∷◌,
  ◌++◌, none, some, Bytes, arith, length, take, drop, length-append, length-drop, All, Option-cases,
}
use lib_sloppy.Text.Search.{starts_with, find}

pub length_pos : (s : Bytes) → s ≢ [] → 0 < length s
length_pos [] ne = absurd (ne refl)
length_pos (x ∷ s) ne = omega arith

-- The parts with the delimiter between them.
abbrev pub intercalate : Bytes → List Bytes → Bytes
intercalate delim [] = []
intercalate delim (p ∷ []) = p
intercalate delim (p ∷ q ∷ parts) = p ++ (delim ++ intercalate delim (q ∷ parts))

unfoldable pub cut : ℕ → Bytes → Bytes → List Bytes
cut zero delim s = s ∷ []
cut (suc fuel) delim s = elim (find delim s) [
  | none ↦ s ∷ []
  | some k ↦ take k s ∷ cut fuel delim (drop (k + length delim) s)
]

pub cut-none : (fuel : ℕ) (delim s : Bytes) → find delim s ≡ none → cut fuel delim s ≡ s ∷ []
unfolding cut
cut-none zero delim s e = refl
cut-none (suc fuel) delim s e = rw (e, cut)

pub cut-some :
    (fuel : ℕ) (delim s : Bytes) (k : ℕ)
    → find delim s ≡ some k
    → cut (suc fuel) delim s ≡ take k s ∷ cut fuel delim (drop (k + length delim) s)
unfolding cut
cut-some fuel delim s k e = rw (e, cut)

pub starts_with-append : (key s : Bytes) → starts_with key s ≡ true → s ≡ key ++ drop (length key) s
unfolding starts_with
starts_with-append [] s h = refl
starts_with-append (k ∷ key) [] h = cc
starts_with-append (k ∷ key) (c ∷ s) h = ground (arith, starts_with-append key s)

starts_with-le : (key s : Bytes) → starts_with key s ≡ true → length key ≤ length s
starts_with-le key s h =
    omega (arith, ap length (starts_with-append key s h), length-append key (drop (length key) s))

-- What `find` says of a string by its first character.
pub find_here : (key s : Bytes) → find key s ≡ some 0 → starts_with key s ≡ true
unfolding find
find_here key [] h = ground arith
find_here key (c ∷ s) h = ground arith

find_later :
    (key : Bytes) (c : ℕ) (s : Bytes) (k : ℕ)
    → find key (c ∷ s) ≡ some (suc k)
    → (starts_with key (c ∷ s) ≡ false) × (find key s ≡ some k)
unfolding find
find_later key c s k h = (ground arith, ground arith)

find_nil : (key : Bytes) (k : ℕ) → find key [] ≢ some (suc k)
unfolding find
find_nil key k h = ground arith

-- What stands at an occurrence.
pub find-append :
    (key s : Bytes) (k : ℕ)
    → find key s ≡ some k
    → (s ≡ take k s ++ (key ++ drop (k + length key) s)) × (k + length key ≤ length s)
find-append key s zero h =
    let e : 0 + length key ≡ length key = omega arith in
    rw e (starts_with-append key s (find_here key s h), starts_with-le key s (find_here key s h))
find-append key [] (suc k) h = absurd (find_nil key k h)
find-append key (c ∷ s) (suc k) h =
    let later = find-append key s k (find_later key c s k h).1 in
    let e : suc k + length key ≡ suc (k + length key) = omega arith in
    rw e (ap (◌∷◌ c) later.0, omega (arith, later.1))

-- A front of a string starts with what the string starts with, or is too short for it.
starts_with-take :
    (key s : Bytes) (k : ℕ) → starts_with key s ≡ false → starts_with key (take k s) ≡ false
unfolding starts_with
starts_with-take [] s k h = cc
starts_with-take (x ∷ key) s zero h = refl
starts_with-take (x ∷ key) [] (suc k) h = refl
starts_with-take (x ∷ key) (c ∷ s) (suc k) h = ground (arith, starts_with-take key s k)

pub find-nil : (key : Bytes) → key ≢ [] → find key [] ≡ none
unfolding find starts_with
find-nil [] ne = absurd (ne refl)
find-nil (x ∷ key) ne = refl

-- There is no occurrence before the first one.
pub find-take :
    (key s : Bytes) (k : ℕ) → key ≢ [] → find key s ≡ some k → find key (take k s) ≡ none
unfolding find
find-take key s zero ne h = find-nil key ne
find-take key [] (suc k) ne h = find-nil key ne
find-take key (c ∷ s) (suc k) ne h =
    let (differs, later) = find_later key c s k h in
    ground (arith, starts_with-take key (c ∷ s) (suc k) differs, find-take key s k ne later)

-- Cutting makes parts that have no delimiter, and that make the string.
pub cut-ne-nil : (fuel : ℕ) (delim s : Bytes) → cut fuel delim s ≢ []
unfolding cut
cut-ne-nil zero delim s h = cc
cut-ne-nil (suc fuel) delim s h = ground arith

pub intercalate-cons :
    (delim p : Bytes) (parts : List Bytes)
    → parts ≢ []
    → intercalate delim (p ∷ parts) ≡ p ++ (delim ++ intercalate delim parts)
intercalate-cons delim p [] ne = absurd (ne refl)
intercalate-cons delim p (q ∷ parts) ne = refl

pub intercalate-cut : (fuel : ℕ) (delim s : Bytes) → intercalate delim (cut fuel delim s) ≡ s
unfolding cut
intercalate-cut zero delim s = refl
intercalate-cut (suc fuel) delim s = elim (Option-cases (find delim s)) [
  | inl e ↦ rw (e, cut)
  | inr (k, e) ↦
      let rest = drop (k + length delim) s in
      rw (e, cut)
        (intercalate-cons delim (take k s) (cut fuel delim rest) (cut-ne-nil fuel delim rest)
          ∙ ap (λ t. take k s ++ (delim ++ t)) (intercalate-cut fuel delim rest)
          ∙ sym (find-append delim s k e).0)
]

abbrev pub HasNo : Bytes → Bytes → Type 0
HasNo delim p = find delim p ≡ none

-- With enough fuel.
pub cut-HasNo :
    (fuel : ℕ) (delim s : Bytes)
    → delim ≢ []
    → length s < fuel
    → All (HasNo delim) (cut fuel delim s)
unfolding cut
cut-HasNo zero delim s ne h = elim h [ ]
cut-HasNo (suc fuel) delim s ne h = elim (Option-cases (find delim s)) [
  | inl e ↦ rw (e, cut) (e, tt)
  | inr (k, e) ↦
      rw (e, cut)
        (
          find-take delim s k ne e,
          cut-HasNo fuel delim (drop (k + length delim) s) ne (
              omega (
                arith,
                length-drop (k + length delim) s,
                (find-append delim s k e).1,
                length_pos delim ne,
              )),
        )
]
