-- ===== src/Text/Joined.antt =====
-- Joining what split has cut.
use lib_sloppy.Base.{
  ℕ, zero, suc, ◌+◌, ◌≤◌, ◌≡◌, ◌≢◌, refl, ap, ◌∙◌, inl, inr, true, false, List, [], ◌∷◌, ◌++◌,
  append_assoc, some, Bytes, arith, length, take, length-append, drop-append, ok, ◌==◌,
  Option-cases,
}
use lib_sloppy.Text.Edit.{npos}
use lib_sloppy.Text.Search.{starts_with, find}
use lib_sloppy.Text.Cuts.{intercalate, cut, cut-some, find_here, intercalate-cut}
use lib_sloppy.Text.Split.{split, join_loop, join}
use lib_sloppy.Text.Parts.{split-cut}

intercalate-append :
    (delim a p : Bytes) (parts : List Bytes)
    → intercalate delim ((a ++ p) ∷ parts) ≡ a ++ intercalate delim (p ∷ parts)
intercalate-append delim a p [] = refl
intercalate-append delim a p (q ∷ parts) = append_assoc a p _

-- Once something is written, the loop puts a delimiter in front of each part.
join_loop-intercalate :
    (delim result : Bytes) (parts : List Bytes)
    → result ≢ []
    → join_loop delim result parts ≡ intercalate delim (result ∷ parts)
unfolding join_loop
join_loop-intercalate delim [] parts ne = absurd (ne refl)
join_loop-intercalate delim (c ∷ result) [] ne = refl
join_loop-intercalate delim (c ∷ result) (p ∷ parts) ne =
    let e : (length (c ∷ result) == 0) ≡ false = ground arith in
    rw e (
      join_loop-intercalate delim (((c ∷ result) ++ delim) ++ p) parts (λ e. cc)
      ∙ intercalate-append delim ((c ∷ result) ++ delim) p parts
      ∙ append_assoc (c ∷ result) delim (intercalate delim (p ∷ parts)))

join-intercalate :
    (delim p : Bytes) (parts : List Bytes)
    → p ≢ []
    → join (p ∷ parts) delim ≡ intercalate delim (p ∷ parts)
unfolding join join_loop
join-intercalate delim p parts ne = join_loop-intercalate delim p parts ne

join-nil-cons : (delim : Bytes) (parts : List Bytes) → join ([] ∷ parts) delim ≡ join parts delim
unfolding join join_loop
join-nil-cons delim parts = refl

length-join-le :
    (delim : Bytes) (parts : List Bytes)
    → length (join parts delim) ≤ length (intercalate delim parts)
length-join-le delim [] = unfold join join_loop in omega arith
length-join-le delim ([] ∷ []) = unfold join join_loop in omega arith
length-join-le delim ([] ∷ q ∷ parts) = rw (join-nil-cons delim (q ∷ parts)) (
    omega (
      arith,
      length-join-le delim (q ∷ parts),
      length-append delim (intercalate delim (q ∷ parts)),
    ))
length-join-le delim ((c ∷ p) ∷ parts) =
    rw (join-intercalate delim (c ∷ p) parts (λ e. cc)) (omega arith)

-- The first part is empty only if the string starts with the delimiter.
join-cut :
    (fuel : ℕ) (delim s : Bytes)
    → s ≢ []
    → starts_with delim s ≡ false
    → join (cut (suc fuel) delim s) delim ≡ intercalate delim (cut (suc fuel) delim s)
unfolding cut
join-cut fuel delim [] ne h = absurd (ne refl)
join-cut fuel delim (c ∷ s) ne h = elim (Option-cases (find delim (c ∷ s))) [
  | inl e ↦ rw (e, cut) (join-intercalate delim (c ∷ s) [] (λ x. cc))
  | inr (zero, e) ↦ cc (find_here delim (c ∷ s) e)
  | inr (suc k, e) ↦ rw (e, cut) (join-intercalate delim (take (suc k) (c ∷ s)) _ (λ x. cc))
]

-- Splitting a string that does not start with the delimiter, all parts kept as they are, and
-- joining the parts gives the string back. Neither is empty, and the string is no longer than a
-- string can be.
pub join-split :
    (s delim : Bytes)
    → s ≢ []
    → delim ≢ []
    → length s ≤ npos
    → starts_with delim s ≡ false
    → (parts : List Bytes) × (split s delim true false ≡ some (ok parts)) × (join parts delim ≡ s)
join-split s delim some_s ne fits h = (
  cut (suc (length s)) delim s,
  split-cut s delim some_s ne fits,
  join-cut (length s) delim s some_s h ∙ intercalate-cut (suc (length s)) delim s,
)

starts_with_self : (key s : Bytes) → starts_with key (key ++ s) ≡ true
unfolding starts_with
starts_with_self [] s = refl
starts_with_self (c ∷ key) s = ground (arith, starts_with_self key s)

find_self : (key s : Bytes) → key ≢ [] → find key (key ++ s) ≡ some 0
unfolding find
find_self [] s ne = absurd (ne refl)
find_self (c ∷ key) s ne = ground (arith, starts_with_self (c ∷ key) s)

-- Joining loses a delimiter at the front: of a string that starts with it, split with all parts
-- kept as they are, the join is no longer than what follows that delimiter.
pub join_loses_first :
    (delim rest : Bytes)
    → delim ≢ []
    → length (delim ++ rest) ≤ npos
    → (parts : List Bytes) × (split (delim ++ rest) delim true false ≡ some (ok parts))
      × (length (join parts delim) ≤ length rest)
join_loses_first [] rest ne fits = absurd (ne refl)
join_loses_first (c ∷ delim) rest ne fits = (
  cut (suc n) (c ∷ delim) (c ∷ (delim ++ rest)),
  split-cut (c ∷ (delim ++ rest)) (c ∷ delim) (λ x. cc) ne fits,
  rw shape (
      rw (join-nil-cons (c ∷ delim) (cut n (c ∷ delim) rest)) (
        omega (
          arith,
          length-join-le (c ∷ delim) (cut n (c ∷ delim) rest),
          ap length (intercalate-cut n (c ∷ delim) rest),
        ))),
)
  where
    n : ℕ
    n = suc (length (delim ++ rest))

    shape : cut (suc n) (c ∷ delim) (c ∷ (delim ++ rest)) ≡ [] ∷ cut n (c ∷ delim) rest
    shape =
        let e : 0 + suc (length delim) ≡ suc (length delim) = omega arith in
        cut-some n (c ∷ delim) (c ∷ (delim ++ rest)) 0 (find_self (c ∷ delim) rest ne)
        ∙ rw (e, drop-append delim rest)
