-- ===== src/Csv/HeaderRules.antt =====
-- The rules that checkHeaders applies, stated without its loops.
use lib_sloppy.Base.{
  All, ℕ, zero, suc, ◌≡◌, ◌≢◌, refl, ap, inl, inr, true, false, List, [], ◌∷◌, some, Bytes, arith,
  length, get_elem?, ◌==◌, same, same_iff, Bool-cases,
}
use lib_sloppy.Csv.HeaderMap.{occurs, has_bad_char, check_headers}

-- Names that can be headers: none is empty, repeated, or has a comma or a quotation mark.
abbrev pub IsPlain : ℕ → Type 0
IsPlain c = (c ≢ b',') × (c ≢ b'"')

abbrev pub AreHeaders : List Bytes → Type 0
AreHeaders [] = Unit
AreHeaders (n ∷ names) =
    (n ≢ []) × All IsPlain n × ((i : ℕ) → get_elem? names i ≢ some n) × AreHeaders names

IsPlain-bad : (s : Bytes) → All IsPlain s → has_bad_char s ≡ false
unfolding has_bad_char
IsPlain-bad [] h = refl
IsPlain-bad (c ∷ s) h = ground (arith, h.0, IsPlain-bad s h.1)

bad-IsPlain : (s : Bytes) → has_bad_char s ≡ false → All IsPlain s
unfolding has_bad_char
bad-IsPlain [] h = tt
bad-IsPlain (c ∷ s) h = ((ground (arith, h), ground (arith, h)), bad-IsPlain s (ground (arith, h)))

occurs-get :
    (n : Bytes) (names : List Bytes)
    → occurs n names ≡ true
    → (i : ℕ) × (get_elem? names i ≡ some n)
unfolding occurs
occurs-get n [] h = cc
occurs-get n (x ∷ names) h = elim (Bool-cases (same x n)) [
  | inl e ↦ (0, ap some ((same_iff x n).0 e))
  | inr e ↦ let (i, g) = occurs-get n names (ground (arith, h, e)) in (suc i, g)
]

get-occurs :
    (n : Bytes) (names : List Bytes) (i : ℕ) → get_elem? names i ≡ some n → occurs n names ≡ true
unfolding occurs
get-occurs n [] i h = cc
get-occurs n (x ∷ names) zero h =
    let e : x ≡ n = cc in let k : same x n ≡ true = (same_iff x n).1 e in rw k
get-occurs n (x ∷ names) (suc i) h = ground (arith, get-occurs n names i h)

pub checked-AreHeaders : (names : List Bytes) → check_headers names ≡ true → AreHeaders names
unfolding check_headers
checked-AreHeaders [] h = tt
checked-AreHeaders (n ∷ names) h = (
  λ e. (let z : (length n == 0) ≡ true = rw e refl in ground (arith, h, z)),
  bad-IsPlain n (ground (arith, h)),
  λ i g. (let o = get-occurs n names i g in ground (arith, h, o)),
  checked-AreHeaders names (ground (arith, h)),
)

some_length : (n : Bytes) → n ≢ [] → (length n == 0) ≡ false
some_length [] h = absurd (h refl)
some_length (c ∷ n) h = ground arith

pub AreHeaders-check : (names : List Bytes) → AreHeaders names → check_headers names ≡ true
unfolding check_headers
AreHeaders-check [] h = refl
AreHeaders-check (n ∷ names) h =
    let filled = some_length n h.0 in
    let plain = IsPlain-bad n h.1 in
    let rest = AreHeaders-check names h.3 in
    elim (Bool-cases (occurs n names)) [
      | inl o ↦ let (i, g) = occurs-get n names o in absurd (h.2 i g)
      | inr o ↦ rw (filled, o, plain, rest)
    ]
