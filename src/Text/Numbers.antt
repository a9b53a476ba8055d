-- ===== src/Text/Numbers.antt =====
-- isInt and isDouble, and `std::stoi`, which the callers of isInt read the number with.
use lib_sloppy.Base.{
  ℕ, zero, suc, ◌+◌, ◌-◌, ◌*◌, ◌≡◌, ◌≢◌, refl, Bool, true, false, ◌&&◌, ◌||◌, inl, inr, [], ◌∷◌,
  Bytes, arith, length, drop, All, ltb, leb, ◌==◌, same, if◌then◌else◌, Bool-cases, ==_iff, Result,
  Error, undefined_behaviour, sym, ◌∙◌, ok, err, invalid_argument, out_of_range,
}
use lib_sloppy.Base.Int.{ℤ, pos, negsuc}
use lib_sloppy.Text.Trim.{spaces, is_space}

unfoldable pub is_digit : ℕ → Bool
is_digit c = leb b'0' c && leb c b'9'

-- `all_of`.
unfoldable pub all_of : (ℕ → Bool) → Bytes → Bool
all_of p [] = true
all_of p (c ∷ s) = p c && all_of p s

-- `count` of one character.
unfoldable pub count : ℕ → Bytes → ℕ
count a [] = 0
count a (c ∷ s) = (if c == a then 1 else 0) + count a s

-- A byte above 127 is passed on as a large unsigned number, and is no digit.
unfoldable pub is_int : Bytes → Bool
unfolding is_digit all_of
is_int [] = false
is_int (c ∷ s) =
    if c == b'-'
    then (if ltb (length (c ∷ s)) 2 then false else all_of is_digit s)
    else all_of is_digit (c ∷ s)

abbrev pub digit_or_dot : ℕ → Bool
digit_or_dot c = is_digit c || c == b'.'

unfoldable pub is_double : Bytes → Bool
unfolding is_digit all_of count same
is_double [] = false
is_double (c ∷ s) =
    if c == b'-' && ltb (length (c ∷ s)) 2
    then false
    else if same (c ∷ s) (b'.' ∷ [])
    then false
    else if same (c ∷ s) (b'-' ∷ b'.' ∷ [])
    then false
    else if same (c ∷ s) (b'.' ∷ b'-' ∷ [])
    then false
    else if ltb 1 (count b'.' (c ∷ s))
    then false
    else all_of digit_or_dot (if c == b'-' then s else c ∷ s)

-- The digits at the front, and their value behind those read before.
unfoldable pub take_digits : Bytes → Bytes
unfolding is_digit
take_digits [] = []
take_digits (c ∷ s) = if is_digit c then c ∷ take_digits s else []

unfoldable pub digits_value : ℕ → Bytes → ℕ
digits_value acc [] = acc
digits_value acc (c ∷ s) = digits_value (acc * 10 + (c - b'0')) s

-- A 32-bit `int`.
unfoldable pub in_int_range : Bool → ℕ → Result ℤ
in_int_range true zero = ok (pos 0)
in_int_range true (suc n) = if ltb n 2147483648 then ok (negsuc n) else err out_of_range
in_int_range false n = if ltb n 2147483648 then ok (pos n) else err out_of_range

abbrev read_digits : Bool → Bytes → Result ℤ
read_digits negative ds =
    if length ds == 0 then err invalid_argument else in_int_range negative (digits_value 0 ds)

read_sign : Bytes → Result ℤ
unfolding take_digits digits_value in_int_range
read_sign [] = err invalid_argument
read_sign (c ∷ s) =
    if c == b'-'
    then read_digits true (take_digits s)
    else if c == b'+'
    then read_digits false (take_digits s)
    else read_digits false (take_digits (c ∷ s))

-- `std::stoi`: white space, a sign, digits; what follows is not looked at.
unfoldable pub stoi : Bytes → Result ℤ
unfolding read_sign
stoi s = read_sign (drop (spaces s) s)

-- What these throw are exceptions.
range_thrown :
    (negative : Bool) (n : ℕ) (e : Error)
    → in_int_range negative n ≡ err e
    → e ≢ undefined_behaviour
unfolding in_int_range
range_thrown true zero e h u = cc
range_thrown true (suc n) e h u = ground (arith, h, u)
range_thrown false n e h u = ground (arith, h, u)

digits_thrown :
    (negative : Bool) (ds : Bytes) (e : Error)
    → read_digits negative ds ≡ err e
    → e ≢ undefined_behaviour
digits_thrown negative ds e h u = elim (Bool-cases (length ds == 0)) [
  | inl z ↦ ground (arith, h, u, z)
  | inr z ↦ range_thrown negative (digits_value 0 ds) e (sym (rw z refl) ∙ h) u
]

sign_thrown : (s : Bytes) (e : Error) → read_sign s ≡ err e → e ≢ undefined_behaviour
unfolding read_sign
sign_thrown [] e h u = ground (arith, h, u)
sign_thrown (c ∷ s) e h u = elim (Bool-cases (c == b'-')) [
  | inl m ↦ digits_thrown true (take_digits s) e (sym (rw m refl) ∙ h) u
  | inr m ↦ elim (Bool-cases (c == b'+')) [
    | inl p ↦ digits_thrown false (take_digits s) e (sym (rw (m, p) refl) ∙ h) u
    | inr p ↦ digits_thrown false (take_digits (c ∷ s)) e (sym (rw (m, p) refl) ∙ h) u
  ]
]

pub stoi_thrown : (s : Bytes) (e : Error) → stoi s ≡ err e → e ≢ undefined_behaviour
unfolding stoi
stoi_thrown s e h = sign_thrown (drop (spaces s) s) e h

abbrev pub IsDigit : ℕ → Type 0
IsDigit c = is_digit c ≡ true

all_of-All : (s : Bytes) → all_of is_digit s ≡ true → All IsDigit s
unfolding all_of
all_of-All [] h = tt
all_of-All (c ∷ s) h = (ground arith, all_of-All s (ground arith))

pub take_digits-All : (s : Bytes) → All IsDigit s → take_digits s ≡ s
unfolding take_digits
take_digits-All [] h = refl
take_digits-All (c ∷ s) h = ground (arith, take_digits-All s h.1)

spaces-digits : (c : ℕ) (s : Bytes) → is_digit c ≡ true → spaces (c ∷ s) ≡ 0
unfolding spaces is_space is_digit
spaces-digits c s h = ground arith

nonempty_length : (s : Bytes) → s ≢ [] → (length s == 0) ≡ false
nonempty_length [] ne = absurd (ne refl)
nonempty_length (c ∷ s) ne = ground arith

stoi_minus :
    (s : Bytes) → All IsDigit s → s ≢ [] → stoi (b'-' ∷ s) ≡ in_int_range true (digits_value 0 s)
unfolding stoi spaces is_space
stoi_minus s d ne = rw (take_digits-All s d, nonempty_length s ne)

stoi_digits :
    (c : ℕ) (s : Bytes)
    → All IsDigit (c ∷ s)
    → stoi (c ∷ s) ≡ in_int_range false (digits_value 0 (c ∷ s))
unfolding stoi is_digit
stoi_digits c s d =
    let minus : (c == b'-') ≡ false = ground arith in
    let plus : (c == b'+') ≡ false = ground arith in
    rw (spaces-digits c s d.0, minus, plus, take_digits-All (c ∷ s) d) (ground arith)

-- A string that isInt accepts is an optional minus sign and digits, at least one; what stoi makes
-- of it is the number that these write, if it is in the range of `int`, and otherwise the exception
-- out_of_range.
pub is_int-stoi :
    (s : Bytes)
    → is_int s ≡ true
    → (negative : Bool) × (ds : Bytes) × (s ≡ (if negative then b'-' ∷ ds else ds))
      × All IsDigit ds
      × (ds ≢ [])
      × (stoi s ≡ in_int_range negative (digits_value 0 ds))
unfolding is_int
is_int-stoi [] h = cc
is_int-stoi (c ∷ s) h = elim (Bool-cases (c == b'-')) [
  | inl m ↦ (
    true,
    s,
    ground arith,
    all_of-All s (ground arith),
    ground arith,
    ground (arith, stoi_minus s (all_of-All s (ground arith)) (ground arith)),
  )
  | inr p ↦ (
    false,
    c ∷ s,
    refl,
    all_of-All (c ∷ s) (ground arith),
    (λ e. cc),
    stoi_digits c s (all_of-All (c ∷ s) (ground arith)),
  )
]

digits_no_dot : (s : Bytes) → All IsDigit s → (all_of digit_or_dot s ≡ true) × (count b'.' s ≡ 0)
unfolding all_of count is_digit
digits_no_dot [] d = (refl, refl)
digits_no_dot (c ∷ s) d = ground (arith, digits_no_dot s d.1)

-- No digits are any of the strings that isDouble excludes.
digits_are_no_dots :
    (c : ℕ) (s : Bytes)
    → All IsDigit (c ∷ s)
    → (same (c ∷ s) (b'.' ∷ []) ≡ false)
      × (same (c ∷ s) (b'-' ∷ b'.' ∷ []) ≡ false)
      × (same (c ∷ s) (b'.' ∷ b'-' ∷ []) ≡ false)
unfolding same is_digit
digits_are_no_dots c s d = (ground arith, ground arith, ground arith)

minus_digits_are_no_dots :
    (s : Bytes)
    → All IsDigit s
    → (same (b'-' ∷ s) (b'.' ∷ []) ≡ false)
      × (same (b'-' ∷ s) (b'-' ∷ b'.' ∷ []) ≡ false)
      × (same (b'-' ∷ s) (b'.' ∷ b'-' ∷ []) ≡ false)
unfolding same is_digit
minus_digits_are_no_dots [] d = (refl, refl, refl)
minus_digits_are_no_dots (c ∷ s) d = (refl, ground arith, refl)

-- What is an integer for isInt is a number for isDouble.
pub is_int-is_double : (s : Bytes) → is_int s ≡ true → is_double s ≡ true
unfolding is_int is_double
is_int-is_double [] h = cc
is_int-is_double (c ∷ s) h = elim (Bool-cases (c == b'-')) [
  | inl m ↦
      let d = all_of-All s (ground arith) in
      let e : c ≡ b'-' = (==_iff c b'-').0 m in
      let nd = minus_digits_are_no_dots s d in
      let n1 : same (c ∷ s) (b'.' ∷ []) ≡ false = rw e nd.0 in
      let n2 : same (c ∷ s) (b'-' ∷ b'.' ∷ []) ≡ false = rw e nd.1 in
      let n3 : same (c ∷ s) (b'.' ∷ b'-' ∷ []) ≡ false = rw e nd.2 in
      let k : count b'.' (c ∷ s) ≡ 0 = unfold count in ground (arith, digits_no_dot s d) in
      ground (arith, digits_no_dot s d)
  | inr p ↦
      let d = all_of-All (c ∷ s) (ground arith) in
      let nd = digits_are_no_dots c s d in ground (arith, digits_no_dot (c ∷ s) d)
]
