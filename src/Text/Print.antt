-- ===== src/Text/Print.antt =====
-- `std::to_string` of a 64-bit number, and `std::stol`, which reads one. Twenty rounds are enough for
-- the digits, of which a 64-bit number has at most nineteen.
use lib_sloppy.Base.{
  ℕ, zero, suc, ◌+◌, ◌/◌, ◌%◌, ◌^◌, ◌<◌, ◌≡◌, ◌≢◌, refl, ◌∙◌, Bool, true, false, ◌||◌, [], ◌∷◌,
  Bytes, arith, length, drop, All, ltb, ◌==◌, if◌then◌else◌, Result, ok, err, invalid_argument,
  out_of_range,
}
use lib_sloppy.Base.Int.{ℤ, pos, negsuc}
use lib_sloppy.Text.Trim.{spaces, is_space, trim, IsNoSpace, trim_solid}
use lib_sloppy.Text.Numbers.{
  is_digit, is_int, all_of, take_digits, digits_value, IsDigit, take_digits-All,
}

unfoldable pub print_digits : ℕ → ℕ → Bytes → Bytes
print_digits zero n out = out
print_digits (suc rounds) n out =
    let rest = print_digits rounds (n / 10) ((b'0' + n % 10) ∷ out) in
    if ltb n 10 then (b'0' + n) ∷ out else rest

unfoldable pub to_string : ℤ → Bytes
unfolding print_digits
to_string (pos n) = print_digits 20 n []
to_string (negsuc n) = b'-' ∷ print_digits 20 (n + 1) []

unfoldable pub in_long_range : Bool → ℕ → Result ℤ
in_long_range true zero = ok (pos 0)
in_long_range true (suc n) = if ltb n (2 ^ 63) then ok (negsuc n) else err out_of_range
in_long_range false n = if ltb n (2 ^ 63) then ok (pos n) else err out_of_range

abbrev read_long_digits : Bool → Bytes → Result ℤ
read_long_digits negative ds =
    if length ds == 0 then err invalid_argument else in_long_range negative (digits_value 0 ds)

read_long : Bytes → Result ℤ
unfolding take_digits digits_value in_long_range
read_long [] = err invalid_argument
read_long (c ∷ s) =
    if c == b'-'
    then read_long_digits true (take_digits s)
    else if c == b'+'
    then read_long_digits false (take_digits s)
    else read_long_digits false (take_digits (c ∷ s))

unfoldable pub stol : Bytes → Result ℤ
unfolding read_long
stol s = read_long (drop (spaces s) s)

-- What a 64-bit number can be.
abbrev pub IsLong : ℤ → Type 0
IsLong (pos n) = n < 2 ^ 63
IsLong (negsuc n) = n < 2 ^ 63

printed :
    (rounds n : ℕ) (out : Bytes)
    → n < 10 ^ suc rounds
    → All IsDigit out
    → All IsDigit (print_digits (suc rounds) n out)
      × (digits_value 0 (print_digits (suc rounds) n out) ≡ digits_value n out)
      × (print_digits (suc rounds) n out ≢ [])
unfolding print_digits digits_value is_digit
printed zero n out h d = ground arith
printed (suc rounds) n out h d =
    let ih = printed rounds (n / 10) ((b'0' + n % 10) ∷ out) (omega arith) (ground arith, d) in
    ground (arith, ih)

digits_all_of : (s : Bytes) → All IsDigit s → all_of is_digit s ≡ true
unfolding all_of
digits_all_of [] d = refl
digits_all_of (c ∷ s) d = rw (d.0, digits_all_of s d.1)

-- The characters of a number.
abbrev pub IsNumeral : ℕ → Type 0
IsNumeral c = (is_digit c || c == b'-') ≡ true

numerals_solid : (s : Bytes) → All IsNumeral s → All IsNoSpace s
unfolding is_digit is_space
numerals_solid [] d = tt
numerals_solid (c ∷ s) d = (ground arith, numerals_solid s d.1)

digits_numerals : (s : Bytes) → All IsDigit s → All IsNumeral s
digits_numerals [] d = tt
digits_numerals (c ∷ s) d = (rw d.0, digits_numerals s d.1)

digits_front :
    (s : Bytes)
    → All IsDigit s
    → s ≢ []
    → (is_int s ≡ true)
      × (stol s ≡ in_long_range false (digits_value 0 s))
      × (is_int (b'-' ∷ s) ≡ true)
      × (stol (b'-' ∷ s) ≡ in_long_range true (digits_value 0 s))
unfolding is_int stol read_long spaces is_space is_digit
digits_front [] d ne = absurd (ne refl)
digits_front (c ∷ s) d ne = ground (arith, take_digits-All (c ∷ s) d, digits_all_of (c ∷ s) d)

-- What is printed of a 64-bit number is an integer for isInt, without spaces, and is read back.
pub stol-to_string :
    (z : ℤ)
    → IsLong z
    → (is_int (to_string z) ≡ true)
      × All IsNumeral (to_string z)
      × (trim (to_string z) ≡ to_string z)
      × (stol (to_string z) ≡ ok z)
unfolding to_string in_long_range digits_value is_digit
stol-to_string (pos n) h =
    let s = print_digits 20 n [] in
    let (d, v, ne) = printed 19 n [] (omega arith) tt in
    let f = digits_front s d ne in
    let chars = digits_numerals s d in
    (f.0, chars, trim_solid s (numerals_solid s chars), f.1 ∙ rw v (ground arith))
stol-to_string (negsuc n) h =
    let s = print_digits 20 (n + 1) [] in
    let (d, v, ne) = printed 19 (n + 1) [] (omega arith) tt in
    let f = digits_front s d ne in
    let chars : All IsNumeral (b'-' ∷ s) = (refl, digits_numerals s d) in
    (f.2, chars, trim_solid (b'-' ∷ s) (numerals_solid (b'-' ∷ s) chars), f.3 ∙ rw v (ground arith))
