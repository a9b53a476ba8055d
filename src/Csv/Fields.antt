-- ===== src/Csv/Fields.antt =====
-- Escaped strings, character by character, as fields of a line.
use lib_sloppy.Base.{
  ℕ, ◌≡◌, refl, sym, ap, ◌∙◌, Bool, true, false, [], ◌∷◌, ◌++◌, append_assoc, append-nil, some,
  Bytes, ltb, ◌==◌, if◌then◌else◌, arith, All,
}
use lib_sloppy.Csv.Escape.{replace_char, escape_string_for_csv, backslash, quote, comma, newline}
use lib_sloppy.Csv.HeaderMap.{has_bad_char}
use lib_sloppy.Csv.Values.{StringRepresentation, uses_escaping, escaped, quoted_and_escaped}
use lib_sloppy.Text.Numbers.{is_digit}
use lib_sloppy.Text.Print.{IsNumeral}
use lib_sloppy.Csv.Rows.{is_effective}
use lib_sloppy.Csv.Scans.{passes, IsField}

-- What one character becomes.
abbrev pub escape_char : ℕ → Bytes
escape_char c =
    if c == backslash
    then backslash ∷ backslash ∷ []
    else if c == quote
    then backslash ∷ quote ∷ []
    else if c == comma
    then backslash ∷ comma ∷ []
    else if c == newline
    then backslash ∷ b'n' ∷ []
    else c ∷ []

abbrev pub escape_each : Bytes → Bytes
escape_each [] = []
escape_each (c ∷ s) = escape_char c ++ escape_each s

replace_char-append :
    (a : ℕ) (v x y : Bytes) → replace_char a v (x ++ y) ≡ replace_char a v x ++ replace_char a v y
unfolding replace_char
replace_char-append a v [] y = refl
replace_char-append a v (c ∷ x) y =
    rw (replace_char-append a v x y)
      (sym (append_assoc (if c == a then v else c ∷ []) (replace_char a v x) (replace_char a v y)))

pub escape-each : (s : Bytes) → escape_string_for_csv s false ≡ escape_each s
unfolding escape_string_for_csv replace_char
escape-each [] = refl
escape-each (c ∷ s) = ground (arith, escape-each s)

abbrev last_of : ℕ → Bytes → ℕ
last_of prev [] = prev
last_of prev (c ∷ s) = last_of (if c == newline then b'n' else c) s

-- The state of the search for commas after an escaped string: no comma separates.
passes_escaped :
    (rep : StringRepresentation) (prev q : ℕ) (s w : Bytes)
    → uses_escaping rep ≡ true
    → ltb 2 q ≡ false
    → passes rep prev q (escape_each s ++ w) ≡ passes rep (last_of prev s) q w
unfolding passes
passes_escaped rep prev q [] w e few = refl
passes_escaped rep prev q (c ∷ s) w e few =
    ground (arith, passes_escaped rep (if c == newline then b'n' else c) q s w e few)

unfoldable pub ends_in_backslash : Bytes → Bool
ends_in_backslash [] = false
ends_in_backslash (c ∷ []) = c == backslash
ends_in_backslash (c ∷ d ∷ s) = ends_in_backslash (d ∷ s)

last_is_no_backslash :
    (prev c : ℕ) (s : Bytes)
    → ends_in_backslash (c ∷ s) ≡ false
    → (last_of prev (c ∷ s) == backslash) ≡ false
unfolding ends_in_backslash
last_is_no_backslash prev c [] h = ground arith
last_is_no_backslash prev c (d ∷ s) h =
    last_is_no_backslash (if c == newline then b'n' else c) d s h

last_is_effective :
    (rep : StringRepresentation) (prev : ℕ) (s : Bytes)
    → ends_in_backslash s ≡ false
    → is_effective rep prev ≡ true
    → is_effective rep (last_of prev s) ≡ true
last_is_effective rep prev [] h e = e
last_is_effective rep prev (c ∷ s) h e = ground (arith, last_is_no_backslash prev c s h)

pub escaped-IsField : (s : Bytes) → ends_in_backslash s ≡ false → IsField escaped (escape_each s)
unfolding passes
escaped-IsField s h prev e =
    let over =
      ap (passes escaped prev 0) (sym (append-nil (escape_each s)))
      ∙ passes_escaped escaped prev 0 s [] refl refl in
    (last_of prev s, 0, over, last_is_effective escaped prev s h e, refl, refl)

abbrev pub in_quotes : Bytes → Bytes
in_quotes w = quote ∷ (w ++ quote ∷ [])

open_quote :
    (prev : ℕ) (w : Bytes)
    → is_effective quoted_and_escaped prev ≡ true
    → passes quoted_and_escaped prev 0 (quote ∷ w) ≡ passes quoted_and_escaped quote 1 w
unfolding passes
open_quote prev w e = rw e

close_quote :
    (prev : ℕ)
    → is_effective quoted_and_escaped prev ≡ true
    → passes quoted_and_escaped prev 1 (quote ∷ []) ≡ some (quote, 2)
unfolding passes
close_quote prev e = rw e

pub quoted-IsField :
    (s : Bytes)
    → ends_in_backslash s ≡ false
    → IsField quoted_and_escaped (in_quotes (escape_each s))
quoted-IsField s h prev e =
    let over =
      open_quote prev (escape_each s ++ quote ∷ []) e
      ∙ passes_escaped quoted_and_escaped quote 1 s (quote ∷ []) refl refl
      ∙ close_quote (last_of quote s) (last_is_effective quoted_and_escaped quote s h refl) in
    (quote, 2, over, refl, refl, refl)

last_is_backslash :
    (prev c : ℕ) (s : Bytes)
    → ends_in_backslash (c ∷ s) ≡ true
    → (last_of prev (c ∷ s) == backslash) ≡ true
unfolding ends_in_backslash
last_is_backslash prev c [] h = ground arith
last_is_backslash prev c (d ∷ s) h = last_is_backslash (if c == newline then b'n' else c) d s h

last_escapes : (s : Bytes) → ends_in_backslash s ≡ true → (last_of quote s == backslash) ≡ true
unfolding ends_in_backslash
last_escapes [] h = cc
last_escapes (c ∷ s) h = last_is_backslash quote c s h

keep_quote :
    (prev : ℕ)
    → (prev == backslash) ≡ true
    → passes quoted_and_escaped prev 1 (quote ∷ []) ≡ some (quote, 1)
unfolding passes
keep_quote prev e = rw e

-- The closing quotation mark is taken for an escaped one.
pub open_passes :
    (s : Bytes)
    → ends_in_backslash s ≡ true
    → passes quoted_and_escaped 0 0 (in_quotes (escape_each s)) ≡ some (quote, 1)
open_passes s h =
    open_quote 0 (escape_each s ++ quote ∷ []) refl
    ∙ passes_escaped quoted_and_escaped quote 1 s (quote ∷ []) refl refl
    ∙ keep_quote (last_of quote s) (last_escapes s h)

abbrev pub bare_last : ℕ → Bytes → ℕ
bare_last prev [] = prev
bare_last prev (c ∷ w) = bare_last c w

-- A text without commas and quotation marks.
pub bare_passes :
    (rep : StringRepresentation) (prev : ℕ) (w : Bytes)
    → has_bad_char w ≡ false
    → passes rep prev 0 w ≡ some (bare_last prev w, 0)
unfolding passes has_bad_char
bare_passes rep prev [] h = refl
bare_passes rep prev (c ∷ w) h = ground (arith, bare_passes rep c w)

pub nil-IsField : (rep : StringRepresentation) → IsField rep []
unfolding passes
nil-IsField rep prev e = (prev, 0, refl, e, refl, refl)

numeral_passes :
    (rep : StringRepresentation) (prev c : ℕ) (w : Bytes)
    → IsNumeral c
    → passes rep prev 0 (c ∷ w) ≡ passes rep c 0 w
unfolding passes is_digit
numeral_passes rep prev c w n = ground arith

pub numerals-IsField : (rep : StringRepresentation) (w : Bytes) → All IsNumeral w → IsField rep w
numerals-IsField rep [] n prev e = nil-IsField rep prev e
numerals-IsField rep (c ∷ w) n prev e =
    let (p, q, over, e', n', few) =
      numerals-IsField rep w n.1 c (unfold is_digit in ground arith) in
    (p, q, numeral_passes rep prev c w n.0 ∙ over, e', n', few)
