-- ===== src/Csv/Quoting.antt =====
-- What is read of an escaped string between quotation marks.
use lib_sloppy.Base.{
  ℕ, ◌≡◌, refl, sym, ap, ◌∙◌, true, false, ◌&&◌, [], ◌∷◌, ◌++◌, Option, none, some, Bytes, length,
  length-append, append_assoc, ltb, ◌==◌, Result, ok, arith, Bool-cases, inl, inr, take-append,
  reverse,
}
use mathlib.Core.List.{reverse-append, reverse-cons}
use lib_sloppy.Text.Edit.{chop_right}
use lib_sloppy.Text.Trim.{trim, trim_bare, spaces, is_space}
use lib_sloppy.Text.Numbers.{is_int, is_double, all_of, is_digit}
use lib_sloppy.Csv.Escape.{
  replace_char, replace_pair, all_escaped, escape_string_for_csv, unescape_string_for_csv,
  backslash, quote, comma, newline,
}
use lib_sloppy.Csv.Unescape.{
  has_pair, unescape_accepts, unescape_same, unescape_newlines, unescape_backslashes,
  escape_keeps_pairs, quoted,
}
use lib_sloppy.Csv.Values.{string, quoted_and_escaped, has_near_back, string_of_chunk}
use lib_sloppy.Csv.Fields.{ends_in_backslash, in_quotes, escape_each, escape-each}

-- A last character that makes no pair with the one before it.
pair-snoc :
    (b : ℕ) (value : Bytes) (x : ℕ) (t : Bytes)
    → (x == b && ends_in_backslash t) ≡ false
    → replace_pair backslash b value (t ++ x ∷ []) ≡ replace_pair backslash b value t ++ x ∷ []
unfolding replace_pair ends_in_backslash
pair-snoc b value x [] h = refl
pair-snoc b value x (c ∷ []) h = ground arith
pair-snoc b value x (c ∷ d ∷ []) h =
    ground (arith, pair-snoc b value x (d ∷ []) h, append_assoc value [] (x ∷ []))
pair-snoc b value x (c ∷ d ∷ e ∷ s) h =
    let behind = pair-snoc b value x (e ∷ s) h in
    let rest = pair-snoc b value x (d ∷ e ∷ s) h in
    elim (Bool-cases (c == backslash && d == b)) [
      | inl p ↦
          rw (p, behind)
            (sym (append_assoc value (replace_pair backslash b value (e ∷ s)) (x ∷ [])))
      | inr n ↦ rw (n, rest)
    ]

-- The same with the character at both ends.
pair-in_quotes :
    (b : ℕ) (value t : Bytes)
    → (quote == b && ends_in_backslash t) ≡ false
    → replace_pair backslash b value (in_quotes t) ≡ in_quotes (replace_pair backslash b value t)
unfolding replace_pair
pair-in_quotes b value [] h = refl
pair-in_quotes b value (c ∷ t) h = ap (◌∷◌ quote) (pair-snoc b value quote (c ∷ t) h)

-- Escaping keeps whether there is a backslash at the end.
ends-replace_char :
    (y : ℕ) (s : Bytes)
    → ends_in_backslash (replace_char y (backslash ∷ y ∷ []) s) ≡ ends_in_backslash s
unfolding replace_char ends_in_backslash
ends-replace_char y [] = refl
ends-replace_char y (c ∷ []) = ground arith
ends-replace_char y (c ∷ d ∷ s) = ground (arith, ends-replace_char y (d ∷ s))

commas_in_quotes :
    (t : Bytes) (before : Option ℕ)
    → all_escaped comma before (
        replace_char newline (backslash ∷ b'n' ∷ []) (replace_char comma (backslash ∷ comma ∷ []) t)
        ++ quote ∷ [])
      ≡ true
unfolding replace_char all_escaped
commas_in_quotes [] before = refl
commas_in_quotes (c ∷ t) before = elim (Bool-cases (c == comma)) [
  | inl e ↦ ground (arith, commas_in_quotes t (some comma))
  | inr n ↦ elim (Bool-cases (c == newline)) [
    | inl e ↦ ground (arith, commas_in_quotes t (some b'n'))
    | inr m ↦ ground (arith, commas_in_quotes t (some c))
  ]
]

pub unescape-in_quotes :
    (s : Bytes)
    → has_pair backslash b'n' s ≡ false
    → ends_in_backslash s ≡ false
    → unescape_string_for_csv (in_quotes (escape_string_for_csv s false)) ≡ ok (in_quotes s)
unfolding escape_string_for_csv
unescape-in_quotes s h k =
    let b = replace_char backslash (backslash ∷ backslash ∷ []) s in
    let t = quoted s in
    let u = replace_char comma (backslash ∷ comma ∷ []) t in
    let e = replace_char newline (backslash ∷ b'n' ∷ []) u in
    let clean : has_pair backslash b'n' u ≡ false =
      escape_keeps_pairs comma refl t
        (escape_keeps_pairs quote refl b (escape_keeps_pairs backslash refl s h)) in
    let end_t : ends_in_backslash t ≡ false =
      ends-replace_char quote b ∙ ends-replace_char backslash s ∙ k in
    let wrapped : all_escaped comma none (in_quotes e) ≡ true =
      unfold all_escaped in commas_in_quotes t (some quote) in
    unescape_accepts (in_quotes e) wrapped
    ∙ rw (
      pair-in_quotes b'n' (newline ∷ []) e refl,
      unescape_newlines u clean,
      pair-in_quotes comma (comma ∷ []) u refl,
      unescape_same comma refl t,
      pair-in_quotes quote (quote ∷ []) t end_t,
      unescape_same quote refl b,
      pair-in_quotes backslash (backslash ∷ []) b refl,
      unescape_backslashes s,
    )

-- The first, the last and the last but one character of a string in quotation marks.
pub back_one : (c x : ℕ) (t : Bytes) → has_near_back 1 x (c ∷ (t ++ x ∷ [])) ≡ true
back_one c x [] = ground arith
back_one c x (d ∷ t) = ground (arith, back_one d x t)

pub back_two :
    (c x : ℕ) (t : Bytes)
    → (ltb 2 (length (c ∷ (t ++ x ∷ []))) && has_near_back 2 backslash (c ∷ (t ++ x ∷ [])))
      ≡ ends_in_backslash t
unfolding ends_in_backslash
back_two c x [] = refl
back_two c x (d ∷ []) = refl
back_two c x (d ∷ e ∷ t) =
    let size : ltb 2 (length (c ∷ d ∷ e ∷ (t ++ x ∷ []))) ≡ true =
      ground (arith, length-append t (x ∷ [])) in
    let size' : ltb 2 (length (d ∷ e ∷ (t ++ x ∷ []))) ≡ true =
      ground (arith, length-append t (x ∷ [])) in
    ground (arith, size, size', back_two d x (e ∷ t))

inside : (s : Bytes) (x : ℕ) → chop_right (s ++ x ∷ []) 1 ≡ s
unfolding chop_right
inside [] x = refl
inside (c ∷ s) x = ground (arith, length-append (c ∷ s) (x ∷ []), take-append (c ∷ s) (x ∷ []))

ends_newlines :
    (s : Bytes)
    → ends_in_backslash (replace_char newline (backslash ∷ b'n' ∷ []) s) ≡ ends_in_backslash s
unfolding replace_char ends_in_backslash
ends_newlines [] = refl
ends_newlines (c ∷ []) = ground arith
ends_newlines (c ∷ d ∷ s) = ground (arith, ends_newlines (d ∷ s))

pub ends-each : (s : Bytes) → ends_in_backslash (escape_each s) ≡ ends_in_backslash s
unfolding escape_string_for_csv
ends-each s =
    ap ends_in_backslash (sym (escape-each s))
    ∙ ends_newlines (replace_char comma (backslash ∷ comma ∷ []) (quoted s))
    ∙ ends-replace_char comma (quoted s)
    ∙ ends-replace_char quote (replace_char backslash (backslash ∷ backslash ∷ []) s)
    ∙ ends-replace_char backslash s

module _ {D : Type 0} (stod : Bytes → Result D) where
  pub chunk_in_quotes :
      (s : Bytes)
      → has_pair backslash b'n' s ≡ false
      → ends_in_backslash s ≡ false
      → string_of_chunk stod quoted_and_escaped (in_quotes (escape_each s)) ≡ ok (string s)
  unfolding string_of_chunk
  chunk_in_quotes s h k =
      let e = escape_each s in
      let long : ltb (length (in_quotes e)) 2 ≡ false =
        ground (arith, length-append e (quote ∷ [])) in
      let back = back_one quote quote e in
      let near = back_two quote quote e ∙ ends-each s ∙ k in
      let read : unescape_string_for_csv (in_quotes e) ≡ ok (in_quotes s) =
        ap (λ w. unescape_string_for_csv (in_quotes w)) (sym (escape-each s))
        ∙ unescape-in_quotes s h k in
      rw (long, back, near, read, inside s quote)

-- A string in quotation marks has no white space at its ends and is no number.
pub quotes_solid : (w : Bytes) → trim (in_quotes w) ≡ in_quotes w
unfolding spaces is_space
quotes_solid w =
    let back : reverse (in_quotes w) ≡ quote ∷ (reverse w ++ quote ∷ []) =
      reverse-cons quote (w ++ quote ∷ [])
      ∙ ap (λ r. r ++ quote ∷ []) (reverse-append w (quote ∷ [])) in
    trim_bare (in_quotes w) refl (ap spaces back)

pub quotes_no_number :
    (w : Bytes) → (is_int (in_quotes w) ≡ false) × (is_double (in_quotes w) ≡ false)
unfolding is_int is_double all_of is_digit
quotes_no_number w = (refl, ground arith)
