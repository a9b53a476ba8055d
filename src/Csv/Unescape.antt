-- ===== src/Csv/Unescape.antt =====
-- unescapeStringForCSV undoes escapeStringForCSV, but for a backslash before an n.
use lib_sloppy.Base.{
  ℕ, ◌≡◌, ◌≢◌, refl, sym, ap, ◌∙◌, Bool, true, false, ◌&&◌, ◌||◌, inl, inr, [], ◌∷◌, Option, none,
  some, Bytes, arith, ◌==◌, Bool-cases, ok,
}
use lib_sloppy.Csv.Escape.{
  replace_char, replace_pair, escape_string_for_csv, unescape_string_for_csv, all_escaped,
  backslash, quote, comma, newline,
}

-- No `a` is directly followed by a `b`.
unfoldable pub has_pair : ℕ → ℕ → Bytes → Bool
has_pair a b [] = false
has_pair a b (c ∷ []) = false
has_pair a b (c ∷ d ∷ s) = (c == a && d == b) || has_pair a b (d ∷ s)

pair-skip :
    (a b : ℕ) (value s : Bytes) (c d : ℕ)
    → (c == a && d == b) ≡ false
    → replace_pair a b value (c ∷ d ∷ s) ≡ c ∷ replace_pair a b value (d ∷ s)
unfolding replace_pair
pair-skip a b value s c d h = rw h

-- Where a character is replaced by itself behind a backslash.
pub unescape_same :
    (y : ℕ)
    → (backslash == y) ≡ false
    → (t : Bytes) → replace_pair backslash y (y ∷ []) (replace_char y (backslash ∷ y ∷ []) t) ≡ t
unfolding replace_char replace_pair
unescape_same y by [] = refl
unescape_same y by (c ∷ []) = ground arith
unescape_same y by (c ∷ d ∷ t) =
    let rest = unescape_same y by (d ∷ t) in
    elim (Bool-cases (c == y)) [
      | inl e ↦ ground (arith, rest)
      | inr n ↦ elim (Bool-cases (d == y)) [
        | inl e ↦ ground (arith, rest)
        | inr m ↦ ground (arith, rest)
      ]
    ]

-- Newlines are replaced by a pair with an n.
pub unescape_newlines :
    (t : Bytes)
    → has_pair backslash b'n' t ≡ false
    → replace_pair backslash b'n' (newline ∷ []) (replace_char newline (backslash ∷ b'n' ∷ []) t)
      ≡ t
unfolding replace_char replace_pair has_pair
unescape_newlines [] h = refl
unescape_newlines (c ∷ []) h = ground arith
unescape_newlines (c ∷ d ∷ t) h =
    let rest = unescape_newlines (d ∷ t) (ground arith) in
    elim (Bool-cases (c == newline)) [
      | inl e ↦ ground (arith, rest)
      | inr n ↦ elim (Bool-cases (d == newline)) [
        | inl e ↦ ground (arith, rest)
        | inr m ↦ ground (arith, rest)
      ]
    ]

pub unescape_backslashes :
    (t : Bytes)
    → replace_pair backslash backslash
        (backslash ∷ [])
        (replace_char backslash (backslash ∷ backslash ∷ []) t)
      ≡ t
unfolding replace_char replace_pair
unescape_backslashes [] = refl
unescape_backslashes (c ∷ []) = ground arith
unescape_backslashes (c ∷ d ∷ t) =
    let rest = unescape_backslashes (d ∷ t) in
    elim (Bool-cases (c == backslash)) [
      | inl e ↦ ground (arith, rest)
      | inr n ↦ elim (Bool-cases (d == backslash)) [
        | inl e ↦ ground (arith, rest)
        | inr m ↦ ground (arith, rest)
      ]
    ]

-- Putting a backslash before a character that is no n makes no pair of a backslash and an n.
pub escape_keeps_pairs :
    (y : ℕ)
    → (y == b'n') ≡ false
    → (t : Bytes) → has_pair backslash b'n' t ≡ false
    → has_pair backslash b'n' (replace_char y (backslash ∷ y ∷ []) t) ≡ false
unfolding replace_char has_pair
escape_keeps_pairs y yn [] h = refl
escape_keeps_pairs y yn (c ∷ []) h = ground arith
escape_keeps_pairs y yn (c ∷ d ∷ t) h =
    let rest = escape_keeps_pairs y yn (d ∷ t) (ground arith) in
    elim (Bool-cases (c == y)) [
      | inl e ↦ elim (Bool-cases (d == y)) [
        | inl e' ↦ ground (arith, rest)
        | inr m ↦ ground (arith, rest)
      ]
      | inr n ↦ elim (Bool-cases (d == y)) [
        | inl e ↦ ground (arith, rest)
        | inr m ↦ ground (arith, rest)
      ]
    ]

-- A comma is behind its backslash, also when the newlines have been replaced.
commas_escaped :
    (t : Bytes) (before : Option ℕ)
    → all_escaped comma before (
        replace_char newline
          (backslash ∷ b'n' ∷ [])
          (replace_char comma (backslash ∷ comma ∷ []) t))
      ≡ true
unfolding replace_char all_escaped
commas_escaped [] before = refl
commas_escaped (c ∷ t) before = elim (Bool-cases (c == comma)) [
  | inl e ↦ ground (arith, commas_escaped t (some comma))
  | inr n ↦ elim (Bool-cases (c == newline)) [
    | inl e ↦ ground (arith, commas_escaped t (some b'n'))
    | inr m ↦ ground (arith, commas_escaped t (some c))
  ]
]

backslashes_pass : (t : Bytes) (before : Option ℕ) → all_escaped backslash before t ≡ true
unfolding all_escaped
backslashes_pass [] before = refl
backslashes_pass (c ∷ t) none = ground (arith, backslashes_pass t (some c))
backslashes_pass (c ∷ t) (some p) = ground (arith, backslashes_pass t (some c))

-- The last two of the replacements of escapeStringForCSV, on what the first two give.
abbrev pub quoted : Bytes → Bytes
quoted s =
    replace_char quote (backslash ∷ quote ∷ [])
      (replace_char backslash (backslash ∷ backslash ∷ []) s)

-- What is read from a string with its commas escaped.
pub unescape_accepts :
    (e : Bytes)
    → all_escaped comma none e ≡ true
    → unescape_string_for_csv e
      ≡ ok (
          replace_pair backslash backslash (backslash ∷ []) (
            replace_pair backslash quote (quote ∷ []) (
              replace_pair backslash comma
                (comma ∷ [])
                (replace_pair backslash b'n' (newline ∷ []) e))))
unfolding unescape_string_for_csv replace_pair
unescape_accepts [] h = refl
unescape_accepts (c ∷ e) h = rw (h, backslashes_pass (c ∷ e) none) (ground arith)

-- A string in which no backslash is directly followed by an n is what is read back from its escaped
-- form without quotation marks.
pub unescape-escape :
    (s : Bytes)
    → has_pair backslash b'n' s ≡ false
    → unescape_string_for_csv (escape_string_for_csv s false) ≡ ok s
unfolding escape_string_for_csv
unescape-escape s h =
    let t = quoted s in
    let u = replace_char comma (backslash ∷ comma ∷ []) t in
    let clean : has_pair backslash b'n' u ≡ false =
      escape_keeps_pairs comma refl t
        (escape_keeps_pairs quote refl _ (escape_keeps_pairs backslash refl s h)) in
    rw (
      unescape_accepts (replace_char newline (backslash ∷ b'n' ∷ []) u) (commas_escaped t none),
      unescape_newlines u clean,
      unescape_same comma refl t,
      unescape_same quote refl (replace_char backslash (backslash ∷ backslash ∷ []) s),
      unescape_backslashes s,
    )

-- A first character that starts no pair, before a second one that cannot start any.
keeps_two :
    (b : ℕ) (value s : Bytes)
    → (newline == b) ≡ false
    → (r : Bytes) × (replace_pair backslash b value (backslash ∷ newline ∷ s)
        ≡ backslash ∷ newline ∷ r)
unfolding replace_pair
keeps_two b value [] h = ([], rw h)
keeps_two b value (d ∷ s) h = (replace_pair backslash b value (d ∷ s), rw h)

-- A string that starts with a backslash and an n is never read back from its escaped form.
pub unescape_loses_backslash_n :
    (s : Bytes)
    → unescape_string_for_csv (escape_string_for_csv (backslash ∷ b'n' ∷ s) false)
      ≢ ok (backslash ∷ b'n' ∷ s)
unfolding escape_string_for_csv replace_char replace_pair
unescape_loses_backslash_n s h =
    let accepted = unescape_accepts _ (commas_escaped (quoted (backslash ∷ b'n' ∷ s)) none) in
    let same_end : ok _ ≡ ok (backslash ∷ b'n' ∷ s) = sym accepted ∙ h in
    let rest = replace_pair backslash b'n' (newline ∷ []) (
      replace_char newline (backslash ∷ b'n' ∷ [])
        (replace_char comma (backslash ∷ comma ∷ []) (quoted s))) in
    let one = keeps_two comma (comma ∷ []) rest refl in
    let two = keeps_two quote (quote ∷ []) one.0 refl in
    let three = keeps_two backslash (backslash ∷ []) two.0 refl in
    let chain =
      ap (replace_pair backslash backslash (backslash ∷ []))
        (ap (replace_pair backslash quote (quote ∷ [])) one.1 ∙ two.1)
      ∙ three.1 in
    let final : ok (backslash ∷ newline ∷ three.0) ≡ ok (backslash ∷ b'n' ∷ s) =
      sym (ap ok chain) ∙ same_end in
    ground arith
