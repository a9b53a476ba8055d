-- ===== src/Config/Reading.antt =====
-- What is found after a line has been read.
use lib_sloppy.Base.{
  ℕ, suc, ◌≡◌, ◌≢◌, ◌≤◌, ◌⊎◌, refl, All, ◌∙◌, ap, inl, inr, true, false, ◌&&◌, [], ◌∷◌, ◌++◌, none,
  some, Bytes, length, ◌==◌, same, if◌then◌else◌, Option-cases, ok, err, arith, invalid_argument,
}
use lib_sloppy.Text.Trim.{trim, trim-nil}
use lib_sloppy.Text.Numbers.{is_digit}
use lib_sloppy.Config.Parser.{
  Content, get_value, insert_or_overwrite_value, get_or_create_section, cut_at, starts_key,
  to_line_end, section_of, pair_of, is_comment, read_line, read_trimmed,
}
use lib_sloppy.Config.Lines.{insert_lem}

cut_at-append : (a : ℕ) (k v : Bytes) → cut_at a k ≡ none → cut_at a (k ++ a ∷ v) ≡ some (k, v)
unfolding cut_at
cut_at-append a [] v h = ground arith
cut_at-append a (c ∷ k) v h = elim (Option-cases (cut_at a k)) [
  | inl e ↦ let rest = cut_at-append a k v e in ground (arith, rest, h)
  | inr (p, e) ↦ absurd (ground (arith, e, h))
]

-- The start of a key starts neither a section nor a comment.
key_line :
    (c : ℕ) (s : Bytes)
    → starts_key c ≡ true
    → (section_of (c ∷ s) ≡ none) × (is_comment (c ∷ s) ≡ false)
unfolding section_of is_comment starts_key is_digit
key_line c s h = (ground arith, ground arith)

pair_of-append :
    (c : ℕ) (k v : Bytes)
    → starts_key c ≡ true
    → cut_at b'=' (c ∷ k) ≡ none
    → pair_of ((c ∷ k) ++ b'=' ∷ v) ≡ some (c ∷ k, to_line_end v)
unfolding pair_of
pair_of-append c k v h n = rw (h, cut_at-append b'=' (c ∷ k) v n)

read_trimmed-pair :
    (content after : Content) (section : Bytes) (c : ℕ) (s k v : Bytes)
    → (section_of (c ∷ s) ≡ none) × (is_comment (c ∷ s) ≡ false)
    → pair_of (c ∷ s) ≡ some (k, v)
    → insert_or_overwrite_value content section (trim k) (trim v) ≡ ok after
    → read_trimmed (content, section) (c ∷ s) ≡ ok (after, section)
unfolding read_trimmed
read_trimmed-pair content after section c s k v start found inserted =
    let some_chars : (suc (length s) == 0) ≡ false = ground arith in
    rw (read_trimmed, some_chars, start.1, start.0, found, inserted)

-- A letter, a digit or an underscore.
abbrev pub IsKeyStart : ℕ → Type 0
IsKeyStart c =
    (c ≡ b'_') ⊎ (b'0' ≤ c) × (c ≤ b'9') ⊎ (b'A' ≤ c) × (c ≤ b'Z') ⊎ (b'a' ≤ c) × (c ≤ b'z')

abbrev pub IsNoEquals : ℕ → Type 0
IsNoEquals c = c ≢ b'='

-- No line feed and no carriage return.
abbrev pub IsNoBreak : ℕ → Type 0
IsNoBreak c = (c ≢ 10) × (c ≢ 13)

key_start : (c : ℕ) → IsKeyStart c → (starts_key c ≡ true) × IsNoEquals c
unfolding starts_key is_digit
key_start c h = (ground arith, ground arith)

no_equals : (s : Bytes) → All IsNoEquals s → cut_at b'=' s ≡ none
unfolding cut_at
no_equals [] h = refl
no_equals (c ∷ s) h = ground (arith, h.0, no_equals s h.1)

no_break : (s : Bytes) → All IsNoBreak s → to_line_end s ≡ s
unfolding to_line_end
no_break [] h = refl
no_break (c ∷ s) h = ground (arith, h.0, no_break s h.1)

-- A line that, trimmed, is a key, which starts with a letter, a digit or an underscore and has no
-- equals sign, an equals sign and a value without a line break, is read as the value of the key in
-- the current section, whose name is not empty, both trimmed; nothing that is found elsewhere
-- changes, and the section stays the current one.
pub read_line_lem :
    (content : Content) (section line : Bytes) (c : ℕ) (k v : Bytes)
    → section ≢ []
    → trim line ≡ (c ∷ k) ++ b'=' ∷ v
    → IsKeyStart c
    → All IsNoEquals k
    → All IsNoBreak v
    → (after : Content) × (read_line (content, section) line ≡ ok (after, section))
      × ((s key : Bytes)
          → get_value after s key ≡ (
              if same section s && same (trim (c ∷ k)) key
              then some (trim v)
              else get_value content s key))
unfolding read_line
read_line_lem content section line c k v ne e h n whole =
    let (starts, bare) = key_start c h in
    let inserted = insert_lem content section (trim (c ∷ k)) (trim v) ne in
    let found : pair_of ((c ∷ k) ++ b'=' ∷ v) ≡ some (c ∷ k, v) =
      pair_of-append c k v starts (no_equals (c ∷ k) (bare, n))
      ∙ ap (λ (t : Bytes). some (c ∷ k, t)) (no_break v whole) in
    (
      inserted.0,
      ap (read_trimmed (content, section)) e
          ∙ read_trimmed-pair content inserted.0 section c (k ++ b'=' ∷ v) (c ∷ k) v
              (key_line c (k ++ b'=' ∷ v) starts) found inserted.1,
      inserted.2,
    )

-- A section line with nothing between the brackets throws invalid_argument.
pub empty_section_lem :
    (content : Content) (section line rest : Bytes)
    → trim line ≡ b'[' ∷ b']' ∷ rest
    → read_line (content, section) line ≡ err invalid_argument
unfolding read_line read_trimmed section_of cut_at is_comment get_or_create_section
empty_section_lem content section line rest e =
    ap (read_trimmed (content, section)) e ∙ rw (trim-nil) (ground arith)
