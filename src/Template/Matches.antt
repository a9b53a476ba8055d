-- ===== src/Template/Matches.antt =====
-- The matches in a template follow each other.
use mathlib.Core.Path.{subst}
use lib_sloppy.Base.{
  ℕ, zero, suc, ◌+◌, ◌≤◌, ◌<◌, ◌≡◌, ◌≢◌, refl, sym, ◌∙◌, ap, true, false, List, [], ◌∷◌, ◌++◌,
  Option, none, some, Bytes, length, length-append, append_assoc, leb, if◌then◌else◌, arith,
  Option-cases, Bool-cases, inl, inr, same, ◌⊎◌,
}
use lib_sloppy.Template.{TokenType}
use lib_sloppy.Template.Tokens.{Match, match_length, tokens_from, match_token, open_brace}
use lib_sloppy.Template.Parse.{skips_newline, newline_at}

-- Matches from position `b` on, one behind the other, none of them at a line break.
abbrev pub AreAhead : ℕ → Bytes → List Match → Type 0
AreAhead b s [] = Unit
AreAhead b s (m ∷ ms) =
    (b ≤ m.position)
    × (m.position < length s)
    × (newline_at s m.position ≡ false)
    × AreAhead (m.position + match_length m) s ms

no_newline :
    (before : Bytes) (c : ℕ) (s : Bytes)
    → c ≡ open_brace
    → newline_at (before ++ c ∷ s) (length before) ≡ false
no_newline [] c s e = rw e refl
no_newline (x ∷ before) c s e = no_newline before c s e

brace_first : (c : ℕ) (s inner : Bytes) → match_token (c ∷ s) ≡ some inner → c ≡ open_brace
unfolding match_token same
brace_first c s inner h = ground arith

tokens_none :
    (pos c : ℕ) (s : Bytes)
    → match_token (c ∷ s) ≡ none
    → tokens_from pos zero (c ∷ s) ≡ tokens_from (pos + 1) 0 s
unfolding tokens_from match_token
tokens_none pos c s e =
    ap
      (λ (o : Option Bytes). elim o [
        | none ↦ tokens_from (pos + 1) 0 s
        | some t ↦ record { position = pos; inner = t } ∷ tokens_from (pos + 1) (length t + 3) s
      ])
      e

pub tokens_some :
    (pos c : ℕ) (s inner : Bytes)
    → match_token (c ∷ s) ≡ some inner
    → tokens_from pos zero (c ∷ s)
      ≡ record { position = pos; inner = inner } ∷ tokens_from (pos + 1) (length inner + 3) s
unfolding tokens_from match_token
tokens_some pos c s inner e =
    ap
      (λ (o : Option Bytes). elim o [
        | none ↦ tokens_from (pos + 1) 0 s
        | some t ↦ record { position = pos; inner = t } ∷ tokens_from (pos + 1) (length t + 3) s
      ])
      e

-- The characters before the rest of a string, when one of them is moved there.
one_more :
    (b : ℕ) (before : Bytes) (c : ℕ) (s : Bytes) (ms : ℕ → List Match)
    → AreAhead b ((before ++ c ∷ []) ++ s) (ms (length (before ++ c ∷ [])))
    → AreAhead b (before ++ c ∷ s) (ms (length before + 1))
one_more b before c s ms h =
    let size : length (before ++ c ∷ []) ≡ length before + 1 = length-append before (c ∷ []) in
    let whole : (before ++ c ∷ []) ++ s ≡ before ++ c ∷ s = append_assoc before (c ∷ []) s in
    rw (sym size, sym whole) h

later : (b b' : ℕ) (s : Bytes) (ms : List Match) → b' ≤ b → AreAhead b s ms → AreAhead b' s ms
later b b' s [] le h = tt
later b b' s (m ∷ ms) le h = (omega (arith, le, h.0), h.1, h.2, h.3)

pub tokens-AreAhead :
    (skip : ℕ) (before s : Bytes)
    → AreAhead (length before + skip) (before ++ s) (tokens_from (length before) skip s)
unfolding tokens_from
tokens-AreAhead skip before [] = tt
tokens-AreAhead (suc skip) before (c ∷ s) =
    let size : length (before ++ c ∷ []) ≡ length before + 1 = length-append before (c ∷ []) in
    later (length (before ++ c ∷ []) + skip) (length before + suc skip) (before ++ c ∷ s)
      (tokens_from (length before + 1) skip s) (omega (arith, size))
      (one_more (length (before ++ c ∷ []) + skip) before c s (λ n. tokens_from n skip s)
        (tokens-AreAhead skip (before ++ c ∷ []) s))
tokens-AreAhead zero before (c ∷ s) =
    let size : length (before ++ c ∷ []) ≡ length before + 1 = length-append before (c ∷ []) in
    elim (Option-cases (match_token (c ∷ s))) [
      | inl e ↦
          let rest =
            later (length (before ++ c ∷ []) + 0) (length before + 0) (before ++ c ∷ s)
              (tokens_from (length before + 1) 0 s) (omega (arith, size))
              (one_more (length (before ++ c ∷ []) + 0) before c s (λ n. tokens_from n 0 s)
                (tokens-AreAhead 0 (before ++ c ∷ []) s)) in
          subst (AreAhead (length before + 0) (before ++ c ∷ s))
            (sym (tokens_none (length before) c s e)) rest
      | inr (inner, e) ↦
          let n = length inner + 3 in
          let rest =
            later (length (before ++ c ∷ []) + n) (length before + (length inner + 4))
              (before ++ c ∷ s) (tokens_from (length before + 1) n s) (omega (arith, size))
              (one_more (length (before ++ c ∷ []) + n) before c s (λ k. tokens_from k n s)
                (tokens-AreAhead n (before ++ c ∷ []) s)) in
          let brace : c ≡ open_brace = brace_first c s inner e in
          subst (AreAhead (length before + 0) (before ++ c ∷ s))
            (sym (tokens_some (length before) c s inner e))
            (
              omega arith,
              omega (arith, length-append before (c ∷ s)),
              no_newline before c s brace,
              rest,
            )
    ]

-- Where the section goes on, before the next match.
abbrev pub IsReady : ℕ → List Match → Type 0
IsReady start [] = Unit
IsReady start (m ∷ ms) = start ≤ m.position

true-false : true ≡ false → ⊥
true-false h = cc

skips_at :
    (s : Bytes) (t : TokenType) (first next : ℕ)
    → skips_newline s t first next ≡ true
    → (leb (length s) next ≡ true) ⊎ (newline_at s next ≡ true)
unfolding skips_newline
skips_at s t first next e = ground arith

pub skips_newline-IsReady :
    (s : Bytes) (t : TokenType) (first next : ℕ) (ms : List Match)
    → AreAhead next s ms
    → IsReady (if skips_newline s t first next then next + 1 else next) ms
skips_newline-IsReady s t first next [] h = tt
skips_newline-IsReady s t first next (m ∷ ms) h = elim (Bool-cases (skips_newline s t first next)) [
  | inl e ↦ elim (skips_at s t first next e) [
    | inl end ↦ rw e (absurd (ground (arith, end, h.0, h.1)))
    | inr nl ↦
        let apart : next ≢ m.position =
          λ q. true-false (sym (subst (λ i. newline_at s i ≡ true) q nl) ∙ h.2) in
        rw e (omega (arith, h.0, apart))
  ]
  | inr e ↦ rw e h.0
]
