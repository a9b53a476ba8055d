-- ===== src/Template/Tokens.antt =====
-- The tokens of a template: the matches of the regular expressions, and the checks of a token.
use lib_sloppy.Base.{
  ℕ, zero, suc, ◌+◌, Bool, true, false, ◌&&◌, ◌||◌, not, List, [], ◌∷◌, Option, none, some, Bytes,
  length, take, drop, leb, ◌==◌, same, if◌then◌else◌,
}
use lib_sloppy.Text.Trim.{spaces}
use lib_sloppy.Text.Numbers.{is_digit, all_of}
use lib_sloppy.Template.{TokenType, ErrorKind, SyntaxSectionType}
use lib_sloppy.Template.TokenType.{variable, start_if, end_if, start_for, end_for, include_cmd}
use lib_sloppy.Template.ErrorKind.{syntax_error, unexpected_endif, unexpected_endfor}

abbrev pub open_brace : ℕ
open_brace = b'{'

abbrev pub close_brace : ℕ
close_brace = b'}'

abbrev pub is_brace : ℕ → Bool
is_brace c = c == open_brace || c == close_brace

-- How many characters at the front satisfy a test.
unfoldable pub run_length : (ℕ → Bool) → Bytes → ℕ
run_length p [] = 0
run_length p (c ∷ s) = let rest = run_length p s in if p c then suc rest else 0

abbrev pub no_brace : ℕ → Bool
no_brace c = not (is_brace c)

abbrev pub starts_with : Bytes → Bytes → Bool
starts_with p s = same (take (length p) s) p

-- `reToken` at the front: two braces, characters that are no braces, at least one, and two braces. The
-- text between the braces; its white space, of which the expression skips some, is trimmed later.
unfoldable pub match_token : Bytes → Option Bytes
unfolding run_length same
match_token s =
    let inner = drop 2 s in
    let n = run_length no_brace inner in
    if starts_with (open_brace ∷ open_brace ∷ []) s
      && (not (n == 0) && starts_with (close_brace ∷ close_brace ∷ []) (drop n inner))
    then some (take n inner)
    else none

-- A match: its position and the text between its braces.
pub record Match : Type 0 where
  pub position : ℕ
  pub inner : Bytes

abbrev pub match_length : Match → ℕ
match_length m = length m.inner + 4

-- The matches from position `pos` on, the first `skip` characters being part of a match already.
unfoldable pub tokens_from : ℕ → ℕ → Bytes → List Match
unfolding match_token
tokens_from pos skip [] = []
tokens_from pos (suc skip) (c ∷ s) = tokens_from (pos + 1) skip s
tokens_from pos zero (c ∷ s) = elim (match_token (c ∷ s)) [
  | none ↦ tokens_from (pos + 1) 0 s
  | some inner ↦
      record { position = pos; inner = inner } ∷ tokens_from (pos + 1) (length inner + 3) s
]

-- The class of the characters in a name, and the expressions with it.
abbrev pub is_name_char : ℕ → Bool
is_name_char c =
    (is_digit c || (leb b'a' c && leb c b'z'))
    || ((leb b'A' c && leb c b'Z') || ((c == b'_' || c == b'|') || (c == b'.' || c == b':')))

abbrev pub is_path_char : ℕ → Bool
is_path_char c = is_name_char c || c == b'/'

unfoldable pub is_valid_var : Bytes → Bool
unfolding is_digit all_of
is_valid_var token = not (length token == 0) && all_of is_name_char token

-- `reIf` behind "if ": whether there is an exclamation mark, and the name.
abbrev pub if_name : Bool → Bytes → Option (Bool × Bytes)
if_name inverted rest =
    let name = drop (spaces rest) rest in if is_valid_var name then some (inverted, name) else none

unfoldable pub match_if : Bytes → Option (Bool × Bytes)
unfolding spaces is_valid_var same
match_if token =
    if not (starts_with (b'i' ∷ b'f' ∷ b' ' ∷ []) token)
    then none
    else if starts_with (b'!' ∷ []) (drop 3 token)
    then if_name true (drop 4 token)
    else if_name false (drop 3 token)

-- `reFor` behind "for ": the longest first name, of at most `n` characters, behind which there is a
-- colon and a second name.
abbrev pub second_name : Bytes → Option Bytes
second_name rest =
    let colon = drop (spaces rest) rest in
    let name = drop (spaces (drop 1 colon)) (drop 1 colon) in
    if starts_with (b':' ∷ []) colon && is_valid_var name then some name else none

unfoldable pub match_names : ℕ → Bytes → Option (Bytes × Bytes)
unfolding spaces is_valid_var same
match_names zero rest = none
match_names (suc n) rest =
    let shorter = match_names n rest in
    elim (second_name (drop (suc n) rest)) [
      | none ↦ shorter
      | some list ↦ some (take (suc n) rest, list)
    ]

unfoldable pub match_for : Bytes → Option (Bytes × Bytes)
unfolding run_length match_names same
match_for token =
    let rest = drop 4 token in
    if starts_with (b'f' ∷ b'o' ∷ b'r' ∷ b' ' ∷ []) token
    then match_names (run_length is_name_char rest) rest
    else none

unfoldable pub match_include : Bytes → Option Bytes
unfolding all_of is_digit same
match_include token =
    let name = drop 8 token in
    if starts_with (b'i' ∷ b'n' ∷ b'c' ∷ b'l' ∷ b'u' ∷ b'd' ∷ b'e' ∷ b' ' ∷ []) token
      && (not (length name == 0) && all_of is_path_char name)
    then some name
    else none

abbrev pub word_if : Bytes
word_if = b'i' ∷ b'f' ∷ []

abbrev pub word_endif : Bytes
word_endif = b'e' ∷ b'n' ∷ b'd' ∷ b'i' ∷ b'f' ∷ []

abbrev pub word_for : Bytes
word_for = b'f' ∷ b'o' ∷ b'r' ∷ []

abbrev pub word_endfor : Bytes
word_endfor = b'e' ∷ b'n' ∷ b'd' ∷ b'f' ∷ b'o' ∷ b'r' ∷ []

abbrev pub word_include : Bytes
word_include = b'i' ∷ b'n' ∷ b'c' ∷ b'l' ∷ b'u' ∷ b'd' ∷ b'e' ∷ []

-- What the checks return: 0 for another token, 1 for a valid one, -1 for an invalid one.
pub data Verdict : Type 0 where
  other valid invalid : Verdict

abbrev pub verdict : Bytes → Bytes → Bool → Verdict
verdict word token matches =
    if not (starts_with word token) then other else if matches then valid else invalid

abbrev pub has {ℓ} : {A : Type ℓ} → Option A → Bool
has none = false
has (some _) = true

unfoldable pub is_valid_endif : Bytes → Verdict
unfolding same
is_valid_endif token = verdict word_endif token (same token word_endif)

unfoldable pub is_valid_if : Bytes → Verdict
unfolding same match_if
is_valid_if token = verdict word_if token (has (match_if token))

unfoldable pub is_valid_endfor : Bytes → Verdict
unfolding same
is_valid_endfor token = verdict word_endfor token (same token word_endfor)

unfoldable pub is_valid_for : Bytes → Verdict
unfolding same match_for
is_valid_for token = verdict word_for token (has (match_for token))

unfoldable pub is_valid_include : Bytes → Verdict
unfolding same match_include
is_valid_include token = verdict word_include token (has (match_include token))

-- The first check that knows the token.
abbrev pub either_kind : TokenType → Verdict → TokenType × Bool → TokenType × Bool
either_kind t valid next = (t, true)
either_kind t invalid next = (t, false)
either_kind t other next = next

unfoldable pub check_token : Bytes → TokenType × Bool
unfolding is_valid_endif is_valid_if is_valid_endfor is_valid_for is_valid_include is_valid_var
check_token token = either_kind end_if (is_valid_endif token) (
    either_kind start_if (is_valid_if token) (
      either_kind end_for (is_valid_endfor token) (
        either_kind start_for (is_valid_for token)
          (either_kind include_cmd (is_valid_include token) (variable, is_valid_var token)))))

-- The errors of a token of a type in a section.
abbrev pub misplaced : TokenType → SyntaxSectionType → Option ErrorKind
misplaced end_if SyntaxSectionType.condition = none
misplaced end_if _ = some unexpected_endif
misplaced end_for SyntaxSectionType.for_loop = none
misplaced end_for _ = some unexpected_endfor
misplaced _ _ = none

unfoldable pub do_syntax_check : Bytes → SyntaxSectionType → TokenType × Option ErrorKind
unfolding check_token
do_syntax_check token sec_type =
    let (tt, is_valid) = check_token token in
    (tt, if not is_valid then some (syntax_error tt) else misplaced tt sec_type)
