-- ===== src/Csv/Escape.antt =====
-- escapeStringForCSV and unescapeStringForCSV. A `regex_replace` whose expression is one literal
-- character or two replaces the matches from left to right.
use lib_sloppy.Base.{
  ℕ, Bool, true, ◌&&◌, ◌||◌, not, [], ◌∷◌, ◌++◌, Option, none, some, Bytes, length, ◌==◌,
  if◌then◌else◌, Result, ok, err, invalid_argument,
}

unfoldable pub replace_char : ℕ → Bytes → Bytes → Bytes
replace_char a value [] = []
replace_char a value (c ∷ s) = (if c == a then value else c ∷ []) ++ replace_char a value s

unfoldable pub replace_pair : ℕ → ℕ → Bytes → Bytes → Bytes
replace_pair a b value [] = []
replace_pair a b value (c ∷ []) = c ∷ []
replace_pair a b value (c ∷ d ∷ s) =
    let behind = replace_pair a b value s in
    let rest = replace_pair a b value (d ∷ s) in
    if c == a && d == b then value ++ behind else c ∷ rest

abbrev pub backslash : ℕ
backslash = b'\\'

abbrev pub quote : ℕ
quote = b'"'

abbrev pub comma : ℕ
comma = b','

abbrev pub newline : ℕ
newline = 10

unfoldable pub escape_string_for_csv : Bytes → Bool → Bytes
unfolding replace_char
escape_string_for_csv raw_input add_quotes =
    let backslashes = replace_char backslash (backslash ∷ backslash ∷ []) raw_input in
    let quotes = replace_char quote (backslash ∷ quote ∷ []) backslashes in
    let commas = replace_char comma (backslash ∷ comma ∷ []) quotes in
    let result = replace_char newline (backslash ∷ b'n' ∷ []) commas in
    if add_quotes then quote ∷ (result ++ quote ∷ []) else result

-- The search for a character `a` that is not escaped, from a position on, with the character before
-- it, if there is one.
unfoldable pub all_escaped : ℕ → Option ℕ → Bytes → Bool
all_escaped a before [] = true
all_escaped a before (c ∷ s) =
    (if c == a
      then elim before [ none ↦ a == backslash | some p ↦ a == backslash || p == backslash ]
      else true)
    && all_escaped a (some c) s

unfoldable pub unescape_string_for_csv : Bytes → Result Bytes
unfolding all_escaped replace_pair
unescape_string_for_csv escaped_input =
    if length escaped_input == 0
    then ok []
    else if not (all_escaped comma none escaped_input)
    then err invalid_argument
    else if not (all_escaped backslash none escaped_input)
    then err invalid_argument
    else (let newlines = replace_pair backslash b'n' (newline ∷ []) escaped_input in
        let commas = replace_pair backslash comma (comma ∷ []) newlines in
        let quotes = replace_pair backslash quote (quote ∷ []) commas in
        ok (replace_pair backslash backslash (backslash ∷ []) quotes))
