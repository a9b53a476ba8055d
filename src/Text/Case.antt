-- ===== src/Text/Case.antt =====
-- toUpper and toLower: the letters of ASCII, and those of a table, which take two bytes in UTF-8.
use lib_sloppy.Base.{ℕ, ◌+◌, ◌-◌, ◌&&◌, List, [], ◌∷◌, none, some, Bytes, map, leb, if◌then◌else◌}
use lib_sloppy.Text.Search.{replace_all}

abbrev pub to_upper_char : ℕ → ℕ
to_upper_char c = if leb b'a' c && leb c b'z' then c - 32 else c

abbrev pub to_lower_char : ℕ → ℕ
to_lower_char c = if leb b'A' c && leb c b'Z' then c + 32 else c

-- The letters of the table in lower and in upper case; both begin with the same byte.
abbrev umlaut : ℕ → Bytes × Bytes
umlaut second = (195 ∷ second ∷ [], 195 ∷ (second - 32) ∷ [])

abbrev pub umlaut_translation_table : List (Bytes × Bytes)
umlaut_translation_table = map umlaut (
    164 ∷ 182 ∷ 188 ∷ 161 ∷ 169 ∷ 173 ∷ 179 ∷ 186 ∷ 160 ∷ 168 ∷ 172 ∷ 178 ∷ 185 ∷ 162 ∷ 170 ∷ 174
    ∷ 180 ∷ 187 ∷ [])

-- The string after replaceAll, whose fuel is enough for keys that are not empty.
abbrev replaced : Bytes → Bytes → Bytes → Bytes
replaced s key value = elim (replace_all s key value) [ none ↦ s | some r ↦ r.0 ]

abbrev pub upper_umlauts : List (Bytes × Bytes) → Bytes → Bytes
upper_umlauts [] s = s
upper_umlauts (u ∷ us) s = upper_umlauts us (replaced s u.0 u.1)

abbrev pub lower_umlauts : List (Bytes × Bytes) → Bytes → Bytes
lower_umlauts [] s = s
lower_umlauts (u ∷ us) s = lower_umlauts us (replaced s u.1 u.0)

unfoldable pub to_upper : Bytes → Bytes
unfolding replace_all
to_upper s = upper_umlauts umlaut_translation_table (map to_upper_char s)

unfoldable pub to_lower : Bytes → Bytes
unfolding replace_all
to_lower s = lower_umlauts umlaut_translation_table (map to_lower_char s)
