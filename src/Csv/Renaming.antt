-- ===== src/Csv/Renaming.antt =====
-- setHeader for one column, and tables whose rows have different widths.
use lib_sloppy.Base.{
  get_elem-lt, ℕ, zero, suc, ◌≤◌, ◌<◌, ◌≡◌, ◌≢◌, refl, sym, ap, ◌∙◌, ◌⊎◌, inl, inr, true, false,
  List, [], ◌∷◌, none, some, Bytes, arith, length, get_elem?, leb, ◌==◌, same, same_iff, same_refl,
  if◌then◌else◌, Bool-cases, Option-cases,
}
use lib_sloppy.Text.Trim.{trim}
use lib_sloppy.Csv.HeaderMap.{
  Headers, find_header, lookup, emplace_header, erase_header, has_bad_char,
}
use lib_sloppy.Csv.Tables.{Table, empty_table, append, set_header, is_valid_header}
use lib_sloppy.Csv.Names.{
  names_column, names-column, Represents, find-Represents, find_sound, lookup-none, erase-entries,
  emplace-entries,
}
use lib_sloppy.Csv.Columns.{one_column}
use lib_sloppy.Csv.Models.{Models, HasNames}
use lib_sloppy.Csv.Naming.{lookup_sound, column-get}

-- The list with another element at an index.
unfoldable pub set_at {ℓ} : {A : Type ℓ} → ℕ → A → List A → List A
set_at i y [] = []
set_at zero y (x ∷ xs) = y ∷ xs
set_at (suc i) y (x ∷ xs) = x ∷ set_at i y xs

length-set_at {ℓ} : {A : Type ℓ} (i : ℕ) (y : A) (xs : List A) → length (set_at i y xs) ≡ length xs
unfolding set_at
length-set_at i y [] = refl
length-set_at zero y (x ∷ xs) = refl
length-set_at (suc i) y (x ∷ xs) = ap suc (length-set_at i y xs)

set_at-column :
    (names : List Bytes) (idx i : ℕ) (s name : Bytes)
    → idx < length names
    → names_column name i (set_at idx s names)
      ≡ (if i == idx then same s name else names_column name i names)
unfolding set_at names_column
set_at-column [] idx i s name lt = absurd (omega arith)
set_at-column (n ∷ names) zero zero s name lt = refl
set_at-column (n ∷ names) zero (suc i) s name lt = ground arith
set_at-column (n ∷ names) (suc idx) zero s name lt = ground arith
set_at-column (n ∷ names) (suc idx) (suc i) s name lt =
    ground (arith, set_at-column names idx i s name (omega arith))

erased-lookup : (s m : Bytes) (h : Headers) → lookup s h ≡ none → lookup s (erase_header m h) ≡ none
erased-lookup s m h e = elim (Option-cases (lookup s (erase_header m h))) [
  | inl f ↦ f
  | inr (i, f) ↦
      let there = lookup_sound s (erase_header m h) i f in
      let none_there = lookup-none s h e i in
      absurd (ground (arith, there, none_there, erase-entries s m i h))
]

rename-Represents :
    (h : Headers) (names : List Bytes) (idx : ℕ) (m s : Bytes)
    → Represents h names
    → get_elem? names idx ≡ some m
    → lookup s h ≡ none
    → Represents (emplace_header s idx (erase_header m h)) (set_at idx s names)
rename-Represents h names idx m s r e new =
    let lt = get_elem-lt names idx m e in
    record {
      entries = λ name i.
          let placed = emplace-entries name s i idx (erase_header m h) (erased-lookup s m h new) in
          let erased = erase-entries name m i h in
          let old = r.entries name i in
          let now = set_at-column names idx i s name lt in
          let here : (i ≡ idx) → names_column name i names ≡ same m name =
            λ q. ap (λ (j : ℕ). names_column name j names) q ∙ names-column names idx m name e in
          elim (Bool-cases (same m name)) [
            | inl is ↦
                let one = one_column names idx m r.distinct e name is i in
                ground (arith, placed, erased, old, now, here, one)
            | inr is ↦ ground (arith, placed, erased, old, now, here)
          ];
      distinct = λ name i j hi hj.
          let nowi = set_at-column names idx i s name lt in
          let nowj = set_at-column names idx j s name lt in
          let d = r.distinct name i j in
          elim (Bool-cases (same s name)) [
            | inl is ↦
                let gone = λ (k : ℕ).
                  ap (λ (n : Bytes). names_column n k names) (sym ((same_iff s name).0 is))
                  ∙ sym (r.entries s k)
                  ∙ lookup-none s h new k in
                ground (arith, hi, hj, nowi, nowj, gone i, gone j)
            | inr is ↦ ground (arith, hi, hj, nowi, nowj, d)
          ];
    }

valid-new :
    {V : Type 0} (t : Table V) (s : Bytes)
    → is_valid_header t s ≡ true
    → (length s ≢ 0) × (has_bad_char s ≡ false) × (lookup s t.headers ≡ none)
unfolding is_valid_header
valid-new t s h = elim (Option-cases (lookup s t.headers)) [
  | inl e ↦ (ground arith, ground arith, e)
  | inr (i, e) ↦ absurd (ground (arith, e))
]

find-length :
    (h : Headers) (names : List Bytes) (idx : ℕ)
    → Represents h names
    → find_header idx h ≡ none
    → length names ≤ idx
find-length h names idx r f = elim (Bool-cases (leb (length names) idx)) [
  | inl l ↦ ground arith
  | inr l ↦
      let found = find-Represents h names r idx (ground arith) in
      absurd (ground (arith, found.1, f))
]

module _ {V : Type 0} where
  -- setHeader for one column of a table with headers changes nothing unless there is such a column
  -- and the new name, trimmed, is not empty, has no comma and no quotation mark and is the name of
  -- no column; then the column has the new name, and all others keep theirs.
  pub set_header_lem :
      (t : Table V) (rows : List (List V)) (names : List Bytes) (idx : ℕ) (name : Bytes)
      → Models t rows (some names)
      → ((is_valid_header t (trim name) ≡ false) ⊎ (length names ≤ idx))
          × (set_header t idx name ≡ (t, false))
        ⊎ (t' : Table V) × (length (trim name) ≢ 0)
          × (has_bad_char (trim name) ≡ false)
          × ((i : ℕ) → get_elem? names i ≢ some (trim name))
          × (set_header t idx name ≡ (t', true))
          × Models t' rows (some (set_at idx (trim name) names))
  unfolding set_header HasNames
  set_header_lem t rows names idx name m =
      let r = m.has_names.1 in
      let s = trim name in
      elim (Bool-cases (is_valid_header t s)) [
        | inr v ↦ inl (inl v, rw (set_header, v))
        | inl v ↦
            let new = valid-new t s v in
            elim (Option-cases (find_header idx t.headers)) [
              | inl f ↦ inl (inr (find-length t.headers names idx r f), rw (set_header, v, f))
              | inr (n, f) ↦
                  let is =
                    column-get names idx n (sym (r.entries n idx) ∙ find_sound idx t.headers n f) in
                  inr (
                    record t { headers = emplace_header s idx (erase_header n t.headers) },
                    new.0,
                    new.1,
                    (λ i q.
                        let old = r.entries s i in
                        let gone = lookup-none s t.headers new.2 i in
                        let named = names-column names i s s q in
                        ground (arith, old, gone, named, same_refl s)),
                    rw (set_header, v, f),
                    record {
                      same_rows = m.same_rows;
                      width = m.width;
                      has_names = (
                        length-set_at idx s names ∙ m.has_names.0,
                        rename-Represents t.headers names idx n s r is new.2,
                      );
                    },
                  )
            ]
      ]

  -- An empty row and then a row with columns are both appended to an empty table, which then has
  -- rows of different widths.
  pub append_mixes_widths :
      (row : List V)
      → row ≢ []
      → (append (append empty_table []).0 row
          ≡ (record { col_count = length row; rows = [] ∷ row ∷ []; headers = [] }, true))
        × (length row ≢ 0)
  unfolding append empty_table
  append_mixes_widths [] ne = absurd (ne refl)
  append_mixes_widths (x ∷ row) ne = (ground arith, ground arith)
