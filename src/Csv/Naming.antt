-- ===== src/Csv/Naming.antt =====
-- Setting and getting headers, and cells by header.
use lib_sloppy.Base.{
  get_elem-lt, ℕ, zero, suc, ◌+◌, ◌-◌, ◌≡◌, ◌≢◌, refl, sym, ap, ◌∙◌, ◌⊎◌, inl, inr, true, false,
  ◌&&◌, ◌||◌, List, [], ◌∷◌, map, Option, none, some, Bytes, arith, length, get_elem?, ltb, leb,
  ◌==◌, ==_iff, same, same_iff, same_refl, Bool-cases, Option-cases, ok, err, out_of_range,
  length-map,
}
use lib_sloppy.Text.Trim.{trim}
use lib_sloppy.Csv.HeaderMap.{
  Headers, find_header, lookup, emplace_header, occurs, check_headers, number_headers,
}
use lib_sloppy.Csv.Tables.{Table, get_header, get, get_by_name, set_header_trimmed, set_headers}
use lib_sloppy.Csv.Names.{
  has_entry, names_column, names-column, Represents, find-Represents, find_sound, lookup-none,
  emplace-entries,
}
use lib_sloppy.Csv.HeaderRules.{AreHeaders, checked-AreHeaders, AreHeaders-check}
use lib_sloppy.Csv.Models.{Models, HasNames}

pub lookup_sound :
    (name : Bytes) (h : Headers) (idx : ℕ) → lookup name h ≡ some idx → has_entry name idx h ≡ true
unfolding lookup has_entry
lookup_sound name [] idx e = cc
lookup_sound name (x ∷ h) idx e = elim (Bool-cases (same x.0 name)) [
  | inl f ↦ let i : x.1 ≡ idx = ground arith in ground (arith, i)
  | inr f ↦ ground (arith, lookup_sound name h idx (ground arith))
]

-- The names that occur are those of the columns.
occurs-column :
    (name : Bytes) (names : List Bytes) (i : ℕ)
    → occurs name names ≡ false
    → names_column name i names ≡ false
unfolding occurs names_column
occurs-column name [] i h = refl
occurs-column name (n ∷ names) zero h = ground arith
occurs-column name (n ∷ names) (suc i) h = occurs-column name names i (ground arith)

lookup-some :
    (name : Bytes) (h : Headers) (idx : ℕ) → has_entry name idx h ≡ true → lookup name h ≢ none
lookup-some name h idx t e = ground (arith, lookup-none name h e idx)

head-distinct :
    (n : Bytes) (names : List Bytes)
    → check_headers (n ∷ names) ≡ true
    → (occurs n names ≡ false) × (check_headers names ≡ true)
unfolding check_headers
head-distinct n names h = (ground arith, ground arith)

only_head :
    (n : Bytes) (names : List Bytes) (name : Bytes) (i : ℕ)
    → check_headers (n ∷ names) ≡ true
    → same n name ≡ true
    → names_column name i names ≡ false
only_head n names name i h e =
    ap (λ (m : Bytes). names_column m i names) (sym ((same_iff n name).0 e))
    ∙ occurs-column n names i (head-distinct n names h).0

checked-distinct :
    (names : List Bytes)
    → check_headers names ≡ true
    → (name : Bytes) (i j : ℕ) → names_column name i names ≡ true
    → names_column name j names ≡ true
    → i ≡ j
unfolding check_headers names_column
checked-distinct [] h name i j hi hj = cc
checked-distinct (n ∷ names) h name zero zero hi hj = refl
checked-distinct (n ∷ names) h name zero (suc j) hi hj =
    ground (arith, only_head n names name j h hi)
checked-distinct (n ∷ names) h name (suc i) zero hi hj =
    ground (arith, only_head n names name i h hj)
checked-distinct (n ∷ names) h name (suc i) (suc j) hi hj =
    ap suc (checked-distinct names (ground arith) name i j hi hj)

occurs_head : (n : Bytes) (names : List Bytes) → occurs n (n ∷ names) ≡ true
unfolding occurs
occurs_head n names = rw (same_refl n)

-- The other names stay new when one has been placed.
fresh-emplace :
    (n : Bytes) (names : List Bytes) (k : ℕ) (h : Headers)
    → check_headers (n ∷ names) ≡ true
    → ((name : Bytes) → occurs name (n ∷ names) ≡ true → lookup name h ≡ none)
    → (name : Bytes) → occurs name names ≡ true
    → lookup name (emplace_header n k h) ≡ none
unfolding emplace_header lookup occurs
fresh-emplace n names k h c fresh name o =
    let new : lookup n h ≡ none = fresh n (occurs_head n names) in
    let old : lookup name h ≡ none = fresh name (ground arith) in
    let first : occurs n names ≡ false = (head-distinct n names c).0 in
    elim (Bool-cases (same n name)) [
      | inl e ↦
          let same_occurs : occurs n names ≡ occurs name names =
            ap (λ (m : Bytes). occurs m names) ((same_iff n name).0 e) in
          absurd (ground (arith, same_occurs))
      | inr f ↦ rw (new, lookup, f, old)
    ]

-- Numbering names that are new to the map and distinct.
number-entries :
    (names : List Bytes) (k : ℕ) (h : Headers)
    → check_headers names ≡ true
    → ((name : Bytes) → occurs name names ≡ true → lookup name h ≡ none)
    → (name : Bytes) (idx : ℕ)
    → has_entry name idx (number_headers names k h)
      ≡ (has_entry name idx h || (leb k idx && names_column name (idx - k) names))
unfolding check_headers number_headers names_column
number-entries [] k h c fresh name idx = ground arith
number-entries (n ∷ names) k h c fresh name idx =
    let new : lookup n h ≡ none = fresh n (occurs_head n names) in
    let placed = emplace-entries name n idx k h new in
    let rest =
      number-entries names (k + 1) (emplace_header n k h) (head-distinct n names c).1
        (fresh-emplace n names k h c fresh) name idx in
    elim (Bool-cases (leb (k + 1) idx)) [
      | inl l ↦
          let q : idx - k ≡ suc (idx - (k + 1)) = ground arith in
          let t : names_column name (idx - k) (n ∷ names)
              ≡ names_column name (idx - (k + 1)) names =
            rw (q, names_column) in
          ground (arith, placed, rest, t)
      | inr l ↦ elim (Bool-cases (k == idx)) [
        | inl e ↦
            let q : idx - k ≡ 0 = ground arith in
            let t : names_column name (idx - k) (n ∷ names) ≡ same n name = rw (q, names_column) in
            ground (arith, placed, rest, t)
        | inr e ↦ ground (arith, placed, rest)
      ]
    ]

pub number-Represents :
    (names : List Bytes) → check_headers names ≡ true → Represents (number_headers names 0 []) names
unfolding has_entry lookup
number-Represents names c = record {
  entries = λ name idx.
      let placed = number-entries names 0 [] c (λ name o. refl) name idx in
      let z : idx - 0 ≡ idx = omega arith in
      let t : names_column name (idx - 0) names ≡ names_column name idx names =
        ap (λ (i : ℕ). names_column name i names) z in
      ground (arith, placed, t);
  distinct = checked-distinct names c;
}

pub column-get :
    (names : List Bytes) (i : ℕ) (name : Bytes)
    → names_column name i names ≡ true
    → get_elem? names i ≡ some name
unfolding names_column
column-get [] i name h = cc
column-get (n ∷ names) zero name h = ap some ((same_iff n name).0 h)
column-get (n ∷ names) (suc i) name h = column-get names i name h

module _ {V : Type 0} where
  -- On a consistent table that has columns, setHeader with a list of names refuses a list of another
  -- length than the table's width, and a list with a name that, trimmed, is empty, repeated, or has a
  -- comma or a quotation mark; it then changes nothing. Every other list is accepted, and the trimmed
  -- names become the headers.
  pub set_headers_lem :
      (t : Table V) (rows : List (List V)) (old : Option (List Bytes)) (names : List Bytes)
      → Models t rows old
      → t.col_count ≢ 0
      → ((length names ≢ t.col_count) ⊎ ¬ AreHeaders (map trim names))
          × (set_headers t names ≡ (t, false))
        ⊎ (t' : Table V) × (length names ≡ t.col_count)
          × AreHeaders (map trim names)
          × (t'.col_count ≡ t.col_count)
          × (set_headers t names ≡ (t', true))
          × Models t' rows (some (map trim names))
  unfolding set_headers set_header_trimmed HasNames
  set_headers_lem t rows old names m ne =
      let z : ltb 0 t.col_count ≡ true = ground arith in
      let zero : (t.col_count == 0) ≡ false = ground arith in
      let len = length-map names trim in
      elim (Bool-cases (length (map trim names) == t.col_count)) [
        | inr w ↦ inl (inl (ground (arith, len)), rw (z, w))
        | inl w ↦ elim (Bool-cases (check_headers (map trim names))) [
          | inr c ↦
              inl (
                inr (λ g. (let accepted = AreHeaders-check (map trim names) g in cc)),
                rw (z, w, c),
              )
          | inl c ↦ inr (
            record t { headers = number_headers (map trim names) 0 [] },
            ground (arith, len, w),
            checked-AreHeaders (map trim names) c,
            refl,
            rw (z, w, c, zero),
            record {
              same_rows = m.same_rows;
              width = m.width;
              has_names = ((==_iff _ _).0 w, number-Represents (map trim names) c);
            },
          )
        ]
      ]

  -- getHeader gives the name of a column, and throws out_of_range for any other index.
  pub get_header_lem :
      (t : Table V) (rows : List (List V)) (names : List Bytes) (idx : ℕ)
      → Models t rows (some names)
      → get_header t idx
        ≡ elim (get_elem? names idx) [ none ↦ err out_of_range | some name ↦ ok name ]
  unfolding get_header HasNames
  get_header_lem t rows names idx m =
      let r = m.has_names.1 in
      elim (Option-cases (get_elem? names idx)) [
        | inl e ↦ elim (Option-cases (find_header idx t.headers)) [
          | inl f ↦ rw (e, get_header, f)
          | inr (name, f) ↦
              let there = r.entries name idx in
              let found = find_sound idx t.headers name f in
              let is = column-get names idx name (sym there ∙ found) in
              absurd (ground (arith, e, is))
        ]
        | inr (n, e) ↦
            let found = find-Represents t.headers names r idx (get_elem-lt names idx n e) in
            rw (found.2, get_header, found.1)
      ]

  -- A cell is read by the name of its column as by the index of the column that has the name, and
  -- with a name that no column has, out_of_range is thrown.
  pub get_by_name_lem :
      (t : Table V) (rows : List (List V)) (names : List Bytes) (row_idx : ℕ) (name : Bytes)
      → Models t rows (some names)
      → ((idx : ℕ) × (get_elem? names idx ≡ some name)
          × (get_by_name t row_idx name ≡ get t row_idx idx))
        ⊎ ((idx : ℕ) → get_elem? names idx ≢ some name)
          × (get_by_name t row_idx name ≡ err out_of_range)
  unfolding get_by_name HasNames
  get_by_name_lem t rows names row_idx name m =
      let r = m.has_names.1 in
      elim (Option-cases (lookup name t.headers)) [
        | inl e ↦ inr (
          λ idx q.
              let there = r.entries name idx in
              let missing = lookup-none name t.headers e idx in
              let named = names-column names idx name name q in
              ground (arith, there, missing, named, same_refl name),
          rw (get_by_name, e),
        )
        | inr (i, e) ↦ inl (
          i,
          column-get names i name (sym (r.entries name i) ∙ lookup_sound name t.headers i e),
          rw (get_by_name, e),
        )
      ]
