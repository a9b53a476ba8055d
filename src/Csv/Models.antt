-- ===== src/Csv/Models.antt =====
-- A table as its rows and the names of its columns.
use lib_sloppy.Base.{
  ℕ, ◌+◌, ◌-◌, ◌≤◌, ◌<◌, ◌≡◌, ◌≢◌, refl, sym, ap, ◌∙◌, ◌⊎◌, inl, inr, true, false, List, [], ◌∷◌,
  ◌++◌, map, Option, none, some, Bytes, arith, length, ltb, leb, ◌==◌, ==_iff, Bool-cases, ok, All,
  All-append,
}
use lib_sloppy.Csv.HeaderMap.{Headers, erase_from_headers}
use lib_sloppy.Csv.Tables.{Table, append, erase_at, erase_in_rows, erase_column}
use lib_sloppy.Csv.Names.{Represents}
use lib_sloppy.Csv.Columns.{erase_from_headers-Represents, length-erase_at}

-- The names without that of a column.
abbrev pub erase_name : ℕ → Option (List Bytes) → Option (List Bytes)
erase_name col none = none
erase_name col (some names) = some (erase_at col names)

module _ {V : Type 0} where
  -- The headers of a table are missing, or are names of all its columns.
  unfoldable pub HasNames : Table V → Option (List Bytes) → Type 0
  HasNames t none = t.headers ≡ []
  HasNames t (some names) = (length names ≡ t.col_count) × Represents t.headers names

  -- All rows of a table have its width, and its headers, if it has any, are `names`.
  pub record Models (t : Table V) (rows : List (List V)) (names : Option (List Bytes))
      : Type 0 where
    pub same_rows : t.rows ≡ rows
    pub width : All (λ (r : List V). length r ≡ t.col_count) rows
    pub has_names : HasNames t names

  has-rows :
      (t : Table V) (rows : List (List V)) (names : Option (List Bytes))
      → HasNames t names
      → HasNames (record t { rows = rows }) names
  unfolding HasNames
  has-rows t rows none h = h
  has-rows t rows (some names) h = h

  -- A row is appended to a table that has columns exactly if it has as many; the table then has it
  -- as its last row, and the same headers. Another row is refused and changes nothing.
  pub append_lem :
      (t : Table V) (rows : List (List V)) (names : Option (List Bytes)) (row : List V)
      → Models t rows names
      → t.col_count ≢ 0
      → (length row ≢ t.col_count) × (append t row ≡ (t, false))
        ⊎ (t' : Table V) × (length row ≡ t.col_count)
          × (append t row ≡ (t', true))
          × Models t' (rows ++ row ∷ []) names
  unfolding append HasNames
  append_lem t rows names row m ne =
      let z : (t.col_count == 0) ≡ false = ground arith in
      elim (Bool-cases (length row == t.col_count)) [
        | inl e ↦
            let t' = record t { rows = t.rows ++ row ∷ [] } in
            inr (
              t',
              (==_iff (length row) t.col_count).0 e,
              rw (append, z, e),
              record {
                same_rows = ap (λ (r : List (List V)). r ++ row ∷ []) m.same_rows;
                width =
                    All-append _ rows (row ∷ []) m.width
                      ((==_iff (length row) t.col_count).0 e, tt);
                has_names = has-rows t t'.rows names m.has_names;
              },
            )
        | inr e ↦ inl (ground arith, rw (append, z, e))
      ]

  erase_in_rows_lem :
      (rows : List (List V)) (n col : ℕ)
      → All (λ (r : List V). length r ≡ n) rows
      → col < n
      → (erase_in_rows col rows ≡ ok (map (erase_at col) rows))
        × All (λ (r : List V). length r ≡ n - 1) (map (erase_at col) rows)
  unfolding erase_in_rows
  erase_in_rows_lem [] n col w lt = (refl, tt)
  erase_in_rows_lem (r ∷ rows) n col w lt =
      let rest = erase_in_rows_lem rows n col w.1 lt in
      let long : ltb col (length r) ≡ true = ground arith in
      (rw (long, rest.0), (omega (arith, length-erase_at r col (omega (arith, w.0)), w.0), rest.1))

  erase_names :
      (t : Table V) (names : Option (List Bytes)) (col : ℕ)
      → col < t.col_count
      → HasNames t names
      → (h : Headers) × (erase_from_headers t.col_count col t.headers ≡ ok h)
        × ((rows : List (List V))
            → HasNames
                (record { col_count = t.col_count - 1; rows = rows; headers = h })
                (erase_name col names))
  unfolding HasNames erase_from_headers
  erase_names t none col lt h = ([], rw h, λ rows. refl)
  erase_names t (some names) col lt h =
      let erased = erase_from_headers-Represents t.headers names col h.1 (omega (arith, h.0, lt)) in
      (
        erased.0,
        ap (λ (n : ℕ). erase_from_headers n col t.headers) (sym h.0) ∙ erased.1,
        λ rows. (omega (arith, length-erase_at names col (omega (arith, h.0, lt)), h.0), erased.2),
      )

  -- eraseColumn takes a column of the table out of all rows and out of the headers, and moves the
  -- headers behind it. Without such a column it changes nothing, and says so.
  pub erase_column_lem :
      (t : Table V) (rows : List (List V)) (names : Option (List Bytes)) (col : ℕ)
      → Models t rows names
      → (t.col_count ≤ col) × (erase_column t col ≡ ok (t, false))
        ⊎ (t' : Table V) × (t'.col_count + 1 ≡ t.col_count)
          × (erase_column t col ≡ ok (t', true))
          × Models t' (map (erase_at col) rows) (erase_name col names)
  unfolding erase_column
  erase_column_lem t rows names col m = elim (Bool-cases (leb t.col_count col)) [
    | inl e ↦ elim (Bool-cases (t.col_count == 0)) [
      | inl z ↦ inl (ground arith, rw z)
      | inr z ↦ inl (ground arith, rw (z, e))
    ]
    | inr e ↦
        let lt : col < t.col_count = ground arith in
        let z : (t.col_count == 0) ≡ false = ground arith in
        let er = erase_in_rows_lem rows t.col_count col m.width lt in
        let eh = erase_names t names col lt m.has_names in
        inr (
          record { col_count = t.col_count - 1; rows = map (erase_at col) rows; headers = eh.0 },
          omega (arith, lt),
          rw (z, e, m.same_rows, er.0, eh.1),
          record { same_rows = refl; width = er.1; has_names = eh.2 (map (erase_at col) rows) },
        )
  ]
