-- ===== src/Csv/Tables.antt =====
-- CSV_Table. A row is the list of its values, whatever their type.
use lib_sloppy.Base.{
  ℕ, zero, suc, ◌-◌, Bool, true, false, ◌&&◌, not, List, [], ◌∷◌, ◌++◌, map, none, some, Bytes,
  length, get_elem?, ltb, leb, ◌==◌, if◌then◌else◌, Result, ok, err, ◌>>=◌, out_of_range,
  undefined_behaviour,
}
use lib_sloppy.Text.Trim.{trim}
use lib_sloppy.Csv.HeaderMap.{
  Headers, find_header, lookup, erase_header, emplace_header, has_bad_char, check_headers,
  number_headers, erase_from_headers,
}

pub record Table (V : Type 0) : Type 0 where
  pub col_count : ℕ
  pub rows : List (List V)
  pub headers : Headers

module _ {V : Type 0} where
  unfoldable pub empty_table : Table V
  empty_table = record { col_count = 0; rows = []; headers = [] }

  unfoldable pub append : Table V → List V → Table V × Bool
  append t row =
      let sized = if t.col_count == 0 then record t { col_count = length row } else t in
      if not (length row == sized.col_count)
      then (sized, false)
      else (record sized { rows = sized.rows ++ row ∷ [] }, true)

  unfoldable pub get_header : Table V → ℕ → Result Bytes
  unfolding find_header
  get_header t col_idx = elim (find_header col_idx t.headers) [
    | none ↦ err out_of_range
    | some name ↦ ok name
  ]

  unfoldable pub is_valid_header : Table V → Bytes → Bool
  unfolding has_bad_char lookup
  is_valid_header t s =
      if length s == 0
      then false
      else if has_bad_char s
      then false
      else elim (lookup s t.headers) [ none ↦ true | some i ↦ false ]

  unfoldable pub set_header : Table V → ℕ → Bytes → Table V × Bool
  unfolding is_valid_header find_header erase_header emplace_header
  set_header t col_idx new_header =
      let s = trim new_header in
      if not (is_valid_header t s) then (t, false) else elim (find_header col_idx t.headers) [
        | none ↦ (t, false)
        | some name ↦
            (record t { headers = emplace_header s col_idx (erase_header name t.headers) }, true)
      ]

  unfoldable pub set_header_trimmed : Table V → List Bytes → Table V × Bool
  unfolding check_headers number_headers
  set_header_trimmed t names =
      if ltb 0 t.col_count && not (length names == t.col_count)
      then (t, false)
      else if not (check_headers names)
      then (t, false)
      else (
        record t {
          headers = number_headers names 0 [];
          col_count = if t.col_count == 0 then length names else t.col_count;
        },
        true,
      )

  unfoldable pub set_headers : Table V → List Bytes → Table V × Bool
  unfolding set_header_trimmed
  set_headers t names = set_header_trimmed t (map trim names)

  unfoldable pub get : Table V → ℕ → ℕ → Result V
  get t row_idx col_idx = elim (get_elem? t.rows row_idx) [
    | none ↦ err out_of_range
    | some row ↦ elim (get_elem? row col_idx) [ none ↦ err out_of_range | some v ↦ ok v ]
  ]

  unfoldable pub get_by_name : Table V → ℕ → Bytes → Result V
  unfolding get lookup
  get_by_name t row_idx col_name = elim (lookup col_name t.headers) [
    | none ↦ err out_of_range
    | some col_idx ↦ get t row_idx col_idx
  ]

unfoldable pub erase_at {ℓ} : {A : Type ℓ} → ℕ → List A → List A
erase_at i [] = []
erase_at zero (x ∷ xs) = xs
erase_at (suc i) (x ∷ xs) = x ∷ erase_at i xs

module _ {V : Type 0} where
  -- `erase` of an iterator at or behind the end of a row.
  unfoldable pub erase_in_rows : ℕ → List (List V) → Result (List (List V))
  unfolding erase_at
  erase_in_rows idx [] = ok []
  erase_in_rows idx (row ∷ rows) =
      let rest = erase_in_rows idx rows in
      if ltb idx (length row)
      then (rest >>= λ erased. ok (erase_at idx row ∷ erased))
      else err undefined_behaviour

  unfoldable pub erase_column : Table V → ℕ → Result (Table V × Bool)
  unfolding erase_in_rows erase_from_headers
  erase_column t col_idx =
      if t.col_count == 0
      then ok (t, false)
      else if leb t.col_count col_idx
      then ok (t, false)
      else (erase_in_rows col_idx t.rows >>= λ rows.
          erase_from_headers t.col_count col_idx t.headers >>= λ h.
          ok (record { col_count = t.col_count - 1; rows = rows; headers = h }, true))

  unfoldable pub erase_column_by_name : Table V → Bytes → Result (Table V × Bool)
  unfolding erase_column lookup
  erase_column_by_name t col_name =
      if length t.headers == 0 then ok (t, false) else elim (lookup col_name t.headers) [
        | none ↦ ok (t, false)
        | some col_idx ↦ erase_column t col_idx
      ]
