-- ===== src/Csv/Names.antt =====
-- The headers of a table as the list of the columns' names.
use lib_sloppy.Base.{
  ℕ, zero, suc, ◌<◌, ◌≡◌, ◌≢◌, refl, sym, ap, ◌∙◌, inl, inr, Bool, true, false, ◌&&◌, ◌||◌, not,
  List, [], ◌∷◌, none, some, Bytes, arith, length, get_elem?, ◌==◌, same, same_iff, same_refl,
  Bool-cases, Option-cases,
}
use lib_sloppy.Csv.HeaderMap.{
  Headers, find_header, lookup, erase_header, emplace_header, assign_header,
}

-- An entry of the map, and the name of a column.
unfoldable pub has_entry : Bytes → ℕ → Headers → Bool
has_entry name idx [] = false
has_entry name idx (e ∷ h) = (same e.0 name && e.1 == idx) || has_entry name idx h

unfoldable pub names_column : Bytes → ℕ → List Bytes → Bool
names_column name idx names = elim (get_elem? names idx) [ none ↦ false | some n ↦ same n name ]

-- A map of headers that says of each name which column has it, and of each column one name.
pub record Represents (h : Headers) (names : List Bytes) : Type 0 where
  pub entries : (name : Bytes) (idx : ℕ) → has_entry name idx h ≡ names_column name idx names
  pub distinct :
      (name : Bytes) (i j : ℕ)
      → names_column name i names ≡ true
      → names_column name j names ≡ true
      → i ≡ j

pub find_sound :
    (idx : ℕ) (h : Headers) (name : Bytes)
    → find_header idx h ≡ some name
    → has_entry name idx h ≡ true
unfolding find_header has_entry
find_sound idx [] name e = cc
find_sound idx (x ∷ h) name e = elim (Bool-cases (x.1 == idx)) [
  | inl f ↦ (let n : x.0 ≡ name = ground arith in ground (arith, (same_iff x.0 name).1 n))
  | inr f ↦ ground (arith, find_sound idx h name (ground arith))
]

pub find_complete :
    (idx : ℕ) (h : Headers) (name : Bytes) → has_entry name idx h ≡ true → find_header idx h ≢ none
unfolding find_header has_entry
find_complete idx [] name e = cc
find_complete idx (x ∷ h) name e = elim (Bool-cases (x.1 == idx)) [
  | inl f ↦ ground arith
  | inr f ↦ ground (arith, find_complete idx h name (ground arith))
]

pub erase-entries :
    (name m : Bytes) (idx : ℕ) (h : Headers)
    → has_entry name idx (erase_header m h) ≡ (has_entry name idx h && not (same m name))
unfolding erase_header has_entry
erase-entries name m idx [] = refl
erase-entries name m idx (x ∷ h) =
    let rest = erase-entries name m idx h in
    elim (Bool-cases (same x.0 m)) [
      | inl e ↦
          let t : same x.0 name ≡ same m name =
            ap (λ (a : Bytes). same a name) ((same_iff x.0 m).0 e) in
          ground (arith, rest, t, e)
      | inr n ↦ elim (Bool-cases (same m name)) [
        | inl e ↦
            let t : same x.0 m ≡ same x.0 name = ap (same x.0) ((same_iff m name).0 e) in
            ground (arith, rest, t, e, n)
        | inr k ↦ ground (arith, rest, n, k)
      ]
    ]

pub assign-entries :
    (name m : Bytes) (idx i : ℕ) (h : Headers)
    → has_entry name idx (assign_header m i h)
      ≡ ((same m name && i == idx) || (has_entry name idx h && not (same m name)))
unfolding assign_header has_entry
assign-entries name m idx i h = rw (erase-entries name m idx h)

pub lookup-none :
    (name : Bytes) (h : Headers) → lookup name h ≡ none → (idx : ℕ) → has_entry name idx h ≡ false
unfolding lookup has_entry
lookup-none name [] e idx = refl
lookup-none name (x ∷ h) e idx = elim (Bool-cases (same x.0 name)) [
  | inl f ↦ absurd (ground arith)
  | inr f ↦ ground (arith, lookup-none name h (ground arith) idx)
]

pub emplace-entries :
    (name m : Bytes) (idx i : ℕ) (h : Headers)
    → lookup m h ≡ none
    → has_entry name idx (emplace_header m i h)
      ≡ ((same m name && i == idx) || has_entry name idx h)
unfolding emplace_header has_entry
emplace-entries name m idx i h e =
    let t : emplace_header m i h ≡ (m, i) ∷ h = rw (e, emplace_header) in rw t

pub get_elem-some {ℓ} :
    {A : Type ℓ} (xs : List A) (i : ℕ) → i < length xs → (x : A) × (get_elem? xs i ≡ some x)
get_elem-some [] i lt = absurd (omega arith)
get_elem-some (x ∷ xs) zero lt = (x, refl)
get_elem-some (x ∷ xs) (suc i) lt = get_elem-some xs i (omega arith)

pub names-column :
    (names : List Bytes) (idx : ℕ) (n name : Bytes)
    → get_elem? names idx ≡ some n
    → names_column name idx names ≡ same n name
unfolding names_column
names-column names idx n name e = rw (e, names_column)

-- The name that `find_if` finds for a column.
pub find-Represents :
    (h : Headers) (names : List Bytes) (r : Represents h names) (idx : ℕ)
    → idx < length names
    → (name : Bytes) × (find_header idx h ≡ some name) × (get_elem? names idx ≡ some name)
find-Represents h names r idx lt =
    let n = get_elem-some names idx lt in
    let there : has_entry n.0 idx h ≡ true =
      r.entries n.0 idx ∙ names-column names idx n.0 n.0 n.1 ∙ same_refl n.0 in
    elim (Option-cases (find_header idx h)) [
      | inl e ↦ absurd (find_complete idx h n.0 there e)
      | inr (m, e) ↦
          let is : n.0 ≡ m = (same_iff n.0 m).0 (
            sym (names-column names idx n.0 m n.1)
            ∙ sym (r.entries m idx)
            ∙ find_sound idx h m e) in
          (m, e, n.1 ∙ ap some is)
    ]
