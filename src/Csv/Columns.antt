-- ===== src/Csv/Columns.antt =====
-- eraseColumn on the headers.
use lib_sloppy.Base.{
  ℕ, zero, suc, ◌+◌, ◌-◌, ◌≤◌, ◌<◌, ◌≡◌, refl, sym, ap, ◌∙◌, ◌⊎◌, inl, inr, true, false, List, [],
  ◌∷◌, some, Bytes, arith, length, get_elem?, ltb, ◌==◌, same, same_iff, same_refl, if◌then◌else◌,
  Bool-cases, Option-cases, ok,
}
use lib_sloppy.Csv.HeaderMap.{
  Headers, find_header, erase_header, assign_header, shift_headers, erase_from_headers,
}
use lib_sloppy.Csv.Tables.{erase_at}
use lib_sloppy.Csv.Names.{
  has_entry, names_column, names-column, Represents, find-Represents, find_sound, find_complete,
  erase-entries, assign-entries, get_elem-some,
}

names-column_none :
    (names : List Bytes) (name : Bytes) (idx : ℕ)
    → length names ≤ idx
    → names_column name idx names ≡ false
unfolding names_column
names-column_none [] name idx le = refl
names-column_none (n ∷ names) name zero le = absurd (omega arith)
names-column_none (n ∷ names) name (suc idx) le = names-column_none names name idx (omega arith)

erase_at-names_column :
    (names : List Bytes) (col i : ℕ) (name : Bytes)
    → names_column name i (erase_at col names)
      ≡ (if ltb i col then names_column name i names else names_column name (i + 1) names)
unfolding names_column erase_at
erase_at-names_column [] col i name = ground arith
erase_at-names_column (n ∷ names) zero i name =
    let e : i + 1 ≡ suc i = omega arith in
    let t : names_column name (i + 1) (n ∷ names) ≡ names_column name i names =
      rw (e, names_column) in
    ground (arith, t)
erase_at-names_column (n ∷ names) (suc col) zero name = ground arith
erase_at-names_column (n ∷ names) (suc col) (suc i) name =
    let e : suc i + 1 ≡ suc (i + 1) = omega arith in
    let t : names_column name (suc i + 1) (n ∷ names) ≡ names_column name (i + 1) names =
      rw (e, names_column) in
    ground (arith, t, erase_at-names_column names col i name)

pub length-erase_at {ℓ} :
    {A : Type ℓ} (xs : List A) (i : ℕ) → i < length xs → length (erase_at i xs) + 1 ≡ length xs
unfolding erase_at
length-erase_at [] i lt = absurd (omega arith)
length-erase_at (x ∷ xs) zero lt = omega arith
length-erase_at (x ∷ xs) (suc i) lt = omega (arith, length-erase_at xs i (omega arith))

-- The map while the headers are shifted: those before column `k` but one are those of the result.
record Shifting (h : Headers) (names : List Bytes) (col k : ℕ) : Type 0 where
  now :
      (name : Bytes) (i : ℕ)
      → has_entry name i h ≡ (
          if ltb (i + 1) k
          then names_column name i (erase_at col names)
          else if ltb i k
          then false
          else names_column name i names)

pub one_column :
    (names : List Bytes) (k : ℕ) (m : Bytes)
    → ((name : Bytes) (i j : ℕ)
        → names_column name i names ≡ true
        → names_column name j names ≡ true
        → i ≡ j)
    → get_elem? names k ≡ some m
    → (name : Bytes) → same m name ≡ true
    → (i : ℕ) → (names_column name i names ≡ false) ⊎ (i ≡ k)
one_column names k m distinct e name is i = elim (Bool-cases (names_column name i names)) [
  | inl t ↦ inr (distinct name i k t (names-column names k m name e ∙ is))
  | inr f ↦ inl f
]

Shifting-assign :
    (h : Headers) (names : List Bytes) (col k : ℕ) (m : Bytes)
    → ((name : Bytes) (i j : ℕ)
        → names_column name i names ≡ true
        → names_column name j names ≡ true
        → i ≡ j)
    → col < k
    → get_elem? names k ≡ some m
    → Shifting h names col k
    → Shifting (assign_header m (k - 1) h) names col (k + 1)
Shifting-assign h names col k m distinct lt e s = record {
  now = λ name i.
      let assigned = assign-entries name m i (k - 1) h in
      let erased = erase_at-names_column names col i name in
      let old = s.now name i in
      let moved : (i + 1 ≡ k) → names_column name (i + 1) names ≡ same m name =
        λ q. ap (λ (j : ℕ). names_column name j names) q ∙ names-column names k m name e in
      let stays : (i ≡ k) → names_column name i names ≡ same m name =
        λ q. ap (λ (j : ℕ). names_column name j names) q ∙ names-column names k m name e in
      elim (Bool-cases (same m name)) [
        | inl is ↦
            let one = one_column names k m distinct e name is i in
            let other = one_column names k m distinct e name is (i + 1) in
            ground (arith, assigned, erased, old, moved, stays, one, other)
        | inr is ↦ ground (arith, assigned, erased, old, moved, stays)
      ];
}

-- The name found for the next column.
Shifting-find :
    (h : Headers) (names : List Bytes) (col k : ℕ)
    → k < length names
    → Shifting h names col k
    → (m : Bytes) × (find_header k h ≡ some m) × (get_elem? names k ≡ some m)
Shifting-find h names col k lt s =
    let n = get_elem-some names k lt in
    let here = λ (name : Bytes). names-column names k n.0 name n.1 in
    let there : has_entry n.0 k h ≡ true = ground (arith, s.now n.0 k, here n.0, same_refl n.0) in
    elim (Option-cases (find_header k h)) [
      | inl f ↦ absurd (find_complete k h n.0 there f)
      | inr (m, f) ↦
          let is : same n.0 m ≡ true = ground (arith, s.now m k, here m, find_sound k h m f) in
          (m, f, n.1 ∙ ap some ((same_iff n.0 m).0 is))
    ]

shift-Shifting :
    (n k : ℕ) (h : Headers) (names : List Bytes) (col : ℕ)
    → ((name : Bytes) (i j : ℕ)
        → names_column name i names ≡ true
        → names_column name j names ≡ true
        → i ≡ j)
    → col < k
    → k + n ≡ length names
    → Shifting h names col k
    → (h' : Headers) × (shift_headers n k h ≡ ok h') × Shifting h' names col (length names)
unfolding shift_headers
shift-Shifting zero k h names col distinct lt e s =
    let k_end : k ≡ length names = omega (arith, e) in (h, refl, rw (sym k_end) s)
shift-Shifting (suc n) k h names col distinct lt e s =
    let found = Shifting-find h names col k (omega (arith, e)) s in
    let next = Shifting-assign h names col k found.0 distinct lt found.2 s in
    let rest =
      shift-Shifting n (k + 1) (assign_header found.0 (k - 1) h) names col distinct
        (omega (arith, lt)) (omega (arith, e)) next in
    (rest.0, rw (found.1, shift_headers) rest.1, rest.2)

-- What is erased first.
erase-Shifting :
    (h : Headers) (names : List Bytes) (col : ℕ) (m : Bytes)
    → Represents h names
    → get_elem? names col ≡ some m
    → Shifting (erase_header m h) names col (col + 1)
erase-Shifting h names col m r e = record {
  now = λ name i.
      let erased = erase-entries name m i h in
      let cut = erase_at-names_column names col i name in
      let old = r.entries name i in
      let here : (i ≡ col) → names_column name i names ≡ same m name =
        λ q. ap (λ (j : ℕ). names_column name j names) q ∙ names-column names col m name e in
      elim (Bool-cases (same m name)) [
        | inl is ↦
            let one = one_column names col m r.distinct e name is i in
            ground (arith, erased, cut, old, here, one)
        | inr is ↦ ground (arith, erased, cut, old, here)
      ];
}

shifted-Represents :
    (h h' : Headers) (names : List Bytes) (col : ℕ)
    → Represents h names
    → col < length names
    → Shifting h' names col (length names)
    → Represents h' (erase_at col names)
shifted-Represents h h' names col r lt s = record {
  entries = λ name i.
      let now = s.now name i in
      let cut = erase_at-names_column names col i name in
      elim (Bool-cases (ltb (i + 1) (length names))) [
        | inl f ↦ ground (arith, now)
        | inr f ↦
            let none1 = names-column_none names name (i + 1) (ground arith) in
            let none0 = names-column_none names name i in ground (arith, now, cut, none1, none0)
      ];
  distinct = λ name i j hi hj.
      let cuti = erase_at-names_column names col i name in
      let cutj = erase_at-names_column names col j name in
      let d = r.distinct name in
      ground (arith, cuti, cutj, d i j, d i (j + 1), d (i + 1) j, d (i + 1) (j + 1));
}

erase_nonempty :
    (h : Headers) (names : List Bytes) (col : ℕ)
    → (length h == 0) ≡ false
    → Represents h names
    → col < length names
    → (h' : Headers) × (erase_from_headers (length names) col h ≡ ok h')
      × Represents h' (erase_at col names)
unfolding erase_from_headers
erase_nonempty h names col ne r lt =
    let found = find-Represents h names r col lt in
    let start = erase-Shifting h names col found.0 r found.2 in
    let rest =
      shift-Shifting (length names - (col + 1)) (col + 1) (erase_header found.0 h) names col
        r.distinct (omega arith) (omega (arith, lt)) start in
    (
      rest.0,
      rw (ne, found.1, erase_from_headers) rest.1,
      shifted-Represents h rest.0 names col r lt rest.2,
    )

-- Erasing a column on the headers.
pub erase_from_headers-Represents :
    (h : Headers) (names : List Bytes) (col : ℕ)
    → Represents h names
    → col < length names
    → (h' : Headers) × (erase_from_headers (length names) col h ≡ ok h')
      × Represents h' (erase_at col names)
unfolding has_entry
erase_from_headers-Represents [] names col r lt =
    let n = get_elem-some names col lt in
    absurd (ground (arith, r.entries n.0 col, names-column names col n.0 n.0 n.1, same_refl n.0))
erase_from_headers-Represents (e ∷ h) names col r lt =
    erase_nonempty (e ∷ h) names col (ground arith) r lt
