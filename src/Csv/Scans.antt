-- ===== src/Csv/Scans.antt =====
-- The commas of a line that is made of fields, and its cutting at them.
use lib_sloppy.Base.{
  ℕ, suc, ◌+◌, ◌-◌, ◌<◌, ◌≡◌, refl, sym, ap, ◌∙◌, true, false, ◌||◌, List, [], ◌∷◌, ◌++◌, map,
  Option, none, some, Bytes, length, length-append, append_assoc, ltb, ◌==◌, if◌then◌else◌, Result,
  ok, err, ◌>>=◌, arith, All, Bool-cases, inl, inr, append-nil,
}
use lib_sloppy.Text.Edit.{slice, slice_lem, npos}
use lib_sloppy.Text.Trim.{trim-nil}
use lib_sloppy.Csv.Escape.{comma}
use lib_sloppy.Csv.Values.{StringRepresentation}
use lib_sloppy.Csv.Rows.{
  is_effective, count_quote, is_separator, comma_positions, chunk_of, cut_chunks,
  split_input_in_chunks,
}

-- The last character and the number of quotation marks after a text in which no comma separates.
unfoldable pub passes : StringRepresentation → ℕ → ℕ → Bytes → Option (ℕ × ℕ)
passes rep prev q [] = some (prev, q)
passes rep prev q (c ∷ s) =
    let count = count_quote rep prev q c in
    let rest = passes rep c count s in
    if ltb 2 count || is_separator rep prev count c then none else rest

bind_ok {ℓ} : {A : Type ℓ} (m : Result A) → (m >>= λ a. ok a) ≡ m
bind_ok (err e) = refl
bind_ok (ok a) = refl

none-some {ℓ} : {A : Type ℓ} {a : A} → none ≡ some a → ⊥
none-some h = cc

-- One more character that neither separates nor is a quotation mark too many.
passes_cons :
    (rep : StringRepresentation) (prev q c : ℕ) (w : Bytes) (p' q' : ℕ)
    → passes rep prev q (c ∷ w) ≡ some (p', q')
    → (ltb 2 (count_quote rep prev q c) ≡ false)
      × (is_separator rep prev (count_quote rep prev q c) c ≡ false)
      × (passes rep c (count_quote rep prev q c) w ≡ some (p', q'))
unfolding passes
passes_cons rep prev q c w p' q' h =
    let count = count_quote rep prev q c in
    elim (Bool-cases (ltb 2 count)) [
      | inl many ↦ absurd (none-some (sym (rw (passes, many)) ∙ h))
      | inr few ↦ elim (Bool-cases (is_separator rep prev count c)) [
        | inl sep ↦ absurd (none-some (sym (rw (passes, few, sep)) ∙ h))
        | inr other ↦ (few, other, sym (rw (passes, few, other)) ∙ h)
      ]
    ]

pub positions_pass :
    (rep : StringRepresentation) (idx prev q : ℕ) (w rest : Bytes) (p' q' : ℕ)
    → passes rep prev q w ≡ some (p', q')
    → comma_positions rep idx prev q (w ++ rest) ≡ comma_positions rep (idx + length w) p' q' rest
unfolding comma_positions passes
positions_pass rep idx prev q [] rest p' q' h =
    let n : idx + 0 ≡ idx = omega arith in
    let e1 : prev ≡ p' = ap (λ (o : Option (ℕ × ℕ)). elim o [ none ↦ 0 | some x ↦ x.0 ]) h in
    let e2 : q ≡ q' = ap (λ (o : Option (ℕ × ℕ)). elim o [ none ↦ 0 | some x ↦ x.1 ]) h in
    rw (n, e1, e2)
positions_pass rep idx prev q (c ∷ w) rest p' q' h =
    let count = count_quote rep prev q c in
    let (few, other, further) = passes_cons rep prev q c w p' q' h in
    let n : idx + suc (length w) ≡ idx + 1 + length w = omega arith in
    rw (few, other, n)
      (bind_ok (comma_positions rep (idx + 1) c count (w ++ rest))
        ∙ positions_pass rep (idx + 1) c count w rest p' q' further)

-- A text between two commas in which no comma separates, and behind which one does.
abbrev pub IsField : StringRepresentation → Bytes → Type 0
IsField rep w =
    (prev : ℕ)
    → is_effective rep prev ≡ true
    → (p : ℕ) × (q : ℕ) × (passes rep prev 0 w ≡ some (p, q))
      × (is_effective rep p ≡ true)
      × ((q == 1) ≡ false)
      × (ltb 2 q ≡ false)

-- Fields, each behind a comma, and the places of these commas.
abbrev pub texts : List Bytes → Bytes
texts [] = []
texts (w ∷ ws) = comma ∷ (w ++ texts ws)

abbrev pub comma_places : ℕ → List Bytes → List ℕ
comma_places idx [] = []
comma_places idx (w ∷ ws) = idx ∷ comma_places (idx + 1 + length w) ws

comma_separates :
    (rep : StringRepresentation) (idx p q : ℕ) (s : Bytes) (ps : List ℕ)
    → is_effective rep p ≡ true
    → (q == 1) ≡ false
    → ltb 2 q ≡ false
    → comma_positions rep (idx + 1) comma 0 s ≡ ok ps
    → comma_positions rep idx p q (comma ∷ s) ≡ ok (idx ∷ ps)
unfolding comma_positions
comma_separates rep idx p q s ps e n few h =
    let count : count_quote rep p q comma ≡ q = ground arith in rw (count, few, n, e, h)

pub positions-texts :
    (rep : StringRepresentation) (idx p q : ℕ) (ws : List Bytes)
    → is_effective rep p ≡ true
    → (q == 1) ≡ false
    → ltb 2 q ≡ false
    → All (IsField rep) ws
    → comma_positions rep idx p q (texts ws) ≡ ok (comma_places idx ws)
unfolding comma_positions
positions-texts rep idx p q [] e n few f = refl
positions-texts rep idx p q (w ∷ ws) e n few f =
    let (p', q', passed, e', n', few') = f.0 comma (ground arith) in
    comma_separates rep idx p q (w ++ texts ws) (comma_places (idx + 1 + length w) ws) e n few (
      positions_pass rep (idx + 1) comma 0 w (texts ws) p' q' passed
      ∙ positions-texts rep (idx + 1 + length w) p' q' ws e' n' few' f.1)

pub chunk-nil : (rep : StringRepresentation) → chunk_of rep [] ≡ none
chunk-nil rep = ground (arith, trim-nil)

-- One field is cut out of a line that is not too long.
cut_part :
    (rep : StringRepresentation) (before w after : Bytes)
    → length before + length w < npos
    → (if length before + length w == length before
        then ok none
        else (slice (before ++ (w ++ after)) (length before) (length before + length w - 1)
            >>= λ part. ok (chunk_of rep part)))
      ≡ ok (chunk_of rep w)
cut_part rep before [] after h =
    let same_place : (length before + 0 == length before) ≡ true = ground arith in
    rw (same_place, chunk-nil rep)
cut_part rep before (c ∷ w) after h =
    let other_place : (length before + suc (length w) == length before) ≡ false = ground arith in
    let cut =
      slice_lem before (c ∷ w) after (length before + suc (length w) - 1) (omega arith)
        (omega arith) (omega arith) in
    rw (other_place, cut)

pub cut_last :
    (rep : StringRepresentation) (before w : Bytes)
    → length before + length w < npos
    → cut_chunks rep (before ++ (w ++ [])) (length before) [] ≡ ok (chunk_of rep w ∷ [])
unfolding cut_chunks
cut_last rep before [] h = ground (arith, chunk-nil rep, append-nil before)
cut_last rep before (c ∷ w) h =
    let size : length (before ++ (c ∷ w ++ [])) ≡ length before + suc (length w) =
      omega (arith, length-append before (c ∷ w ++ []), length-append w []) in
    let more : ltb (length before) (length (before ++ (c ∷ w ++ []))) ≡ true = ground arith in
    let cut =
      slice_lem before (c ∷ w) [] (length (before ++ (c ∷ w ++ [])) - 1) (omega arith) (omega arith)
        (omega arith) in
    rw more (rw cut)

pub cut-texts :
    (rep : StringRepresentation) (before w : Bytes) (ws : List Bytes)
    → length before + (length w + length (texts ws)) < npos
    → cut_chunks rep
        (before ++ (w ++ texts ws))
        (length before)
        (comma_places (length before + length w) ws)
      ≡ ok (map (chunk_of rep) (w ∷ ws))
unfolding cut_chunks
cut-texts rep before w [] h = cut_last rep before w (omega arith)
cut-texts rep before w (w' ∷ ws) h =
    let before' = before ++ (w ++ comma ∷ []) in
    let size : length before' ≡ length before + length w + 1 =
      omega (arith, length-append before (w ++ comma ∷ []), length-append w (comma ∷ [])) in
    let whole : before ++ (w ++ texts (w' ∷ ws)) ≡ before' ++ (w' ++ texts ws) =
      ap (◌++◌ before) (sym (append_assoc w (comma ∷ []) (w' ++ texts ws)))
      ∙ sym (append_assoc before (w ++ comma ∷ []) (w' ++ texts ws)) in
    let rest : cut_chunks rep (before ++ (w ++ texts (w' ∷ ws))) (length before + length w + 1)
          (comma_places (length before + length w + 1 + length w') ws)
        ≡ ok (map (chunk_of rep) (w' ∷ ws)) =
      rw (whole, sym size)
        (cut-texts rep before' w' ws (omega (arith, size, length-append w' (texts ws)))) in
    rw (cut_part rep before w (texts (w' ∷ ws)) (omega arith), rest)

-- A line that is made of fields is cut into these fields.
pub split-texts :
    (rep : StringRepresentation) (w : Bytes) (ws : List Bytes)
    → All (IsField rep) (w ∷ ws)
    → (length (w ++ texts ws) == 0) ≡ false
    → length (w ++ texts ws) < npos
    → split_input_in_chunks rep (w ++ texts ws) ≡ ok (map (chunk_of rep) (w ∷ ws))
unfolding split_input_in_chunks
split-texts rep w ws f ne small =
    let (p, q, passed, e, n, few) = f.0 0 (ground arith) in
    let places : comma_positions rep 0 0 0 (w ++ texts ws) ≡ ok (comma_places (0 + length w) ws) =
      positions_pass rep 0 0 0 w (texts ws) p q passed
      ∙ positions-texts rep (0 + length w) p q ws e n few f.1 in
    rw (ne, places) (cut-texts rep [] w ws (omega (arith, length-append w (texts ws))))
