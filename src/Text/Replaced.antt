-- ===== src/Text/Replaced.antt =====
-- replaceAll puts the value where split cuts.
use lib_sloppy.Base.{
  ℕ, zero, suc, ◌+◌, ◌≤◌, ◌<◌, ◌≡◌, ◌≢◌, refl, sym, ap, ◌∙◌, inl, inr, true, false, List, [], ◌++◌,
  append_assoc, Option, none, some, Bytes, arith, length, take, drop, length-append, length-take,
  length-drop, take-append_add, drop-append_add, drop-append, ok, Option-cases, ltb,
}
use lib_sloppy.Text.Edit.{npos}
use lib_sloppy.Text.Search.{find, find_from, contains, replace, replace_loop, replace_all}
use lib_sloppy.Text.Cuts.{
  intercalate, intercalate-cons, cut, cut-none, cut-some, cut-ne-nil, find-append, length_pos,
}
use lib_sloppy.Text.Split.{split}
use lib_sloppy.Text.Parts.{split-cut}

-- An index found in the second part of a string.
index_found : Bytes → Bytes → Bytes → Option ℕ
index_found done rest key = elim (find key rest) [ none ↦ none | some k ↦ some (length done + k) ]

find_from-append :
    (key done rest : Bytes) → find_from key (done ++ rest) (length done) ≡ index_found done rest key
unfolding find_from index_found
find_from-append key done rest =
    let e : ltb (length (done ++ rest)) (length done) ≡ false =
      ground (arith, length-append done rest) in
    rw (e, drop-append done rest)

index_found-none : (done rest key : Bytes) → find key rest ≡ none → index_found done rest key ≡ none
unfolding index_found
index_found-none done rest key e = rw (e, index_found)

index_found-some :
    (done rest key : Bytes) (k : ℕ)
    → find key rest ≡ some k
    → index_found done rest key ≡ some (length done + k)
unfolding index_found
index_found-some done rest key k e = rw (e, index_found)

-- A replacement in the second part.
replace-append :
    (done rest value : Bytes) (k n : ℕ)
    → replace (done ++ rest) (length done + k) n value
      ≡ ((done ++ take k rest) ++ value) ++ drop (k + n) rest
replace-append done rest value k n =
    let e : length done + k + n ≡ length done + (k + n) = omega arith in
    rw (e, take-append_add k done rest, drop-append_add (k + n) done rest)
      (sym (append_assoc (done ++ take k rest) value (drop (k + n) rest)))

module _ (key value : Bytes) (ne : key ≢ []) where
  replace_loop_step :
      (fuel : ℕ) (s : Bytes) (i : ℕ)
      → let t = replace s i (length key) value in
        replace_loop (suc fuel) key value s (some i)
        ≡ replace_loop fuel key value t (find_from key t (i + length value))
  unfolding replace_loop
  replace_loop_step fuel s i = refl

  -- What the loop has done, and what it has still to do.
  replace_loop-cut :
      (fuel : ℕ) (done rest : Bytes)
      → length rest < fuel
      → replace_loop fuel key value (done ++ rest) (index_found done rest key)
        ≡ some (done ++ intercalate value (cut fuel key rest))
  replace_loop-cut zero done rest h = elim h [ ]
  replace_loop-cut (suc fuel) done rest h = elim (Option-cases (find key rest)) [
    | inl e ↦
        rw (index_found-none done rest key e, cut-none (suc fuel) key rest e)
          (unfold replace_loop in refl)
    | inr (k, e) ↦
        let done' = (done ++ take k rest) ++ value in
        let rest' = drop (k + length key) rest in
        let (_, inside) = find-append key rest k e in
        let at : length done + k + length value ≡ length done' = omega (
          arith,
          length-append (done ++ take k rest) value,
          length-append done (take k rest),
          length-take k rest,
        ) in
        let shorter : length rest' < fuel =
          omega (arith, length-drop (k + length key) rest, length_pos key ne) in
        rw (index_found-some done rest key k e, cut-some fuel key rest k e)
          (replace_loop_step fuel (done ++ rest) (length done + k)
            ∙ rw
                (
                  replace-append done rest value k (length key),
                  at,
                  find_from-append key done' rest',
                )
                (replace_loop-cut fuel done' rest' shorter
                  ∙ ap some (
                      append_assoc (done ++ take k rest) value
                        (intercalate value (cut fuel key rest'))
                      ∙ append_assoc done (take k rest) _
                      ∙ ap (◌++◌ done) (
                          sym (
                            intercalate-cons value (take k rest) (cut fuel key rest')
                              (cut-ne-nil fuel key rest'))))))
  ]

-- Of a string and a key that are not empty, replaceAll returns the parts that split finds between
-- the occurrences of the key, with the value in place of each occurrence, and tells whether the
-- string contains the key. The value is not searched, even if it contains the key; the loop
-- terminates. The string is no longer than a string can be.
pub replace_all-split :
    (s key value : Bytes)
    → s ≢ []
    → key ≢ []
    → length s ≤ npos
    → (parts : List Bytes) × (split s key true false ≡ some (ok parts))
      × (replace_all s key value ≡ some (intercalate value parts, contains s key))
unfolding replace_all contains
replace_all-split s key value some_s ne fits = (
  cut (suc (length s)) key s,
  split-cut s key some_s ne fits,
  elim (Option-cases (find key s)) [
    | inl e ↦
        ground (arith, cut-none (suc (length s)) key s e, length_pos s some_s, length_pos key ne)
    | inr (k, e) ↦ ground (
      arith,
      length_pos s some_s,
      length_pos key ne,
      index_found-some [] s key k e,
      replace_loop-cut key value ne (suc (length s)) [] s (omega arith),
    )
  ],
)
