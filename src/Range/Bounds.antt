-- ===== src/Range/Bounds.antt =====
-- What the tests of a range say of each other, and that the setters keep its ends in order.
use lib_sloppy.Base.{
  ◌≡◌, ◌⊎◌, inl, inr, refl, sym, ap, ◌∙◌, true, false, Option, none, some, Option-cases, Bool-cases,
}
use lib_sloppy.Range.{
  Relations, AreTotal, RelationToRange, GenericRange, is_in_range, determine_relation_to_range,
  set_start, set_end,
}

module _ {T : Type 0} (o : Relations T) where
  -- The end is not before the start.
  unfoldable pub IsOrdered : GenericRange T → Type 0
  IsOrdered r = (last : T) → r.last ≡ some last → o.lt last r.start ≡ false

  none-some : {a : T} → none ≡ some a → ⊥
  none-some h = cc

  not_in_before :
      (r : GenericRange T) (sample : T)
      → AreTotal o
      → o.lt sample r.start ≡ true
      → is_in_range o r sample ≡ false
  unfolding is_in_range
  not_in_before r sample total f = elim (Option-cases r.last) [
    | inl e ↦ rw (is_in_range, e, total.ge-lt sample r.start, f)
    | inr (last, e) ↦ rw (is_in_range, e, total.ge-lt sample r.start, f)
  ]

  -- With the operators of one order, determineRelationToRange and isInRange agree: a sample is before
  -- the start, and then not in the range; or it is not before the start and not behind an end, and
  -- then in the range for both; or it is behind the end, and then not in the range.
  pub relation_lem :
      (r : GenericRange T) (sample : T)
      → AreTotal o
      → (o.lt sample r.start ≡ true)
          × (determine_relation_to_range o r sample ≡ RelationToRange.is_before)
          × (is_in_range o r sample ≡ false)
        ⊎ (o.lt sample r.start ≡ false)
          × ((last : T) → r.last ≡ some last → o.lt last sample ≡ false)
          × (determine_relation_to_range o r sample ≡ RelationToRange.is_in)
          × (is_in_range o r sample ≡ true)
        ⊎ (last : T) × (o.lt sample r.start ≡ false)
          × (r.last ≡ some last)
          × (o.lt last sample ≡ true)
          × (determine_relation_to_range o r sample ≡ RelationToRange.is_after)
          × (is_in_range o r sample ≡ false)
  unfolding determine_relation_to_range is_in_range
  relation_lem r sample total = elim (Bool-cases (o.lt sample r.start)) [
    | inl f ↦ inl (f, rw f, not_in_before r sample total f)
    | inr f ↦ elim (Option-cases r.last) [
      | inl e ↦ inr (
          inl (
            f,
            (λ last q. absurd (none-some (sym e ∙ q))),
            rw (f, e),
            rw (is_in_range, e, total.ge-lt sample r.start, f),
          ))
      | inr (last, e) ↦ elim (Bool-cases (o.lt last sample)) [
        | inl g ↦ inr (
            inr (
              last,
              f,
              e,
              g,
              rw (f, e, total.gt-lt sample last, g),
              rw (is_in_range, e, total.ge-lt sample r.start, f, total.le-lt sample last, g),
            ))
        | inr g ↦ inr (
            inl (
              f,
              (λ other q.
                  ap (λ (x : Option T). elim x [ none ↦ false | some y ↦ o.lt y sample ])
                    (sym q ∙ e)
                  ∙ g),
              rw (f, e, total.gt-lt sample last, g),
              rw (is_in_range, e, total.ge-lt sample r.start, f, total.le-lt sample last, g),
            ))
      ]
    ]
  ]

  -- A sample that no operator relates to anything is in no range for isInRange, and is in every
  -- range for determineRelationToRange.
  pub unrelated_sample :
      (r : GenericRange T) (sample : T)
      → ((a : T) → (o.lt sample a ≡ false) × (o.gt sample a ≡ false) × (o.ge sample a ≡ false))
      → (is_in_range o r sample ≡ false)
        × (determine_relation_to_range o r sample ≡ RelationToRange.is_in)
  unfolding determine_relation_to_range is_in_range
  unrelated_sample r sample no_relation = elim (Option-cases r.last) [
    | inl e ↦ (rw (is_in_range, e, (no_relation r.start).2), rw ((no_relation r.start).0, e))
    | inr (last, e) ↦ (
      rw (is_in_range, e, (no_relation r.start).2),
      rw ((no_relation r.start).0, e, (no_relation last).1),
    )
  ]

  last_of : {a b : T} → some a ≡ some b → a ≡ b
  last_of {a} e = ap (λ (x : Option T). elim x [ none ↦ a | some y ↦ y ]) e

  by_end :
      (s t : T) (l : Option T)
      → AreTotal o
      → IsOrdered (record { start = s; last = l })
      → ((set_start o (record { start = s; last = l }) t ≡ (record { start = t; last = l }, true))
          × IsOrdered (record { start = t; last = l }))
        ⊎ (last : T) × (l ≡ some last)
          × (o.lt last t ≡ true)
          × (set_start o (record { start = s; last = l }) t
              ≡ (record { start = s; last = l }, false))
  unfolding set_start IsOrdered
  by_end s t none total h = inl (refl, λ last q. absurd (none-some q))
  by_end s t (some last) total h = elim (Bool-cases (o.lt last t)) [
    | inl g ↦ inr (last, refl, g, rw (total.gt-lt t last, g))
    | inr g ↦
        inl (rw (total.gt-lt t last, g), λ other q. ap (λ (x : T). o.lt x t) (sym (last_of q)) ∙ g)
  ]

  -- With the operators of one order, setStart keeps a range ordered: it sets the start, or, for a
  -- start behind the end, changes nothing and says so.
  pub set_start_lem :
      (r : GenericRange T) (t : T)
      → AreTotal o
      → IsOrdered r
      → ((set_start o r t ≡ (record r { start = t }, true)) × IsOrdered (record r { start = t }))
        ⊎ (last : T) × (r.last ≡ some last) × (o.lt last t ≡ true) × (set_start o r t ≡ (r, false))
  unfolding set_start IsOrdered
  set_start_lem r t total h = by_end r.start t r.last total h

  -- setEnd keeps a range ordered: it sets the end, or, for an end before the start, changes nothing
  -- and says so.
  pub set_end_lem :
      (r : GenericRange T) (t : T)
      → IsOrdered r
      → ((set_end o r t ≡ (record r { last = some t }, true))
          × IsOrdered (record r { last = some t }))
        ⊎ (o.lt t r.start ≡ true) × (set_end o r t ≡ (r, false))
  unfolding set_end IsOrdered
  set_end_lem r t h = elim (Bool-cases (o.lt t r.start)) [
    | inl g ↦ inr (g, rw g)
    | inr g ↦ inl (rw g, λ last q. ap (λ (x : T). o.lt x r.start) (sym (last_of q)) ∙ g)
  ]
