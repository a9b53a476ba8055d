-- ===== src/Range.antt =====
-- GenericRange.h: ranges with an end or without one, over a type with C++'s relation operators.
pub mod Bounds
mod Tests
use lib_sloppy.Base.{
  ℕ, ◌≡◌, ◌↔◌, ◌⊎◌, inl, inr, refl, sym, ap, ◌∙◌, Bool, true, false, not, ◌&&◌, Option, none, some,
  Option-cases, Result, ok, err, invalid_argument, if◌then◌else◌, Bool-cases, arith,
}

-- The relation operators of the type, which need not fit together.
pub record Relations (T : Type 0) : Type 0 where
  pub lt : T → T → Bool
  pub gt : T → T → Bool
  pub le : T → T → Bool
  pub ge : T → T → Bool

-- All four are those of one order.
pub record AreTotal {T : Type 0} (o : Relations T) : Type 0 where
  pub gt-lt : (a b : T) → o.gt a b ≡ o.lt b a
  pub le-lt : (a b : T) → o.le a b ≡ not (o.lt b a)
  pub ge-lt : (a b : T) → o.ge a b ≡ not (o.lt a b)

pub data RelationToRange : Type 0 where
  is_before is_in is_after undefined : RelationToRange

pub record GenericRange (T : Type 0) : Type 0 where
  pub start : T
  pub last : Option T

module _ {T : Type 0} (o : Relations T) where
  unfoldable pub closed_range : T → T → Result (GenericRange T)
  closed_range start last =
      if o.lt last start
      then err invalid_argument
      else ok (record { start = start; last = some last })

  unfoldable pub open_range : T → GenericRange T
  open_range start = record { start = start; last = none }

  unfoldable pub is_in_range : GenericRange T → T → Bool
  is_in_range r sample = elim r.last [
    | some last ↦ o.ge sample r.start && o.le sample last
    | none ↦ o.ge sample r.start
  ]

  unfoldable pub determine_relation_to_range : GenericRange T → T → RelationToRange
  determine_relation_to_range r sample =
      if o.lt sample r.start then RelationToRange.is_before else elim r.last [
        | some last ↦ if o.gt sample last then RelationToRange.is_after else RelationToRange.is_in
        | none ↦ RelationToRange.is_in
      ]

  unfoldable pub set_start : GenericRange T → T → GenericRange T × Bool
  set_start r new_start = elim r.last [
    | some last ↦ if o.gt new_start last then (r, false) else (record r { start = new_start }, true)
    | none ↦ (record r { start = new_start }, true)
  ]

  unfoldable pub set_end : GenericRange T → T → GenericRange T × Bool
  set_end r new_end =
      if o.lt new_end r.start then (r, false) else (record r { last = some new_end }, true)
