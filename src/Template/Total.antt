-- ===== src/Template/Total.antt =====
-- The steps of the parser return and keep the tree linked: no index is out of range.
use lib_sloppy.Base.{
  ℕ, ◌+◌, ◌-◌, ◌<◌, ◌≡◌, refl, List, Option, none, some, Bytes, length, Result, ok, err, ◌>>=◌,
  arith,
}
use lib_sloppy.Template.{SyntaxTreeItemType, SyntaxTreeItem, TokenType}
use lib_sloppy.Template.TokenType.{variable, start_if, end_if, start_for, end_for, include_cmd}
use lib_sloppy.Template.Parse.{
  ParseState, insert_item, section_of, level_down, item_at, section_under, up_from, level_up,
  add_token,
}
use lib_sloppy.Template.Links.{
  Returns, bind-Returns, IsBelow, IsLinked, AreLinked, AreLinked-get, HasParent, IsLinkedState,
  IsInserted, insert_item-linked,
}

-- The type of an item that starts a subtree.
abbrev IsOpening : SyntaxTreeItemType → Type 0
IsOpening SyntaxTreeItemType.for_loop = Unit
IsOpening SyntaxTreeItemType.condition = Unit
IsOpening _ = ⊥

some-none {ℓ} : {A : Type ℓ} {a : A} → some a ≡ none → ⊥
some-none h = cc

has_parent : (t : SyntaxTreeItemType) (i : ℕ) → HasParent (section_of t) (some i)
has_parent SyntaxTreeItemType.for_loop i = some-none
has_parent SyntaxTreeItemType.condition i = some-none
has_parent SyntaxTreeItemType.static i = some-none
has_parent SyntaxTreeItemType.variable i = some-none
has_parent SyntaxTreeItemType.include_cmd i = some-none

level_down-linked :
    (st : ParseState) (t : SyntaxTreeItemType)
    → IsLinkedState st
    → 0 < length st.tree
    → IsLinkedState (level_down st t)
unfolding level_down
level_down-linked st t h lt = record {
  linked = h.linked;
  parent_in = omega (arith, lt);
  sibling_in = tt;
  updates = λ u. some-none;
  section = has_parent t (length st.tree - 1);
}

pub item_returns :
    (tree : List SyntaxTreeItem) (i : ℕ)
    → AreLinked (length tree) 0 tree
    → i < length tree
    → Returns (item_at tree i) (IsLinked (length tree) (0 + i))
item_returns tree i l b =
    let (x, g, k) = AreLinked-get (length tree) 0 i tree l b in
    let e : item_at tree i ≡ ok x = rw (item_at, g) in rw (Returns, e) k

section_returns :
    (tree : List SyntaxTreeItem) (p : Option ℕ)
    → AreLinked (length tree) 0 tree
    → IsBelow (length tree) p
    → Returns (section_under tree p) (λ section. HasParent section p)
section_returns tree none l b = refl
section_returns tree (some i) l b =
    bind-Returns (IsLinked (length tree) (0 + i)) (λ section. HasParent section (some i))
      (item_at tree i) _ (item_returns tree i l b) λ x k. has_parent x.t i

IsBelow-IsBelow : (i n : ℕ) (p : Option ℕ) → IsBelow (0 + i) p → i < n → IsBelow n p
IsBelow-IsBelow i n none h lt = tt
IsBelow-IsBelow i n (some j) h lt = omega (arith, h, lt)

-- The state goes on from where it was.
abbrev pub IsKept : ParseState → ParseState → Type 0
IsKept st st' = IsLinkedState st' × (st'.cur_section_start ≡ st.cur_section_start)

up-linked :
    (st : ParseState) (p : Option ℕ)
    → IsLinkedState st
    → st.idx_parent_item ≡ p
    → IsBelow (length st.tree) p
    → Returns (up_from st p) (IsKept st)
up-linked st none h e b = (h, refl)
up-linked st (some i) h e b =
    bind-Returns (IsLinked (length st.tree) (0 + i)) (IsKept st) (item_at st.tree i) _
      (item_returns st.tree i h.linked b)
      λ x k.
        let below = IsBelow-IsBelow i (length st.tree) x.idx_parent k.2 b in
        bind-Returns (λ section. HasParent section x.idx_parent) (IsKept st)
          (section_under st.tree x.idx_parent) _
          (section_returns st.tree x.idx_parent h.linked below)
          λ section under. (
            record {
              linked = h.linked;
              parent_in = below;
              sibling_in = b;
              updates = λ u. cc;
              section = under;
            },
            refl,
          )

pub level_up-linked : (st : ParseState) → IsLinkedState st → Returns (level_up st) (IsKept st)
unfolding level_up
level_up-linked st h = up-linked st st.idx_parent_item h refl h.parent_in

Returns_weaken :
    {A : Type 0} (P Q : A → Type 0) (m : Result A)
    → Returns m P
    → ((a : A) → P a → Q a)
    → Returns m Q
Returns_weaken P Q (ok a) h k = k a h
Returns_weaken P Q (err e) h k = absurd h

pub insert_item-IsKept :
    (st : ParseState) (item : SyntaxTreeItem)
    → IsLinkedState st
    → Returns (insert_item st item) (IsKept st)
insert_item-IsKept st item h =
    Returns_weaken (IsInserted st) (IsKept st) (insert_item st item) (insert_item-linked st item h)
      (λ st' i. (i.0, i.4))

level_down-IsKept :
    (st : ParseState) (item : SyntaxTreeItem) (t : SyntaxTreeItemType)
    → IsLinkedState st
    → Returns (insert_item st item >>= λ st'. ok (level_down st' t)) (IsKept st)
unfolding level_down
level_down-IsKept st item t h =
    bind-Returns (IsInserted st) (IsKept st) (insert_item st item) _ (insert_item-linked st item h)
      λ st' i. (level_down-linked st' t i.0 (omega (arith, i.1)), i.4)

pub add_token-linked :
    (t : TokenType) (token : Bytes) (first last : ℕ) (st : ParseState)
    → IsLinkedState st
    → Returns (add_token t token first last st) (IsKept st)
add_token-linked end_if token first last st h = level_up-linked st h
add_token-linked end_for token first last st h = level_up-linked st h
add_token-linked start_if token first last st h = level_down-IsKept st _ _ h
add_token-linked start_for token first last st h = level_down-IsKept st _ _ h
add_token-linked variable token first last st h = insert_item-IsKept st _ h
add_token-linked include_cmd token first last st h = insert_item-IsKept st _ h
