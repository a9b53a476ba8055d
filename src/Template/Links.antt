-- ===== src/Template/Links.antt =====
-- The links of a syntax tree lead to items that come later, so that every walk along them ends.
use lib_sloppy.Base.{
  ℕ, zero, suc, ◌+◌, ◌<◌, ◌≡◌, ◌≢◌, refl, sym, ◌∙◌, Bool, true, false, List, [], ◌∷◌, ◌++◌, Option,
  none, some, length, length-append, get_elem?, ltb, Result, ok, err, ◌>>=◌, arith,
}
use lib_sloppy.Template.{SyntaxTreeItem, SyntaxSectionType}
use lib_sloppy.Template.SyntaxSectionType.{root}
use lib_sloppy.Template.Parse.{
  ParseState, modify_nth, set_first_child, set_next_sibling, link_parent, link_sibling, insert_item,
}

-- A call that returns, with a result that has a property.
abbrev pub Returns {ℓ} : {A : Type ℓ} → Result A → (A → Type 0) → Type 0
Returns (ok a) P = P a
Returns (err e) P = ⊥

pub bind-Returns {ℓ κ} :
    {A : Type ℓ} {B : Type κ} (P : A → Type 0) (Q : B → Type 0) (m : Result A) (next : A → Result B)
    → Returns m P
    → ((a : A) → P a → Returns (next a) Q)
    → Returns (m >>= next) Q
bind-Returns P Q (ok a) next h k = k a h
bind-Returns P Q (err e) next h k = absurd h

abbrev pub IsBetween : ℕ → ℕ → Option ℕ → Type 0
IsBetween i n none = Unit
IsBetween i n (some j) = (i < j) × (j < n)

abbrev pub IsBelow : ℕ → Option ℕ → Type 0
IsBelow n none = Unit
IsBelow n (some j) = j < n

-- The item `x` at index `i` of a tree of `n` items.
abbrev pub IsLinked : ℕ → ℕ → SyntaxTreeItem → Type 0
IsLinked n i x =
    IsBetween i n x.idx_next_sibling × IsBetween i n x.idx_first_child × IsBelow i x.idx_parent

-- All items from index `i` on.
abbrev pub AreLinked : ℕ → ℕ → List SyntaxTreeItem → Type 0
AreLinked n i [] = Unit
AreLinked n i (x ∷ xs) = IsLinked n i x × AreLinked n (i + 1) xs

IsLinked-more : (n i : ℕ) (x : SyntaxTreeItem) → IsLinked n i x → IsLinked (n + 1) i x
IsLinked-more n i x h = ground arith

AreLinked-more : (n i : ℕ) (xs : List SyntaxTreeItem) → AreLinked n i xs → AreLinked (n + 1) i xs
AreLinked-more n i [] h = tt
AreLinked-more n i (x ∷ xs) h = (IsLinked-more n i x h.0, AreLinked-more n (i + 1) xs h.1)

AreLinked-snoc :
    (n i : ℕ) (xs : List SyntaxTreeItem) (y : SyntaxTreeItem)
    → AreLinked n i xs
    → IsLinked n (i + length xs) y
    → AreLinked n i (xs ++ y ∷ [])
AreLinked-snoc n i [] y h k = (let e : i + 0 ≡ i = omega arith in rw (sym e) k, tt)
AreLinked-snoc n i (x ∷ xs) y h k =
    let e : i + suc (length xs) ≡ i + 1 + length xs = omega arith in
    (h.0, AreLinked-snoc n (i + 1) xs y h.1 (rw (sym e) k))

length-modify_nth :
    (j : ℕ) (f : SyntaxTreeItem → SyntaxTreeItem) (xs : List SyntaxTreeItem)
    → length (modify_nth j f xs) ≡ length xs
length-modify_nth j f [] = refl
length-modify_nth zero f (x ∷ xs) = refl
length-modify_nth (suc j) f (x ∷ xs) = omega (arith, length-modify_nth j f xs)

AreLinked-modify :
    (n i j : ℕ) (f : SyntaxTreeItem → SyntaxTreeItem) (xs : List SyntaxTreeItem)
    → ((x : SyntaxTreeItem) → IsLinked n (i + j) x → IsLinked n (i + j) (f x))
    → AreLinked n i xs
    → AreLinked n i (modify_nth j f xs)
AreLinked-modify n i j f [] k h = tt
AreLinked-modify n i zero f (x ∷ xs) k h =
    let e : i + 0 ≡ i = omega arith in (rw (sym e) (k x (rw e h.0)), h.1)
AreLinked-modify n i (suc j) f (x ∷ xs) k h =
    let e : i + suc j ≡ i + 1 + j = omega arith in
    (h.0, AreLinked-modify n (i + 1) j f xs (λ y l. rw (sym e) (k y (rw e l))) h.1)

pub AreLinked-get :
    (n i j : ℕ) (xs : List SyntaxTreeItem)
    → AreLinked n i xs
    → j < length xs
    → (x : SyntaxTreeItem) × (get_elem? xs j ≡ some x) × IsLinked n (i + j) x
AreLinked-get n i j [] h lt = absurd (omega (arith, lt))
AreLinked-get n i zero (x ∷ xs) h lt = let e : i + 0 ≡ i = omega arith in (x, refl, rw e h.0)
AreLinked-get n i (suc j) (x ∷ xs) h lt =
    let e : i + suc j ≡ i + 1 + j = omega arith in
    let (y, g, l) = AreLinked-get n (i + 1) j xs h.1 (omega (arith, lt)) in (y, g, rw e l)

-- Between two tokens: the tree is linked, the indices that the parser keeps are those of items, and
-- there is a parent exactly in a section that is not the root.
abbrev pub HasParent : SyntaxSectionType → Option ℕ → Type 0
HasParent root p = p ≡ none
HasParent _ p = p ≢ none

pub record IsLinkedState (st : ParseState) : Type 0 where
  pub linked : AreLinked (length st.tree) 0 st.tree
  pub parent_in : IsBelow (length st.tree) st.idx_parent_item
  pub sibling_in : IsBelow (length st.tree) st.idx_last_sibling
  pub updates : st.update_parent ≡ true → st.idx_parent_item ≢ none
  pub section : HasParent st.cur_section st.idx_parent_item

-- The tree after an insertion, of `n` items before it.
abbrev IsGrown : ℕ → List SyntaxTreeItem → Type 0
IsGrown n tree = AreLinked (n + 1) 0 tree × (length tree ≡ n + 1)

link_parent-IsGrown :
    (n : ℕ) (u : Bool) (p : Option ℕ) (tree : List SyntaxTreeItem)
    → IsGrown n tree
    → IsBelow n p
    → (u ≡ true → p ≢ none)
    → Returns (link_parent u p n tree) (IsGrown n)
link_parent-IsGrown n false p tree g b h = g
link_parent-IsGrown n true none tree g b h = absurd (h refl refl)
link_parent-IsGrown n true (some i) tree g b h =
    let inside : ltb i (length tree) ≡ true = ground (arith, g.1) in
    let e : 0 + i ≡ i = omega arith in
    rw inside (
      AreLinked-modify (n + 1) 0 i (set_first_child n) tree
          (λ x l. (l.0, (omega (arith, b), omega arith), l.2)) g.0,
      length-modify_nth i (set_first_child n) tree ∙ g.1,
    )

link_sibling-IsGrown :
    (n : ℕ) (q : Option ℕ) (tree : List SyntaxTreeItem)
    → IsGrown n tree
    → IsBelow n q
    → Returns (link_sibling q n tree) (IsGrown n)
link_sibling-IsGrown n none tree g b = g
link_sibling-IsGrown n (some i) tree g b =
    let inside : ltb i (length tree) ≡ true = ground (arith, g.1) in
    rw inside (
      AreLinked-modify (n + 1) 0 i (set_next_sibling n) tree
          (λ x l. ((omega (arith, b), omega arith), l.1, l.2)) g.0,
      length-modify_nth i (set_next_sibling n) tree ∙ g.1,
    )

-- An insertion returns, keeps the section and its parent, and makes the tree longer by one item.
abbrev pub IsInserted : ParseState → ParseState → Type 0
IsInserted st st' =
    IsLinkedState st'
    × (length st'.tree ≡ length st.tree + 1)
    × (st'.idx_parent_item ≡ st.idx_parent_item)
    × (st'.cur_section ≡ st.cur_section)
    × (st'.cur_section_start ≡ st.cur_section_start)

IsBelow-more : (n m : ℕ) (p : Option ℕ) → m ≡ n + 1 → IsBelow n p → IsBelow m p
IsBelow-more n m none e h = tt
IsBelow-more n m (some j) e h = omega (arith, e, h)

pub insert_item-linked :
    (st : ParseState) (item : SyntaxTreeItem)
    → IsLinkedState st
    → Returns (insert_item st item) (IsInserted st)
unfolding insert_item
insert_item-linked st item h =
    let n = length st.tree in
    let new_item : SyntaxTreeItem = record item {
      idx_next_sibling = none;
      idx_first_child = none;
      idx_parent = st.idx_parent_item;
    } in
    let e : 0 + n ≡ n = omega arith in
    let grown : IsGrown n (st.tree ++ new_item ∷ []) = (
      AreLinked-snoc (n + 1) 0 st.tree new_item (AreLinked-more n 0 st.tree h.linked)
          (tt, tt, rw e h.parent_in),
      length-append st.tree (new_item ∷ []),
    ) in
    bind-Returns (IsGrown n) (IsInserted st) _ _
      (link_parent-IsGrown n st.update_parent st.idx_parent_item (st.tree ++ new_item ∷ []) grown
        h.parent_in h.updates)
      λ linked g.
        bind-Returns (IsGrown n) (IsInserted st) _ _
          (link_sibling-IsGrown n st.idx_last_sibling linked g h.sibling_in)
          λ tree g'. (
            record {
              linked = rw g'.1 g'.0;
              parent_in = IsBelow-more n (length tree) st.idx_parent_item g'.1 h.parent_in;
              sibling_in = omega (arith, g'.1);
              updates = λ u. cc;
              section = h.section;
            },
            g'.1,
            refl,
            refl,
            refl,
          )
