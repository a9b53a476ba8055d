-- ===== src/Template/Parsing.antt =====
-- Parsing returns, whatever the template is.
use lib_sloppy.Base.{
  ℕ, ◌+◌, ◌-◌, ◌≤◌, ◌<◌, ◌≡◌, refl, true, List, [], ◌∷◌, Option, none, some, Bytes, length, ltb,
  ◌==◌, if◌then◌else◌, Result, ok, ◌>>=◌, arith, Bool-cases, inl, inr,
}
use lib_sloppy.Text.Edit.{slice}
use lib_sloppy.Text.Trim.{trim}
use lib_sloppy.Template.{
  SyntaxTreeItemType, SyntaxTreeItem, TokenType, SyntaxSectionType, SyntaxTreeError, ErrorKind,
}
use lib_sloppy.Template.SyntaxSectionType.{root}
use lib_sloppy.Template.Tokens.{Match, match_length, tokens_from}
use lib_sloppy.Template.Parse.{
  ParseState, item_at, new_state, insert_static, add_token, process_token, process_match,
  process_all, after_check, finish_in, and_then, Step, fails, goes, finish, parse, blank,
}
use lib_sloppy.Template.Links.{
  Returns, bind-Returns, IsBelow, IsLinked, AreLinked, IsLinkedState, HasParent,
}
use lib_sloppy.Template.Matches.{AreAhead, IsReady, skips_newline-IsReady, tokens-AreAhead}
use lib_sloppy.Template.Total.{IsKept, insert_item-IsKept, add_token-linked, item_returns}

slice_returns :
    (s : Bytes) (first last : ℕ) → first ≤ last → Returns (slice s first last) (λ t. Unit)
unfolding slice
slice_returns s first last h = ground arith

insert_static-IsKept :
    (s : Bytes) (st : ParseState) (last : ℕ)
    → IsLinkedState st
    → st.cur_section_start ≤ last
    → Returns (insert_static s st last) (IsKept st)
unfolding insert_static
insert_static-IsKept s st last h le =
    bind-Returns (λ (t : Bytes). Unit) (IsKept st) (slice s st.cur_section_start last) _
      (slice_returns s st.cur_section_start last le)
      λ text u.
        insert_item-IsKept st
          (record (blank SyntaxTreeItemType.static st.cur_section_start last) {
            static_text = text;
          })
          h

moved :
    (st : ParseState) (n : ℕ)
    → IsLinkedState st
    → IsLinkedState (record st { cur_section_start = n })
moved st n h = record {
  linked = h.linked;
  parent_in = h.parent_in;
  sibling_in = h.sibling_in;
  updates = h.updates;
  section = h.section;
}

-- What a step leaves, when the matches `ms` are still to come.
abbrev pub IsGood : List Match → Step → Type 0
IsGood ms (fails e tree) = AreLinked (length tree) 0 tree
IsGood ms (goes st) = IsLinkedState st × IsReady st.cur_section_start ms

after_check-IsGood :
    (s : Bytes) (m : Match) (ms : List Match) (token : Bytes) (st : ParseState) (t : TokenType)
    (error : Option ErrorKind)
    → IsLinkedState st
    → AreAhead (m.position + match_length m) s ms
    → Returns (after_check s m token st t error) (IsGood ms)
after_check-IsGood s m ms token st t (some kind) h a = h.linked
after_check-IsGood s m ms token st t none h a =
    let next = m.position + match_length m in
    bind-Returns (IsKept st) (IsGood ms) (add_token t token m.position (next - 1) st) _
      (add_token-linked t token m.position (next - 1) st h)
      λ st' k. (moved st' _ k.0, skips_newline-IsReady s t m.position next ms a)

insert_before-IsKept :
    (s : Bytes) (m : Match) (st : ParseState)
    → IsLinkedState st
    → st.cur_section_start ≤ m.position
    → Returns
        (if m.position == st.cur_section_start then ok st else insert_static s st (m.position - 1))
        (IsKept st)
insert_before-IsKept s m st h le = elim (Bool-cases (m.position == st.cur_section_start)) [
  | inl e ↦ rw e (h, refl)
  | inr e ↦ rw e (insert_static-IsKept s st (m.position - 1) h (ground (arith, le)))
]

empty-IsReady :
    (m : Match) (s : Bytes) (ms : List Match)
    → AreAhead (m.position + match_length m) s ms
    → IsReady (m.position + 2) ms
empty-IsReady m s [] a = tt
empty-IsReady m s (m' ∷ ms) a = omega (arith, a.0)

process_match-IsGood :
    (s : Bytes) (m : Match) (ms : List Match) (st : ParseState)
    → IsLinkedState st
    → st.cur_section_start ≤ m.position
    → AreAhead (m.position + match_length m) s ms
    → Returns (process_match s m st) (IsGood ms)
unfolding process_match process_token
process_match-IsGood s m ms st h le a =
    bind-Returns (IsKept st) (IsGood ms)
      (if m.position == st.cur_section_start then ok st else insert_static s st (m.position - 1)) _
      (insert_before-IsKept s m st h le)
      λ st' k. elim (Bool-cases (length (trim m.inner) == 0)) [
        | inl e ↦ rw e (moved st' (m.position + 2) k.0, empty-IsReady m s ms a)
        | inr e ↦ rw e (after_check-IsGood s m ms (trim m.inner) st' _ _ k.0 a)
      ]

and_then-IsGood :
    (ms : List Match) (step : Step) (next : ParseState → Result Step)
    → IsGood ms step
    → ((st : ParseState)
        → IsLinkedState st
        → IsReady st.cur_section_start ms
        → Returns (next st) (IsGood []))
    → Returns (and_then step next) (IsGood [])
and_then-IsGood ms (fails e tree) next g k = g
and_then-IsGood ms (goes st) next g k = k st g.0 g.1

process_all-IsGood :
    (s : Bytes) (ms : List Match) (st : ParseState) (b : ℕ)
    → IsLinkedState st
    → IsReady st.cur_section_start ms
    → AreAhead b s ms
    → Returns (process_all s ms st) (IsGood [])
unfolding process_all
process_all-IsGood s [] st b h r a = (h, tt)
process_all-IsGood s (m ∷ ms) st b h r a =
    bind-Returns (IsGood ms) (IsGood []) (process_match s m st) _
      (process_match-IsGood s m ms st h r a.3)
      λ step g.
        and_then-IsGood ms step (λ st'. process_all s ms st') g
          λ st' h' r'. process_all-IsGood s ms st' (m.position + match_length m) h' r' a.3

-- What is left when parsing ends.
abbrev pub IsTree : Step → Type 0
IsTree (fails e tree) = AreLinked (length tree) 0 tree
IsTree (goes st) = AreLinked (length st.tree) 0 st.tree

nonempty_last : (start n : ℕ) → ltb start n ≡ true → start ≤ n - 1
nonempty_last start n h = ground arith

unmatched_returns :
    (st : ParseState) (i : ℕ) (next : SyntaxTreeItem → SyntaxTreeError)
    → IsLinkedState st
    → i < length st.tree
    → Returns (item_at st.tree i >>= λ parent. ok (fails (next parent) st.tree)) IsTree
unmatched_returns st i next h b =
    bind-Returns (IsLinked (length st.tree) (0 + i)) IsTree (item_at st.tree i) _
      (item_returns st.tree i h.linked b) λ x k. h.linked

finish_in-IsTree :
    (s : Bytes) (st : ParseState) (section : SyntaxSectionType) (p : Option ℕ)
    → IsLinkedState st
    → HasParent section p
    → IsBelow (length st.tree) p
    → Returns (finish_in s st section p) IsTree
finish_in-IsTree s st root p h k b = elim (Bool-cases (ltb st.cur_section_start (length s))) [
  | inl e ↦ rw e (
      bind-Returns (IsKept st) IsTree (insert_static s st (length s - 1)) _
        (insert_static-IsKept s st (length s - 1) h
          (nonempty_last st.cur_section_start (length s) e))
        λ st' l. l.0.linked)
  | inr e ↦ rw e h.linked
]
finish_in-IsTree s st SyntaxSectionType.for_loop none h k b = absurd (k refl)
finish_in-IsTree s st SyntaxSectionType.condition none h k b = absurd (k refl)
finish_in-IsTree s st SyntaxSectionType.for_loop (some i) h k b = unmatched_returns st i _ h b
finish_in-IsTree s st SyntaxSectionType.condition (some i) h k b = unmatched_returns st i _ h b

new-IsLinkedState : IsLinkedState new_state
unfolding new_state
new-IsLinkedState = record {
  linked = tt;
  parent_in = tt;
  sibling_in = tt;
  updates = λ u. cc;
  section = refl;
}

AreAhead-IsReady : (s : Bytes) (ms : List Match) → AreAhead 0 s ms → IsReady 0 ms
AreAhead-IsReady s [] a = tt
AreAhead-IsReady s (m ∷ ms) a = a.0

finish-IsTree :
    (s : Bytes) (step : Step) → IsGood [] step → Returns (and_then step (λ st. finish s st)) IsTree
unfolding finish
finish-IsTree s (fails e tree) g = g
finish-IsTree s (goes st) g =
    finish_in-IsTree s st st.cur_section st.idx_parent_item g.0 g.0.section g.0.parent_in

-- Parsing returns for every template, with a tree or an error of the template, and throws nothing: no
-- index that it uses is out of range, and no slice is taken backwards. In the tree, with an error or
-- without, every link to a sibling or a child leads to a later item of the tree, and every link to a
-- parent to an earlier one.
pub parse_lem : (s : Bytes) → Returns (parse s) IsTree
unfolding parse new_state
parse_lem s = elim (Bool-cases (length s == 0)) [
  | inl e ↦ rw e tt
  | inr e ↦
      let ahead = tokens-AreAhead 0 [] s in
      rw e (
        bind-Returns (IsGood []) IsTree (process_all s (tokens_from 0 0 s) new_state) _
          (process_all-IsGood s (tokens_from 0 0 s) new_state (0 + 0) new-IsLinkedState
            (AreAhead-IsReady s (tokens_from 0 0 s) ahead) ahead)
          λ step g. finish-IsTree s step g)
]
