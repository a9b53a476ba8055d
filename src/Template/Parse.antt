-- ===== src/Template/Parse.antt =====
-- SyntaxTree::parse: the tree is a vector to which items are added, with links between them. `at` of
-- a vector throws behind its end.
use lib_sloppy.Base.{
  ℕ, zero, suc, ◌+◌, ◌-◌, Bool, true, false, ◌&&◌, ◌||◌, List, [], ◌∷◌, ◌++◌, Option, none, some,
  Bytes, length, get_elem?, ltb, leb, ◌==◌, if◌then◌else◌, Result, ok, err, ◌>>=◌, out_of_range,
}
use lib_sloppy.Text.Edit.{slice}
use lib_sloppy.Text.Trim.{trim}
use lib_sloppy.Template.{
  SyntaxTreeItemType, SyntaxTreeItem, TokenType, ErrorKind, SyntaxSectionType, SyntaxTreeError,
  unmatched_for, unmatched_if,
}
use lib_sloppy.Template.SyntaxSectionType.{root}
use lib_sloppy.Template.TokenType.{variable, start_if, end_if, start_for, end_for, include_cmd}
use lib_sloppy.Template.Tokens.{
  Match, match_length, tokens_from, match_if, match_for, match_include, do_syntax_check,
}

-- The variables of the function.
pub record ParseState : Type 0 where
  pub tree : List SyntaxTreeItem
  pub cur_section_start : ℕ
  pub idx_parent_item : Option ℕ
  pub cur_section : SyntaxSectionType
  pub update_parent : Bool
  pub idx_last_sibling : Option ℕ

abbrev pub modify_nth :
    ℕ → (SyntaxTreeItem → SyntaxTreeItem) → List SyntaxTreeItem → List SyntaxTreeItem
modify_nth i f [] = []
modify_nth zero f (x ∷ xs) = f x ∷ xs
modify_nth (suc i) f (x ∷ xs) = x ∷ modify_nth i f xs

-- A change of the item `at` an index.
abbrev pub modify_at :
    Option ℕ
    → (SyntaxTreeItem → SyntaxTreeItem)
    → List SyntaxTreeItem
    → Result (List SyntaxTreeItem)
modify_at none f tree = err out_of_range
modify_at (some i) f tree =
    if ltb i (length tree) then ok (modify_nth i f tree) else err out_of_range

abbrev pub set_first_child : ℕ → SyntaxTreeItem → SyntaxTreeItem
set_first_child i x = record x { idx_first_child = some i }

abbrev pub set_next_sibling : ℕ → SyntaxTreeItem → SyntaxTreeItem
set_next_sibling i x = record x { idx_next_sibling = some i }

-- The new item in the tree with no links but that to its parent, and then the links to it.
abbrev pub link_parent : Bool → Option ℕ → ℕ → List SyntaxTreeItem → Result (List SyntaxTreeItem)
link_parent true parent i tree = modify_at parent (set_first_child i) tree
link_parent false parent i tree = ok tree

abbrev pub link_sibling : Option ℕ → ℕ → List SyntaxTreeItem → Result (List SyntaxTreeItem)
link_sibling none i tree = ok tree
link_sibling (some j) i tree = modify_at (some j) (set_next_sibling i) tree

-- `push_back` and `updateLinks`.
unfoldable pub insert_item : ParseState → SyntaxTreeItem → Result ParseState
insert_item st item =
    let inserted = length st.tree in
    let new_item = record item {
      idx_next_sibling = none;
      idx_first_child = none;
      idx_parent = st.idx_parent_item;
    } in
    link_parent st.update_parent st.idx_parent_item inserted (st.tree ++ new_item ∷ [])
    >>= λ linked. link_sibling st.idx_last_sibling inserted linked >>= λ tree.
        ok (record st { tree = tree; update_parent = false; idx_last_sibling = some inserted })

abbrev pub section_of : SyntaxTreeItemType → SyntaxSectionType
section_of SyntaxTreeItemType.for_loop = SyntaxSectionType.for_loop
section_of _ = SyntaxSectionType.condition

-- The type `t` is that of the last item.
unfoldable pub level_down : ParseState → SyntaxTreeItemType → ParseState
level_down st t = record st {
  idx_parent_item = some (length st.tree - 1);
  update_parent = true;
  idx_last_sibling = none;
  cur_section = section_of t;
}

abbrev pub item_at : List SyntaxTreeItem → ℕ → Result SyntaxTreeItem
item_at tree i = elim (get_elem? tree i) [ none ↦ err out_of_range | some x ↦ ok x ]

abbrev pub section_under : List SyntaxTreeItem → Option ℕ → Result SyntaxSectionType
section_under tree none = ok root
section_under tree (some i) = item_at tree i >>= λ parent. ok (section_of parent.t)

abbrev pub up_from : ParseState → Option ℕ → Result ParseState
up_from st none = ok st
up_from st (some i) = item_at st.tree i >>= λ parent.
    section_under st.tree parent.idx_parent >>= λ section. ok (record st {
      idx_last_sibling = some i;
      idx_parent_item = parent.idx_parent;
      update_parent = false;
      cur_section = section;
    })

unfoldable pub level_up : ParseState → Result ParseState
level_up st = up_from st st.idx_parent_item

abbrev pub blank : SyntaxTreeItemType → ℕ → ℕ → SyntaxTreeItem
blank t first last = record {
  t = t;
  var_name = [];
  list_name = [];
  static_text = [];
  invert_condition = false;
  idx_next_sibling = none;
  idx_first_child = none;
  idx_parent = none;
  idx_first_char = first;
  idx_last_char = last;
}

-- An item for the text between two indices.
unfoldable pub insert_static : Bytes → ParseState → ℕ → Result ParseState
unfolding insert_item slice
insert_static s st last =
    let first = st.cur_section_start in
    slice s first last >>= λ text.
    insert_item st (record (blank SyntaxTreeItemType.static first last) { static_text = text })

-- The item of a token that is not an end; the names are those in the match.
unfoldable pub item_of : TokenType → Bytes → ℕ → ℕ → SyntaxTreeItem
unfolding match_if match_for match_include
item_of start_if token first last = elim (match_if token) [
  | none ↦ blank SyntaxTreeItemType.condition first last
  | some found ↦ record (blank SyntaxTreeItemType.condition first last) {
    var_name = found.1;
    invert_condition = found.0;
  }
]
item_of start_for token first last = elim (match_for token) [
  | none ↦ blank SyntaxTreeItemType.for_loop first last
  | some found ↦ record (blank SyntaxTreeItemType.for_loop first last) {
    var_name = found.0;
    list_name = found.1;
  }
]
item_of include_cmd token first last = elim (match_include token) [
  | none ↦ blank SyntaxTreeItemType.include_cmd first last
  | some name ↦ record (blank SyntaxTreeItemType.include_cmd first last) { var_name = name }
]
item_of _ token first last = record (blank SyntaxTreeItemType.variable first last) {
  var_name = token;
}

abbrev pub newline_at : Bytes → ℕ → Bool
newline_at s i = elim (get_elem? s i) [ none ↦ false | some c ↦ c == 10 ]

-- A control token that has a line for itself takes the line break behind it along.
unfoldable pub skips_newline : Bytes → TokenType → ℕ → ℕ → Bool
skips_newline s variable first next = false
skips_newline s include_cmd first next = false
skips_newline s _ first next =
    (first == 0 || newline_at s (first - 1)) && (leb (length s) next || newline_at s next)

-- A call goes on, or it returns an error of the template.
pub data Step : Type 0 where
  fails : SyntaxTreeError → List SyntaxTreeItem → Step
  goes : ParseState → Step

-- The tree of a valid token of a type.
abbrev pub add_token : TokenType → Bytes → ℕ → ℕ → ParseState → Result ParseState
add_token end_if token first last st = level_up st
add_token end_for token first last st = level_up st
add_token start_if token first last st =
    insert_item st (item_of start_if token first last) >>= λ st'.
    ok (level_down st' SyntaxTreeItemType.condition)
add_token start_for token first last st =
    insert_item st (item_of start_for token first last) >>= λ st'.
    ok (level_down st' SyntaxTreeItemType.for_loop)
add_token t token first last st = insert_item st (item_of t token first last)

-- A token that is not empty, after its check. The position of an error ends one character behind its
-- start: the code takes the number of groups of the match for its length.
abbrev pub after_check :
    Bytes → Match → Bytes → ParseState → TokenType → Option ErrorKind → Result Step
after_check s m token st tt (some kind) =
    ok (fails (record { kind = kind; first_char = m.position; last_char = m.position + 1 }) st.tree)
after_check s m token st tt none =
    let next = m.position + match_length m in
    add_token tt token m.position (next - 1) st >>= λ st'. ok (
      goes (record st' {
        cur_section_start = if skips_newline s tt m.position next then next + 1 else next;
      }))

unfoldable pub process_token : Bytes → Match → Bytes → ParseState → Result Step
unfolding do_syntax_check skips_newline insert_item level_down level_up item_of
process_token s m token st =
    let checked = do_syntax_check token st.cur_section in
    after_check s m token st checked.0 checked.1

-- One round of the loop. Behind an empty token the section goes on at the number of groups, 2.
unfoldable pub process_match : Bytes → Match → ParseState → Result Step
unfolding insert_static process_token
process_match s m st =
    (if m.position == st.cur_section_start then ok st else insert_static s st (m.position - 1))
    >>= λ st'.
        if length (trim m.inner) == 0
        then ok (goes (record st' { cur_section_start = m.position + 2 }))
        else process_token s m (trim m.inner) st'

abbrev pub and_then : Step → (ParseState → Result Step) → Result Step
and_then (fails e tree) next = ok (fails e tree)
and_then (goes st) next = next st

unfoldable pub process_all : Bytes → List Match → ParseState → Result Step
unfolding process_match
process_all s [] st = ok (goes st)
process_all s (m ∷ ms) st =
    process_match s m st >>= λ step. and_then step (λ st'. process_all s ms st')

abbrev pub unmatched : SyntaxTreeItemType → ErrorKind
unmatched SyntaxTreeItemType.for_loop = unmatched_for
unmatched _ = unmatched_if

-- What follows the loop: the section must be the root, and the remaining text is an item.
abbrev pub finish_in : Bytes → ParseState → SyntaxSectionType → Option ℕ → Result Step
finish_in s st root parent =
    if ltb st.cur_section_start (length s)
    then (insert_static s st (length s - 1) >>= λ st'. ok (goes st'))
    else ok (goes st)
finish_in s st _ none = err out_of_range
finish_in s st _ (some i) = item_at st.tree i >>= λ parent. ok (
    fails (record { kind = unmatched parent.t; first_char = parent.idx_first_char; last_char = 0 })
      st.tree)

unfoldable pub finish : Bytes → ParseState → Result Step
unfolding insert_static
finish s st = finish_in s st st.cur_section st.idx_parent_item

unfoldable pub new_state : ParseState
new_state = record {
  tree = [];
  cur_section_start = 0;
  idx_parent_item = none;
  cur_section = root;
  update_parent = false;
  idx_last_sibling = none;
}

unfoldable pub parse : Bytes → Result Step
unfolding process_all finish new_state tokens_from
parse s =
    if length s == 0
    then ok (goes new_state)
    else (process_all s (tokens_from 0 0 s) new_state >>= λ step. and_then step (λ st. finish s st))
