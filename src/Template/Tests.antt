-- ===== src/Template/Tests.antt =====
-- Small templates, parsed and rendered, and the theorems about them.
use lib_sloppy.Base.{
  ℕ, zero, suc, ◌≡◌, refl, ◌≢◌, true, false, List, [], ◌∷◌, ◌++◌, none, some, Bytes, Result, ok,
  err, arith, All, runtime_error, out_of_range,
}
use lib_sloppy.Text.Trim.{trim, trim_left, trim_right, is_space, IsSpace}
use lib_sloppy.Config.Parser.{find_key}
use lib_sloppy.Template.{SyntaxTreeItem, SyntaxTreeItemType, TokenType}
use lib_sloppy.Template.Tokens.{check_token}
use lib_sloppy.Template.Parse.{ParseState, Step, goes, parse, blank}
use lib_sloppy.Template.Links.{Returns, AreLinked}
use lib_sloppy.Template.InProgress.{IsSound}
use lib_sloppy.Template.Rendering.{rendering_ends}
use lib_sloppy.Template.Parsing.{IsTree, parse_lem}
use lib_sloppy.Template.EmptyToken.{in_braces, ends_token, empty_token_text}
use lib_sloppy.Template.Store.{
  TemplateStore, Json, Scope, get_localized_template_name, is_in, object, array, string, boolean,
}
use lib_sloppy.Template.Render.{Walk, Walked, get_template, for_each, get_text, answered}
use lib_sloppy.Template.StoreFaults.{empty_template_once, shadowed_loop}

-- "{{for x : l}}{{x}},{{endfor}}"
abbrev loop_text : Bytes
loop_text =
    (b'{' ∷ b'{' ∷ b'f' ∷ b'o' ∷ b'r' ∷ b' ' ∷ b'x' ∷ b' ' ∷ b':' ∷ b' ' ∷ b'l' ∷ b'}' ∷ b'}' ∷ [])
    ++ (b'{' ∷ b'{' ∷ b'x' ∷ b'}' ∷ b'}' ∷ b',' ∷ [])
    ++ (b'{' ∷ b'{' ∷ b'e' ∷ b'n' ∷ b'd' ∷ b'f' ∷ b'o' ∷ b'r' ∷ b'}' ∷ b'}' ∷ [])

abbrev loop_tree : List SyntaxTreeItem
loop_tree =
    record (blank SyntaxTreeItemType.for_loop 0 12) {
      var_name = b'x' ∷ [];
      list_name = b'l' ∷ [];
      idx_first_child = some 1;
    }
    ∷ record (blank SyntaxTreeItemType.variable 13 17) {
      var_name = b'x' ∷ [];
      idx_next_sibling = some 2;
      idx_parent = some 0;
    }
    ∷ record (blank SyntaxTreeItemType.static 18 18) {
      static_text = b',' ∷ [];
      idx_parent = some 0;
    }
    ∷ []

abbrev tree_of : Result Step → List SyntaxTreeItem
tree_of (ok (goes st)) = st.tree
tree_of _ = []

parses : tree_of (parse loop_text) ≡ loop_tree
unfolding parse trim trim_right trim_left is_space
parses = refl

-- "iffy" is taken for a malformed "if".
iffy : check_token (b'i' ∷ b'f' ∷ b'f' ∷ b'y' ∷ []) ≡ (TokenType.start_if, false)
unfolding check_token
iffy = refl

parse_lem_example : Returns (parse loop_text) IsTree
parse_lem_example = parse_lem loop_text

abbrev blanks : Bytes
blanks = b' ' ∷ b' ' ∷ []

blanks_are_spaces : All IsSpace blanks
unfolding is_space
blanks_are_spaces = (refl, (refl, tt))

empty_token_text_example :
    (st : ParseState) × (parse (in_braces blanks) ≡ ok (goes st))
    × (st.tree
        ≡ record (blank SyntaxTreeItemType.static 2 5) { static_text = blanks ++ ends_token } ∷ [])
empty_token_text_example = empty_token_text blanks blanks_are_spaces refl (omega arith)

-- Values without references to others.
abbrev view : ℕ → Json ℕ
view zero = object ((b'l' ∷ [], 1) ∷ [])
view (suc zero) = array (2 ∷ 3 ∷ [])
view (suc (suc zero)) = string (b'a' ∷ [])
view _ = boolean true

-- A template "t" with the loop, and an empty one "e".
abbrev store : TemplateStore
store = record {
  docs = (b't' ∷ [], loop_tree) ∷ (b'e' ∷ [], []) ∷ [];
  str_list = none;
  lang_code = [];
}

renders :
    get_text view 9 store (b't' ∷ []) 0
    ≡ some (ok (record { text = b'a' ∷ b',' ∷ b'1' ∷ b',' ∷ []; locals = []; visited = [] }))
unfolding get_text
renders = refl

abbrev still : List SyntaxTreeItem → List Bytes → Walked view
still tree visited = answered view (ok []) [] visited

empty_template_once_example :
    (get_template view store still (b'e' ∷ []) [] []
      ≡ some (ok (record { text = []; locals = []; visited = (b'e' ∷ []) ∷ [] })))
    × (get_template view store still (b'e' ∷ []) [] ((b'e' ∷ []) ∷ []) ≡ some (err runtime_error))
unfolding get_localized_template_name is_in find_key
empty_template_once_example = empty_template_once view store still (b'e' ∷ []) [] [] refl refl refl

abbrev outer : Scope view
outer = (b'x' ∷ [], 2) ∷ []

abbrev echo : Scope view → List Bytes → Walked view
echo locals visited = answered view (ok (b'a' ∷ [])) locals visited

shadowed_loop_example :
    (r : Walk view) × (for_each view echo (b'x' ∷ []) (3 ∷ []) outer [] ≡ some (ok r))
    × (r.text ≡ b'a' ∷ [])
    × (find_key (b'x' ∷ []) r.locals ≡ none)
unfolding find_key
shadowed_loop_example =
    shadowed_loop view echo (b'x' ∷ []) 3 2 outer []
      (record { text = b'a' ∷ []; locals = outer; visited = [] }) refl refl

loop_tree-AreLinked : AreLinked 3 0 loop_tree
loop_tree-AreLinked = (
  (tt, (omega arith, omega arith), tt),
  (((omega arith, omega arith), tt, omega arith), ((tt, tt, omega arith), tt)),
)

store-IsSound : All (λ (d : Bytes × List SyntaxTreeItem). IsSound 3 d.1) store.docs
store-IsSound = ((loop_tree-AreLinked, omega arith), ((tt, omega arith), tt))

rendering_ends_example :
    (get_text view 11 store (b't' ∷ []) 0 ≢ none)
    × (get_text view 11 store (b't' ∷ []) 0 ≢ some (err out_of_range))
rendering_ends_example = rendering_ends view 3 11 store (b't' ∷ []) 0 store-IsSound (omega arith)
