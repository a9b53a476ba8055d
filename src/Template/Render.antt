-- ===== src/Template/Render.antt =====
-- The rendering of templates: the walk through a syntax tree. A loop, a condition and an include call
-- the walk that they are given.
use lib_sloppy.Base.{
  ℕ, zero, suc, ◌-◌, Bool, List, [], ◌∷◌, ◌++◌, Option, none, some, Bytes, length, take, get_elem?,
  ◌==◌, if◌then◌else◌, Result, ok, err, out_of_range, runtime_error, invalid_argument,
}
use lib_sloppy.Config.Parser.{find_key}
use lib_sloppy.Template.{SyntaxTreeItem, SyntaxTreeItemType}
use lib_sloppy.Template.SyntaxTreeItemType.{static, variable, for_loop, condition, include_cmd}
use lib_sloppy.Template.Store.{
  Json, TemplateStore, Scope, get_localized_template_name, is_in, emplace_key, erase_key,
  variable_text, condition_holds, loop_list,
}

module _ {J : Type 0} (view : J → Json J) where
  -- What a walk leaves: the text, the local variables and the templates in progress. `none` is a walk
  -- that ran out of fuel.
  pub record Walk : Type 0 where
    pub text : Bytes
    pub locals : Scope view
    pub visited : List Bytes

  abbrev pub Walked : Type 0
  Walked = Option (Result Walk)

  abbrev pub then_walk : Walked → (Walk → Walked) → Walked
  then_walk none next = none
  then_walk (some (err e)) next = some (err e)
  then_walk (some (ok w)) next = next w

  abbrev pub appended : Bytes → Walked → Walked
  appended text walked = then_walk walked λ w. some (ok (record w { text = text ++ w.text }))

  abbrev pub answered : Result Bytes → Scope view → List Bytes → Walked
  answered (err e) locals visited = some (err e)
  answered (ok text) locals visited =
      some (ok (record { text = text; locals = locals; visited = visited }))

  -- The loop over a list, with the walk through its items.
  unfoldable pub for_each :
      (Scope view → List Bytes → Walked) → Bytes → List J → Scope view → List Bytes → Walked
  unfolding emplace_key erase_key
  for_each walk var_name [] locals visited = answered (ok []) locals visited
  for_each walk var_name (x ∷ xs) locals visited =
      then_walk (walk (emplace_key var_name x locals) visited)
        λ w. appended w.text (for_each walk var_name xs (erase_key var_name w.locals) w.visited)

  -- The tree of a template, with the walk through it, which has local variables of its own.
  abbrev pub on_tree :
      (List SyntaxTreeItem → List Bytes → Walked)
      → Bytes
      → Scope view
      → List Bytes
      → Option (List SyntaxTreeItem)
      → Walked
  on_tree walk name locals visited none = some (err invalid_argument)
  on_tree walk name locals visited (some []) = answered (ok []) locals (visited ++ name ∷ [])
  on_tree walk name locals visited (some (item ∷ items)) =
      then_walk (walk (item ∷ items) (visited ++ name ∷ []))
        λ w. answered (ok w.text) locals (take (length w.visited - 1) w.visited)

  unfoldable pub get_template :
      TemplateStore
      → (List SyntaxTreeItem → List Bytes → Walked)
      → Bytes
      → Scope view
      → List Bytes
      → Walked
  unfolding get_localized_template_name is_in find_key
  get_template store walk t_name locals visited =
      let local_template = get_localized_template_name store t_name in
      if length local_template == 0
      then some (err invalid_argument)
      else if is_in visited local_template
      then some (err runtime_error)
      else on_tree walk local_template locals visited (find_key local_template store.docs)

  -- What follows the test of a condition, and the lookup of a list. The code catches out_of_range
  -- around all of a loop; here the lookup of the list catches it (loop_list).
  abbrev pub on_condition :
      (Option ℕ → Scope view → List Bytes → Walked)
      → Option ℕ
      → Scope view
      → List Bytes
      → Result Bool
      → Walked
  on_condition below child locals visited (err e) = some (err e)
  on_condition below child locals visited (ok cond) =
      if cond then below child locals visited else answered (ok []) locals visited

  abbrev pub on_list :
      (Scope view → List Bytes → Walked)
      → Bytes
      → Scope view
      → List Bytes
      → Result (List J)
      → Walked
  on_list walk var_name locals visited (err e) = some (err e)
  on_list walk var_name locals visited (ok list) = for_each walk var_name list locals visited

  abbrev pub on_loop :
      (Option ℕ → Scope view → List Bytes → Walked)
      → Bytes
      → Scope view
      → List Bytes
      → Result (List J)
      → Option ℕ
      → Walked
  on_loop below var_name locals visited list none = answered (ok []) locals visited
  on_loop below var_name locals visited list (some child) =
      on_list (below (some child)) var_name locals visited list

  -- The text of an item of a type, with the walk from another item of the tree on, and that through
  -- another tree.
  abbrev pub item_in :
      TemplateStore
      → (Option ℕ → Scope view → List Bytes → Walked)
      → (List SyntaxTreeItem → List Bytes → Walked)
      → J
      → SyntaxTreeItem
      → Scope view
      → List Bytes
      → SyntaxTreeItemType
      → Walked
  item_in store below other dic sti locals visited static =
      answered (ok sti.static_text) locals visited
  item_in store below other dic sti locals visited variable =
      answered (variable_text view store sti.var_name dic locals) locals visited
  item_in store below other dic sti locals visited include_cmd =
      get_template store other sti.var_name locals visited
  item_in store below other dic sti locals visited condition =
      on_condition below sti.idx_first_child locals visited (condition_holds view sti dic locals)
  item_in store below other dic sti locals visited for_loop =
      on_loop below sti.var_name locals visited (loop_list view sti dic locals) sti.idx_first_child

  unfoldable pub item_text :
      TemplateStore
      → (Option ℕ → Scope view → List Bytes → Walked)
      → (List SyntaxTreeItem → List Bytes → Walked)
      → J
      → SyntaxTreeItem
      → Scope view
      → List Bytes
      → Walked
  unfolding variable_text condition_holds loop_list for_each get_template
  item_text store below other dic sti locals visited =
      item_in store below other dic sti locals visited sti.t

  -- An item, and then the walk from its next sibling on. An index outside the tree does not come up
  -- in a tree that parsing has made.
  abbrev pub at_item :
      TemplateStore
      → (Option ℕ → Scope view → List Bytes → Walked)
      → (List SyntaxTreeItem → List Bytes → Walked)
      → J
      → Scope view
      → List Bytes
      → Option SyntaxTreeItem
      → Walked
  at_item store below other dic locals visited none = some (err out_of_range)
  at_item store below other dic locals visited (some sti) =
      then_walk (item_text store below other dic sti locals visited)
        λ w. appended w.text (below sti.idx_next_sibling w.locals w.visited)

  -- The walk through a tree from an item on.
  unfoldable pub get_syntax_subtree :
      ℕ → TemplateStore → J → List SyntaxTreeItem → Option ℕ → Scope view → List Bytes → Walked
  unfolding item_text
  get_syntax_subtree zero store dic tree idx locals visited = none
  get_syntax_subtree (suc fuel) store dic tree none locals visited = answered (ok []) locals visited
  get_syntax_subtree (suc fuel) store dic tree (some i) locals visited =
      at_item store (get_syntax_subtree fuel store dic tree)
        (λ t v. get_syntax_subtree fuel store dic t (some 0) [] v) dic locals visited
        (get_elem? tree i)

  -- The text of a template.
  unfoldable pub get_text : ℕ → TemplateStore → Bytes → J → Walked
  unfolding get_template get_syntax_subtree
  get_text fuel store t_name dic =
      get_template store (λ t v. get_syntax_subtree fuel store dic t (some 0) [] v) t_name [] []
