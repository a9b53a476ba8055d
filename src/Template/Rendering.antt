-- ===== src/Template/Rendering.antt =====
-- The rendering of a template ends: a walk through a tree goes to later items, and a template that is
-- included is not among those in progress.
use mathlib.Core.Path.{subst}
use lib_sloppy.Base.{
  ℕ, zero, suc, ◌+◌, ◌≤◌, ◌<◌, ◌≡◌, ◌≢◌, List, [], ◌∷◌, ◌++◌, Option, none, some, Bytes, length,
  get_elem?, All, arith, err, out_of_range, false,
}
use lib_sloppy.Config.Parser.{find_key}
use lib_sloppy.Template.{SyntaxTreeItem, SyntaxTreeItemType}
use lib_sloppy.Template.Lookups.{variable_text-InRange, condition_holds-InRange, loop_list-InRange}
use lib_sloppy.Template.Links.{AreLinked, AreLinked-get, IsLinked, IsBetween, IsBelow}
use lib_sloppy.Template.Store.{
  TemplateStore, Json, Scope, variable_text, condition_holds, loop_list, is_in,
}
use lib_sloppy.Template.Render.{Walked, item_in, at_item, item_text, get_syntax_subtree, get_text}
use lib_sloppy.Template.SyntaxTreeItemType.{static, variable, for_loop, condition, include_cmd}
use lib_sloppy.Template.InProgress.{
  Docs, free, free_all, free-visit, cost, cost-le, remaining, IsSound, find_key-All,
}
use lib_sloppy.Template.Ends.{
  Ends, Grows, IsEnding, AreEnding, Ends-some, Ends-thrown, then_walk-Ends, Extends-refl,
  free-Extends, answered-Ends, appended-Ends, on_loop-Ends, on_condition-Ends, get_template-Ends,
}

remaining_less :
    (i n : ℕ) (p : Option ℕ) → i < n → IsBetween i n p → remaining n p + 1 ≤ remaining n (some i)
remaining_less i n none h k = omega (arith, h)
remaining_less i n (some j) h k = omega (arith, h, k.0, k.1)

-- The item at an index of a linked tree.
IsLinked-get :
    (tree : List SyntaxTreeItem) (i : ℕ)
    → AreLinked (length tree) 0 tree
    → i < length tree
    → (sti : SyntaxTreeItem) × (get_elem? tree i ≡ some sti) × IsLinked (length tree) i sti
IsLinked-get tree i h lt =
    let (sti, at, l) = AreLinked-get (length tree) 0 i tree h lt in
    let e : 0 + i ≡ i = omega arith in (sti, at, subst (λ k. IsLinked (length tree) k sti) e l)

IsBetween-IsBelow : (i n : ℕ) (p : Option ℕ) → IsBetween i n p → IsBelow n p
IsBetween-IsBelow i n none h = tt
IsBetween-IsBelow i n (some j) h = h.1

-- An include leaves less that can be included.
cost-visit :
    (size : ℕ) (docs : Docs) (ws : List Bytes) (name : Bytes) (tree : List SyntaxTreeItem)
    → find_key name docs ≡ some tree
    → is_in ws name ≡ false
    → cost size (free docs (ws ++ name ∷ [])) + size + 2 ≤ cost size (free docs ws)
cost-visit size docs ws name tree found fresh = omega (
  arith,
  cost-le size (suc (free docs (ws ++ name ∷ []))) (free docs ws)
      (omega (arith, free-visit docs ws name tree found fresh)),
)

module _ {J : Type 0} (view : J → Json J) where
  item_in-Ends :
      (store : TemplateStore) (below : Option ℕ → Scope view → List Bytes → Walked view)
      (other : List SyntaxTreeItem → List Bytes → Walked view) (dic : J) (sti : SyntaxTreeItem)
      (locals : Scope view) (v : List Bytes) (t : SyntaxTreeItemType)
      → IsEnding view v (below sti.idx_first_child)
      → AreEnding view store.docs v other
      → Ends view (item_in view store below other dic sti locals v t) (Grows view v)
  item_in-Ends store below other dic sti locals v static h k = Extends-refl view v
  item_in-Ends store below other dic sti locals v variable h k =
      answered-Ends view (variable_text view store sti.var_name dic locals) locals v
        (variable_text-InRange view store sti.var_name dic locals)
  item_in-Ends store below other dic sti locals v include_cmd h k =
      get_template-Ends view store other sti.var_name locals v k
  item_in-Ends store below other dic sti locals v condition h k =
      on_condition-Ends view below sti.idx_first_child locals v
        (condition_holds view sti dic locals) (condition_holds-InRange view sti dic locals) h
  item_in-Ends store below other dic sti locals v for_loop h k =
      on_loop-Ends view below sti.var_name locals v (loop_list view sti dic locals)
        sti.idx_first_child (loop_list-InRange view sti dic locals) h

  item_text-Ends :
      (store : TemplateStore) (below : Option ℕ → Scope view → List Bytes → Walked view)
      (other : List SyntaxTreeItem → List Bytes → Walked view) (dic : J) (sti : SyntaxTreeItem)
      (locals : Scope view) (v : List Bytes)
      → IsEnding view v (below sti.idx_first_child)
      → AreEnding view store.docs v other
      → Ends view (item_text view store below other dic sti locals v) (Grows view v)
  unfolding item_text
  item_text-Ends store below other dic sti locals v h k =
      item_in-Ends store below other dic sti locals v sti.t h k

  -- An item and what follows, where the walk goes on from items that it links.
  at_item-Ends :
      (store : TemplateStore) (below : Option ℕ → Scope view → List Bytes → Walked view)
      (other : List SyntaxTreeItem → List Bytes → Walked view) (dic : J) (locals : Scope view)
      (v : List Bytes) (sti : SyntaxTreeItem)
      → IsEnding view v (below sti.idx_first_child)
      → IsEnding view v (below sti.idx_next_sibling)
      → AreEnding view store.docs v other
      → Ends view (at_item view store below other dic locals v (some sti)) (Grows view v)
  at_item-Ends store below other dic locals v sti child next k =
      then_walk-Ends view (Grows view v) (Grows view v)
        (item_text view store below other dic sti locals v) _
        (item_text-Ends store below other dic sti locals v child k)
        λ w g. appended-Ends view w.text v w.visited _ g (next w.locals w.visited g)

  walk-Ends :
      (size fuel : ℕ) (store : TemplateStore) (dic : J) (tree : List SyntaxTreeItem)
      (idx : Option ℕ) (locals : Scope view) (v : List Bytes)
      → All (λ (d : Bytes × List SyntaxTreeItem). IsSound size d.1) store.docs
      → AreLinked (length tree) 0 tree
      → IsBelow (length tree) idx
      → cost size (free store.docs v) + remaining (length tree) idx < fuel
      → Ends view (get_syntax_subtree view fuel store dic tree idx locals v) (Grows view v)
  unfolding get_syntax_subtree
  walk-Ends size zero store dic tree idx locals v all h lt b = absurd (omega (arith, b))
  walk-Ends size (suc fuel) store dic tree none locals v all h lt b = Extends-refl view v
  walk-Ends size (suc fuel) store dic tree (some i) locals v all h lt b =
      let (sti, at, linked) = IsLinked-get tree i h lt in
      let onward : (p : Option ℕ)
          → IsBetween i (length tree) p
          → IsEnding view v (get_syntax_subtree view fuel store dic tree p) =
        λ p between ls w x.
          walk-Ends size fuel store dic tree p ls w all h
            (IsBetween-IsBelow i (length tree) p between)
            (omega (
              arith,
              b,
              remaining_less i (length tree) p lt between,
              cost-le size (free store.docs w) (free store.docs v)
                  (free-Extends view store.docs v w x),
            )) in
      rw (at_item, at)
        (at_item-Ends store (get_syntax_subtree view fuel store dic tree)
          (λ t w. get_syntax_subtree view fuel store dic t (some 0) [] w) dic locals v sti
          (onward sti.idx_first_child linked.1) (onward sti.idx_next_sibling linked.0)
          λ name t found fresh nonempty.
            let sound = find_key-All (IsSound size) store.docs name t all found in
            walk-Ends size fuel store dic t (some 0) [] (v ++ name ∷ []) all sound.0 nonempty
              (omega (arith, b, sound.1, cost-visit size store.docs v name t found fresh)))

  -- When every tree of the store is linked as parsing leaves it and has at most `size` items, and the
  -- fuel is more than size + 2 for each template of the store, rendering a template ends, although
  -- templates can include each other: it does not run out of fuel, and returns a text or throws an
  -- exception, which is not the out_of_range that the loops catch.
  pub rendering_ends :
      (size fuel : ℕ) (store : TemplateStore) (t_name : Bytes) (dic : J)
      → All (λ (d : Bytes × List SyntaxTreeItem). IsSound size d.1) store.docs
      → cost size (length store.docs) < fuel
      → (get_text view fuel store t_name dic ≢ none)
        × (get_text view fuel store t_name dic ≢ some (err out_of_range))
  unfolding get_text
  rendering_ends size fuel store t_name dic all b =
      let all_free =
        cost-le size (free store.docs []) (length store.docs) (free_all store.docs []) in
      let ends =
        get_template-Ends view store (λ t w. get_syntax_subtree view fuel store dic t (some 0) [] w)
          t_name [] []
          λ name t found fresh nonempty.
            let sound = find_key-All (IsSound size) store.docs name t all found in
            walk-Ends size fuel store dic t (some 0) [] (name ∷ []) all sound.0 nonempty (
              omega
                (arith, b, sound.1, all_free, cost-visit size store.docs [] name t found fresh)) in
      (
        Ends-some view (get_text view fuel store t_name dic) (Grows view []) ends,
        Ends-thrown view (get_text view fuel store t_name dic) (Grows view []) ends,
      )
