-- ===== src/Template/StoreFaults.antt =====
-- Where the rendering of templates keeps what it should forget, and forgets what it should keep.
use mathlib.Core.Path.{subst}
use lib_sloppy.Base.{
  ◌-◌, ◌≡◌, refl, sym, true, false, List, [], ◌∷◌, ◌++◌, append-nil, none, some, Bytes, length,
  length-append, take, take-append, ◌==◌, same, same_refl, ok, err, arith, runtime_error,
  Bool-cases, inl, inr,
}
use lib_sloppy.Config.Parser.{find_key}
use lib_sloppy.Template.{SyntaxTreeItem}
use lib_sloppy.Template.Store.{
  TemplateStore, Json, Scope, get_localized_template_name, is_in, emplace_key, erase_key,
}
use lib_sloppy.Template.Render.{Walk, Walked, get_template, for_each}

is_in_last : (ws : List Bytes) (s : Bytes) → is_in (ws ++ s ∷ []) s ≡ true
unfolding is_in
is_in_last [] s = rw (same_refl s)
is_in_last (w ∷ ws) s = ground (arith, is_in_last ws s)

pub find_key-erase_key :
    {A : Type 0} (name : Bytes) (m : List (Bytes × A)) → find_key name (erase_key name m) ≡ none
unfolding find_key erase_key
find_key-erase_key name [] = refl
find_key-erase_key name (e ∷ m) = elim (Bool-cases (same e.0 name)) [
  | inl k ↦ rw k (find_key-erase_key name m)
  | inr k ↦ rw (k, find_key, k) (find_key-erase_key name m)
]

cut_last : (ws : List Bytes) (s : Bytes) → take (length (ws ++ s ∷ []) - 1) (ws ++ s ∷ []) ≡ ws
cut_last ws s =
    let size : length (ws ++ s ∷ []) - 1 ≡ length ws = omega (arith, length-append ws (s ∷ [])) in
    rw size (take-append ws (s ∷ []))

emplace_found :
    {A : Type 0} (name : Bytes) (x y : A) (m : List (Bytes × A))
    → find_key name m ≡ some y
    → emplace_key name x m ≡ m
unfolding emplace_key
emplace_found name x y m e = rw (emplace_key, e)

module _ {J : Type 0} (view : J → Json J) where
  -- A template without items can be used once in a walk: its name stays among the templates in
  -- progress, and using it again throws `runtime_error`, as for a circular dependency.
  pub empty_template_once :
      (store : TemplateStore) (walk : List SyntaxTreeItem → List Bytes → Walked view)
      → (t_name : Bytes) (locals : Scope view) (visited : List Bytes)
      → let name = get_localized_template_name store t_name in
        (length name == 0) ≡ false
        → find_key name store.docs ≡ some []
        → is_in visited name ≡ false
        → (get_template view store walk t_name locals visited
            ≡ some (ok (record { text = []; locals = locals; visited = visited ++ name ∷ [] })))
          × (get_template view store walk t_name locals (visited ++ name ∷ [])
              ≡ some (err runtime_error))
  unfolding get_template
  empty_template_once store walk t_name locals visited ne found new = (
    rw (ne, new, found) refl,
    rw (ne, is_in_last visited (get_localized_template_name store t_name)) refl,
  )

  -- A template with items leaves the templates in progress as they were, if the walk through it does.
  template_restores :
      (store : TemplateStore) (walk : List SyntaxTreeItem → List Bytes → Walked view)
      → (t_name : Bytes) (locals : Scope view) (visited : List Bytes)
      → (item : SyntaxTreeItem) (items : List SyntaxTreeItem) (w : Walk view)
      → let name = get_localized_template_name store t_name in
        (length name == 0) ≡ false
        → find_key name store.docs ≡ some (item ∷ items)
        → is_in visited name ≡ false
        → walk (item ∷ items) (visited ++ name ∷ []) ≡ some (ok w)
        → w.visited ≡ visited ++ name ∷ []
        → get_template view store walk t_name locals visited
          ≡ some (ok (record { text = w.text; locals = locals; visited = visited }))
  unfolding get_template
  template_restores store walk t_name locals visited item items w ne found new walked same_end =
      let name = get_localized_template_name store t_name in
      let cut : take (length w.visited - 1) w.visited ≡ visited =
        subst (λ v. take (length v - 1) v ≡ visited) (sym same_end) (cut_last visited name) in
      rw (ne, new, found, walked, cut)

  -- A loop over one value whose variable is also that of an outer loop: the walk through its items
  -- finds the outer value, and after the loop the variable is gone.
  pub shadowed_loop :
      (walk : Scope view → List Bytes → Walked view) (var_name : Bytes) (x y : J)
      → (locals : Scope view) (visited : List Bytes) (w : Walk view)
      → find_key var_name locals ≡ some y
      → walk locals visited ≡ some (ok w)
      → (r : Walk view) × (for_each view walk var_name (x ∷ []) locals visited ≡ some (ok r))
        × (r.text ≡ w.text)
        × (find_key var_name r.locals ≡ none)
  unfolding for_each
  shadowed_loop walk var_name x y locals visited w found walked = (
    record { text = w.text ++ []; locals = erase_key var_name w.locals; visited = w.visited },
    rw (emplace_found var_name x y locals found, walked),
    append-nil w.text,
    find_key-erase_key var_name w.locals,
  )
