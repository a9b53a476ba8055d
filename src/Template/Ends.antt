-- ===== src/Template/Ends.antt =====
-- The parts of a rendering end when the walks that they are given do.
use lib_sloppy.Base.{
  ℕ, ◌+◌, ◌-◌, ◌≤◌, ◌≡◌, ◌≢◌, refl, sym, ◌∙◌, ap, Bool, true, false, List, [], ◌∷◌, ◌++◌,
  append-nil, append_assoc, Option, none, some, Bytes, length, length-append, take, take-append_add,
  ◌==◌, Result, ok, err, out_of_range, ◌<◌, arith, Bool-cases, inl, inr,
}
use lib_sloppy.Config.Parser.{find_key}
use lib_sloppy.Template.{SyntaxTreeItem}
use lib_sloppy.Template.Store.{
  TemplateStore, Json, Scope, get_localized_template_name, is_in, emplace_key, erase_key,
}
use lib_sloppy.Template.Render.{
  Walk, Walked, then_walk, answered, appended, for_each, on_tree, get_template, on_condition,
  on_loop,
}
use lib_sloppy.Template.Lookups.{InRange}
use lib_sloppy.Template.InProgress.{Docs, free, free-append, Extends}

module _ {J : Type 0} (view : J → Json J) where
  -- A walk that ends, with a result that has a property or with an exception other than out_of_range.
  abbrev pub Ends : Walked view → (Walk view → Type 0) → Type 0
  Ends none P = ⊥
  Ends (some (err e)) P = e ≢ out_of_range
  Ends (some (ok w)) P = P w

  pub Ends-some : (walked : Walked view) (P : Walk view → Type 0) → Ends walked P → walked ≢ none
  Ends-some none P h e = h
  Ends-some (some r) P h e = cc

  pub Ends-thrown :
      (walked : Walked view) (P : Walk view → Type 0)
      → Ends walked P
      → walked ≢ some (err out_of_range)
  Ends-thrown none P h e = h
  Ends-thrown (some (err thrown)) P h e = h (
      ap
        (λ (o : Walked view). elim o [
          | none ↦ thrown
          | some r ↦ elim r [ ok w ↦ thrown | err other ↦ other ]
        ])
        e)
  Ends-thrown (some (ok w)) P h e = cc

  pub then_walk-Ends :
      (P Q : Walk view → Type 0) (walked : Walked view) (next : Walk view → Walked view)
      → Ends walked P
      → ((w : Walk view) → P w → Ends (next w) Q)
      → Ends (then_walk view walked next) Q
  then_walk-Ends P Q none next h k = h
  then_walk-Ends P Q (some (err e)) next h k = h
  then_walk-Ends P Q (some (ok w)) next h k = k w h

  abbrev pub Grows : List Bytes → Walk view → Type 0
  Grows visited w = Extends visited w.visited

  pub Extends-refl : (visited : List Bytes) → Extends visited visited
  Extends-refl visited = ([], sym (append-nil visited))

  pub Extends-trans : (a b c : List Bytes) → Extends a b → Extends b c → Extends a c
  Extends-trans a b c h k = (h.0 ++ k.0, k.1 ∙ ap (λ v. v ++ k.0) h.1 ∙ append_assoc a h.0 k.0)

  pub free-Extends : (docs : Docs) (a b : List Bytes) → Extends a b → free docs b ≤ free docs a
  free-Extends docs a b h = omega (arith, ap (free docs) h.1, free-append docs a h.0)

  pub answered-Ends :
      (r : Result Bytes) (locals : Scope view) (visited : List Bytes)
      → InRange r
      → Ends (answered view r locals visited) (Grows visited)
  answered-Ends (err e) locals visited h = h
  answered-Ends (ok text) locals visited h = Extends-refl visited

  -- A walk that ends wherever it starts, with the templates `visited` in progress or more.
  abbrev pub IsEnding : List Bytes → (Scope view → List Bytes → Walked view) → Type 0
  IsEnding visited walk =
      (locals : Scope view) (v : List Bytes) → Extends visited v → Ends (walk locals v) (Grows v)

  pub appended-Ends :
      (text : Bytes) (a b : List Bytes) (walked : Walked view)
      → Extends a b
      → Ends walked (Grows b)
      → Ends (appended view text walked) (Grows a)
  appended-Ends text a b walked h k =
      then_walk-Ends (Grows b) (Grows a) walked _ k λ w g. Extends-trans a b w.visited h g

  for_each-Ends :
      (walk : Scope view → List Bytes → Walked view) (name : Bytes) (xs : List J)
      (locals : Scope view) (visited v : List Bytes)
      → IsEnding visited walk
      → Extends visited v
      → Ends (for_each view walk name xs locals v) (Grows v)
  unfolding for_each
  for_each-Ends walk name [] locals visited v h x = Extends-refl v
  for_each-Ends walk name (y ∷ ys) locals visited v h x =
      then_walk-Ends (Grows v) (Grows v) (walk (emplace_key name y locals) v) _
        (h (emplace_key name y locals) v x)
        λ w g. appended-Ends w.text v w.visited _ g (
          for_each-Ends walk name ys (erase_key name w.locals) visited w.visited h
            (Extends-trans visited v w.visited x g))

  popped :
      (visited v : List Bytes) (name : Bytes)
      → Extends (visited ++ name ∷ []) v
      → Extends visited (take (length v - 1) v)
  popped visited v name h =
      let whole : v ≡ visited ++ (name ∷ h.0) = h.1 ∙ append_assoc visited (name ∷ []) h.0 in
      let size : length v - 1 ≡ length visited + length h.0 =
        omega (arith, ap length whole, length-append visited (name ∷ h.0)) in
      (
        take (length h.0) (name ∷ h.0),
        ap (λ n. take n v) size
            ∙ ap (take (length visited + length h.0)) whole
            ∙ take-append_add (length h.0) visited (name ∷ h.0),
      )

  on_tree-Ends :
      (walk : List SyntaxTreeItem → List Bytes → Walked view) (name : Bytes) (locals : Scope view)
      (v : List Bytes) (found : Option (List SyntaxTreeItem))
      → ((tree : List SyntaxTreeItem)
          → found ≡ some tree
          → 0 < length tree
          → Ends (walk tree (v ++ name ∷ [])) (Grows (v ++ name ∷ [])))
      → Ends (on_tree view walk name locals v found) (Grows v)
  on_tree-Ends walk name locals v none h = λ e. cc
  on_tree-Ends walk name locals v (some []) h = (name ∷ [], refl)
  on_tree-Ends walk name locals v (some (item ∷ items)) h =
      then_walk-Ends (Grows (v ++ name ∷ [])) (Grows v) (walk (item ∷ items) (v ++ name ∷ [])) _
        (h (item ∷ items) refl (omega arith)) λ w g. popped v w.visited name g

  pub on_loop-Ends :
      (below : Option ℕ → Scope view → List Bytes → Walked view) (name : Bytes)
      (locals : Scope view) (v : List Bytes) (list : Result (List J)) (child : Option ℕ)
      → InRange list
      → IsEnding v (below child)
      → Ends (on_loop view below name locals v list child) (Grows v)
  on_loop-Ends below name locals v list none n h = Extends-refl v
  on_loop-Ends below name locals v (err e) (some child) n h = n
  on_loop-Ends below name locals v (ok xs) (some child) n h =
      for_each-Ends (below (some child)) name xs locals v v h (Extends-refl v)

  pub on_condition-Ends :
      (below : Option ℕ → Scope view → List Bytes → Walked view) (child : Option ℕ)
      (locals : Scope view) (v : List Bytes) (cond : Result Bool)
      → InRange cond
      → IsEnding v (below child)
      → Ends (on_condition view below child locals v cond) (Grows v)
  on_condition-Ends below child locals v (err e) n h = n
  on_condition-Ends below child locals v (ok true) n h = h locals v (Extends-refl v)
  on_condition-Ends below child locals v (ok false) n h = Extends-refl v

  -- The trees of the templates that are not in progress end.
  abbrev pub AreEnding :
      Docs → List Bytes → (List SyntaxTreeItem → List Bytes → Walked view) → Type 0
  AreEnding docs v other =
      (name : Bytes) (tree : List SyntaxTreeItem)
      → find_key name docs ≡ some tree
      → is_in v name ≡ false
      → 0 < length tree
      → Ends (other tree (v ++ name ∷ [])) (Grows (v ++ name ∷ []))

  pub get_template-Ends :
      (store : TemplateStore) (other : List SyntaxTreeItem → List Bytes → Walked view)
      (t_name : Bytes) (locals : Scope view) (v : List Bytes)
      → AreEnding store.docs v other
      → Ends (get_template view store other t_name locals v) (Grows v)
  unfolding get_template
  get_template-Ends store other t_name locals v h =
      let name = get_localized_template_name store t_name in
      elim (Bool-cases (length name == 0)) [
        | inl e ↦ rw (Ends, e) (λ thrown. cc)
        | inr e ↦ elim (Bool-cases (is_in v name)) [
          | inl k ↦ rw (Ends, e, k) (λ thrown. cc)
          | inr k ↦
              rw (e, k)
                (on_tree-Ends other name locals v (find_key name store.docs)
                  (λ tree found nonempty. h name tree found k nonempty))
        ]
      ]
