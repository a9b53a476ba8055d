-- ===== src/Template/InProgress.antt =====
-- The templates in progress while one is rendered: each include adds one of the store, so that the
-- templates that can still be included get fewer.
use mathlib.Core.Path.{subst}
use lib_sloppy.Base.{
  ℕ, zero, suc, ◌+◌, ◌-◌, ◌≤◌, ◌≡◌, refl, sym, ◌∙◌, ap, true, false, ◌||◌, List, [], ◌∷◌, ◌++◌,
  Option, none, some, Bytes, length, All, same, same_iff, same_refl, if◌then◌else◌, arith,
  Bool-cases, inl, inr,
}
use lib_sloppy.Config.Parser.{find_key}
use lib_sloppy.Template.{SyntaxTreeItem}
use lib_sloppy.Template.Links.{AreLinked}
use lib_sloppy.Template.Store.{is_in}

abbrev pub Docs : Type 0
Docs = List (Bytes × List SyntaxTreeItem)

-- How many templates are not in progress.
abbrev pub free : Docs → List Bytes → ℕ
free [] visited = 0
free (d ∷ docs) visited = (if is_in visited d.0 then 0 else 1) + free docs visited

pub is_in-append : (ws e : List Bytes) (s : Bytes) → is_in (ws ++ e) s ≡ (is_in ws s || is_in e s)
unfolding is_in
is_in-append [] e s = refl
is_in-append (w ∷ ws) e s = ground (arith, is_in-append ws e s)

pub free-append : (docs : Docs) (ws e : List Bytes) → free docs (ws ++ e) ≤ free docs ws
free-append [] ws e = omega arith
free-append (d ∷ docs) ws e = ground (arith, free-append docs ws e, is_in-append ws e d.0)

pub free_all : (docs : Docs) (ws : List Bytes) → free docs ws ≤ length docs
free_all [] ws = omega arith
free_all (d ∷ docs) ws = ground (arith, free_all docs ws)

is_in_one : (s : Bytes) → is_in (s ∷ []) s ≡ true
unfolding is_in
is_in_one s = rw (same_refl s)

-- One more template in progress.
pub free-visit :
    (docs : Docs) (ws : List Bytes) (name : Bytes) (tree : List SyntaxTreeItem)
    → find_key name docs ≡ some tree
    → is_in ws name ≡ false
    → free docs (ws ++ name ∷ []) + 1 ≤ free docs ws
unfolding find_key
free-visit [] ws name tree h n = cc
free-visit (d ∷ docs) ws name tree h n = elim (Bool-cases (same d.0 name)) [
  | inl k ↦
      let e : d.0 ≡ name = (same_iff d.0 name).0 k in
      let before : is_in ws d.0 ≡ false = ap (is_in ws) e ∙ n in
      let after : is_in (ws ++ name ∷ []) d.0 ≡ true =
        ap (is_in (ws ++ name ∷ [])) e
        ∙ is_in-append ws (name ∷ []) name
        ∙ rw (n, is_in_one name) in
      let rest = free-append docs ws (name ∷ []) in rw (before, after) (omega (arith, rest))
  | inr k ↦
      let rest = free-visit docs ws name tree (sym (rw (find_key, k)) ∙ h) n in
      ground (arith, rest, is_in-append ws (name ∷ []) d.0)
]

-- The steps of walks through one tree, for each template that can still be included.
abbrev pub cost : ℕ → ℕ → ℕ
cost size zero = 0
cost size (suc n) = size + 2 + cost size n

pub cost-le : (size m n : ℕ) → m ≤ n → cost size m ≤ cost size n
cost-le size zero n h = omega arith
cost-le size (suc m) zero h = absurd (omega arith)
cost-le size (suc m) (suc n) h = omega (arith, cost-le size m n (omega (arith, h)))

-- The items from an index on.
abbrev pub remaining : ℕ → Option ℕ → ℕ
remaining n none = 0
remaining n (some i) = n - i

abbrev pub Extends : List Bytes → List Bytes → Type 0
Extends visited visited' = (e : List Bytes) × (visited' ≡ visited ++ e)

-- The templates of a store, with at most `size` items each, linked as parsing leaves them.
abbrev pub IsSound : ℕ → List SyntaxTreeItem → Type 0
IsSound size tree = AreLinked (length tree) 0 tree × (length tree ≤ size)

pub find_key-All :
    (P : List SyntaxTreeItem → Type 0) (docs : Docs) (name : Bytes) (tree : List SyntaxTreeItem)
    → All (λ (d : Bytes × List SyntaxTreeItem). P d.1) docs
    → find_key name docs ≡ some tree
    → P tree
unfolding find_key
find_key-All P [] name tree h e = cc
find_key-All P (d ∷ docs) name tree h e = elim (Bool-cases (same d.0 name)) [
  | inl k ↦
      let found : find_key name (d ∷ docs) ≡ some d.1 = rw (find_key, k) refl in
      let same_tree : d.1 ≡ tree =
        ap (λ (o : Option (List SyntaxTreeItem)). elim o [ none ↦ d.1 | some t ↦ t ])
          (sym found ∙ e) in
      subst P same_tree h.0
  | inr k ↦ find_key-All P docs name tree h.1 (sym (rw (find_key, k)) ∙ e)
]
