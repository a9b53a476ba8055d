-- ===== src/Template/Lookups.antt =====
-- Looking up variables, conditions and lists: the exception for a name that does not exist is caught.
use lib_sloppy.Base.{
  ◌≢◌, Bool, not, [], ◌∷◌, Bytes, length, drop, ◌==◌, if◌then◌else◌, Result, ok, err, ◌>>=◌,
  out_of_range, runtime_error, invalid_argument, range_error, bad_optional_access, bad_alloc,
  undefined_behaviour, Bool-cases, Option-cases, inl, inr,
}
use lib_sloppy.Template.{SyntaxTreeItem}
use lib_sloppy.Template.Tokens.{starts_with}
use lib_sloppy.Template.Store.{
  Json, null, boolean, number, string, array, object, TemplateStore, Scope, get_string, caught,
  json2string, truth_of_text, truth_of, true_words, false_words, is_in, elements_of,
  resolve_variable, variable_text, condition_holds, loop_list,
}

-- A result that is not the exception out_of_range.
abbrev pub InRange {ℓ} : {A : Type ℓ} → Result A → Type 0
InRange (ok a) = Unit
InRange (err e) = e ≢ out_of_range

bind-InRange {ℓ κ} :
    {A : Type ℓ} {B : Type κ} (m : Result A) (next : A → Result B)
    → InRange m
    → ((a : A) → InRange (next a))
    → InRange (m >>= next)
bind-InRange (ok a) next h k = k a
bind-InRange (err e) next h k = h

caught-InRange {ℓ} : {A : Type ℓ} (instead : A) (r : Result A) → InRange (caught instead r)
caught-InRange instead (ok a) = tt
caught-InRange instead (err out_of_range) = tt
caught-InRange instead (err invalid_argument) = λ e. cc
caught-InRange instead (err range_error) = λ e. cc
caught-InRange instead (err runtime_error) = λ e. cc
caught-InRange instead (err bad_optional_access) = λ e. cc
caught-InRange instead (err bad_alloc) = λ e. cc
caught-InRange instead (err undefined_behaviour) = λ e. cc

module _ {J : Type 0} (view : J → Json J) where
  truth_of_text-InRange : (s : Bytes) → InRange (truth_of_text view s)
  truth_of_text-InRange s = elim (Bool-cases (is_in true_words s)) [
    | inl h ↦ rw (InRange, h) tt
    | inr h ↦ elim (Bool-cases (is_in false_words s)) [
      | inl k ↦ rw (InRange, h, k) tt
      | inr k ↦ rw (InRange, h, k) (λ e. cc)
    ]
  ]

  truth_of-InRange : (val : Json J) → InRange (truth_of view val)
  unfolding json2string
  truth_of-InRange null = tt
  truth_of-InRange (boolean b) = tt
  truth_of-InRange (number text) = truth_of_text-InRange text
  truth_of-InRange (string s) = truth_of_text-InRange s
  truth_of-InRange (array xs) = elim (Bool-cases (length xs == 0)) [
    | inl h ↦ rw (InRange, h) tt
    | inr h ↦ rw (InRange, h) (λ e. cc)
  ]
  truth_of-InRange (object fields) = elim (Bool-cases (length fields == 0)) [
    | inl h ↦ rw (InRange, h) tt
    | inr h ↦ rw (InRange, h) (λ e. cc)
  ]

  pub variable_text-InRange :
      (store : TemplateStore) (var_name : Bytes) (dic : J) (locals : Scope view)
      → InRange (variable_text view store var_name dic locals)
  unfolding variable_text
  variable_text-InRange store var_name dic locals =
      elim (Bool-cases (starts_with (b':' ∷ b':' ∷ []) var_name)) [
        | inl h ↦ elim (Bool-cases (length (drop 2 var_name) == 0)) [
          | inl k ↦ rw (InRange, h, k) tt
          | inr k ↦ elim (Option-cases (get_string store (drop 2 var_name) [])) [
            | inl n ↦ rw (InRange, h, k, n) tt
            | inr (val, s) ↦ rw (InRange, h, k, s) tt
          ]
        ]
        | inr h ↦ rw h (caught-InRange [] _)
      ]

  pub condition_holds-InRange :
      (sti : SyntaxTreeItem) (dic : J) (locals : Scope view)
      → InRange (condition_holds view sti dic locals)
  unfolding condition_holds
  condition_holds-InRange sti dic locals =
      let found = resolve_variable view sti.var_name dic locals >>= λ val. ok (view val) in
      let inverted : Bool → Result Bool =
        λ cond. ok (if sti.invert_condition then not cond else cond) in
      bind-InRange (caught null found) (λ val. truth_of view val >>= inverted)
        (caught-InRange null found)
        λ val. bind-InRange (truth_of view val) inverted (truth_of-InRange val) (λ cond. tt)

  pub loop_list-InRange :
      (sti : SyntaxTreeItem) (dic : J) (locals : Scope view)
      → InRange (loop_list view sti dic locals)
  unfolding loop_list
  loop_list-InRange sti dic locals =
      caught-InRange [] (
        resolve_variable view sti.list_name dic locals >>= λ list.
        ok (elements_of view (view list)))
