-- ===== src/Template/Store.antt =====
-- TemplateStore: the rendering of templates. A value of the JSON library is a parameter, seen through
-- what the library says of it; a loop calls the walk through the tree that it is given.
use lib_sloppy.Base.{
  ℕ, Bool, true, false, ◌||◌, not, List, [], ◌∷◌, ◌++◌, Option, none, some, Bytes, length, drop,
  ◌==◌, same, if◌then◌else◌, Result, ok, err, ◌>>=◌, out_of_range, runtime_error, invalid_argument,
}
use lib_sloppy.Config.Parser.{Content, has_key, get_value, default_section_name, find_key, cut_at}
use lib_sloppy.Template.{SyntaxTreeItem}
use lib_sloppy.Template.Tokens.{starts_with}

-- What the library says of a value: its type and what is in it. A number comes as its text.
pub data Json (J : Type 0) : Type 0 where
  null : Json J
  boolean : Bool → Json J
  number : Bytes → Json J
  string : Bytes → Json J
  array : List J → Json J
  object : List (Bytes × J) → Json J

module _ {J : Type 0} where
  abbrev pub is_empty : Json J → Bool
  is_empty null = true
  is_empty (array xs) = length xs == 0
  is_empty (object fields) = length fields == 0
  is_empty _ = false

  -- `find` of a member; a value that is no object has none.
  abbrev pub find_member : Bytes → Json J → Option J
  find_member name (object fields) = find_key name fields
  find_member name _ = none

  unfoldable pub json2string : Json J → Result Bytes
  json2string null = ok []
  json2string (boolean true) = ok (b'1' ∷ [])
  json2string (boolean false) = ok (b'0' ∷ [])
  json2string (number text) = ok text
  json2string (string s) = ok s
  json2string _ = err invalid_argument

-- The templates by name, the list of strings, if there is one, and the language.
pub record TemplateStore : Type 0 where
  pub docs : List (Bytes × List SyntaxTreeItem)
  pub str_list : Option Content
  pub lang_code : Bytes

unfoldable pub get_string : TemplateStore → Bytes → Bytes → Option Bytes
unfolding has_key get_value
get_string store s_name lang_override = elim store.str_list [
  | none ↦ none
  | some strings ↦
      let section = if length lang_override == 0 then store.lang_code else lang_override in
      if has_key strings section s_name
      then get_value strings section s_name
      else if has_key strings default_section_name s_name
      then get_value strings default_section_name s_name
      else none
]

abbrev pub slash : ℕ
slash = b'/'

-- The name of a template without a slash at its front, empty if there is no such template.
unfoldable pub get_localized_template_name : TemplateStore → Bytes → Bytes
unfolding same find_key
get_localized_template_name store doc_name =
    let d = if starts_with (slash ∷ []) doc_name then drop 1 doc_name else doc_name in
    elim (find_key d store.docs) [
      | none ↦ []
      | some tree ↦
          if length store.lang_code == 0
          then d
          else let local_name = store.lang_code ++ slash ∷ d in
            elim (find_key local_name store.docs) [ none ↦ d | some t ↦ local_name ]
    ]

unfoldable pub erase_key {ℓ} : {A : Type ℓ} → Bytes → List (Bytes × A) → List (Bytes × A)
unfolding same
erase_key name [] = []
erase_key name (e ∷ m) = (if same e.0 name then [] else e ∷ []) ++ erase_key name m

-- `emplace`: a key that is there keeps its value.
unfoldable pub emplace_key {ℓ} : {A : Type ℓ} → Bytes → A → List (Bytes × A) → List (Bytes × A)
unfolding find_key
emplace_key name x m = elim (find_key name m) [ none ↦ (name, x) ∷ m | some y ↦ m ]

-- The texts that stand for a truth value.
abbrev pub true_words : List Bytes
true_words =
    (b'y' ∷ b'e' ∷ b's' ∷ [])
    ∷ (b't' ∷ b'r' ∷ b'u' ∷ b'e' ∷ [])
    ∷ (b'o' ∷ b'n' ∷ [])
    ∷ (b'Y' ∷ b'E' ∷ b'S' ∷ [])
    ∷ (b'T' ∷ b'R' ∷ b'U' ∷ b'E' ∷ [])
    ∷ (b'O' ∷ b'N' ∷ [])
    ∷ (b'Y' ∷ b'e' ∷ b's' ∷ [])
    ∷ (b'T' ∷ b'r' ∷ b'u' ∷ b'e' ∷ [])
    ∷ (b'O' ∷ b'n' ∷ [])
    ∷ (b'1' ∷ [])
    ∷ []

abbrev pub false_words : List Bytes
false_words =
    (b'n' ∷ b'o' ∷ [])
    ∷ (b'f' ∷ b'a' ∷ b'l' ∷ b's' ∷ b'e' ∷ [])
    ∷ (b'o' ∷ b'f' ∷ b'f' ∷ [])
    ∷ (b'N' ∷ b'o' ∷ [])
    ∷ (b'F' ∷ b'a' ∷ b'l' ∷ b's' ∷ b'e' ∷ [])
    ∷ (b'O' ∷ b'f' ∷ b'f' ∷ [])
    ∷ (b'N' ∷ b'O' ∷ [])
    ∷ (b'F' ∷ b'A' ∷ b'L' ∷ b'S' ∷ b'E' ∷ [])
    ∷ (b'O' ∷ b'F' ∷ b'F' ∷ [])
    ∷ (b'0' ∷ [])
    ∷ []

unfoldable pub is_in : List Bytes → Bytes → Bool
unfolding same
is_in [] s = false
is_in (w ∷ ws) s = same w s || is_in ws s

-- A lookup that throws `out_of_range`, caught.
abbrev pub caught {ℓ} : {A : Type ℓ} → A → Result A → Result A
caught instead (err out_of_range) = ok instead
caught instead r = r

module _ {J : Type 0} (view : J → Json J) where
  abbrev pub Scope : Type 0
  Scope = List (Bytes × J)

  -- "first.second"
  abbrev pub name_parts : Bytes → Bytes × Bytes
  name_parts var_name = elim (cut_at b'.' var_name) [ none ↦ (var_name, []) | some p ↦ p ]

  abbrev pub subscript : Bytes → J → Result J
  subscript second var =
      if length second == 0 then ok var else elim (find_member second (view var)) [
        | none ↦ err out_of_range
        | some member ↦ ok member
      ]

  unfoldable pub resolve_variable : Bytes → J → Scope → Result J
  unfolding find_key cut_at
  resolve_variable var_name dic locals =
      let (first, second) = name_parts var_name in
      if length first == 0 then err runtime_error else elim (find_key first locals) [
        | some var ↦ subscript second var
        | none ↦ elim (find_member first (view dic)) [
          | none ↦ err out_of_range
          | some var ↦ subscript second var
        ]
      ]

  -- The text of a variable; a variable that does not exist has none.
  unfoldable pub variable_text : TemplateStore → Bytes → J → Scope → Result Bytes
  unfolding get_string resolve_variable json2string same
  variable_text store var_name dic locals =
      if starts_with (b':' ∷ b':' ∷ []) var_name
      then (let var = drop 2 var_name in
          if length var == 0 then ok [] else elim (get_string store var []) [
            | none ↦ ok (b'?' ∷ b'?' ∷ b'?' ∷ [])
            | some val ↦ ok val
          ])
      else caught [] (resolve_variable var_name dic locals >>= λ val. json2string (view val))

  abbrev pub truth_of_text : Bytes → Result Bool
  truth_of_text s =
      if is_in true_words s
      then ok true
      else if is_in false_words s
      then ok false
      else err runtime_error

  abbrev pub truth_of : Json J → Result Bool
  truth_of (boolean b) = ok b
  truth_of val = if is_empty val then ok false else (json2string val >>= λ s. truth_of_text s)

  unfoldable pub condition_holds : SyntaxTreeItem → J → Scope → Result Bool
  unfolding resolve_variable json2string is_in
  condition_holds sti dic locals =
      caught null (resolve_variable sti.var_name dic locals >>= λ val. ok (view val)) >>= λ val.
      truth_of val >>= λ cond. ok (if sti.invert_condition then not cond else cond)

  -- The list of a loop, empty for what is no list.
  abbrev pub elements_of : Json J → List J
  elements_of (array xs) = xs
  elements_of _ = []

  unfoldable pub loop_list : SyntaxTreeItem → J → Scope → Result (List J)
  unfolding resolve_variable
  loop_list sti dic locals =
      caught [] (resolve_variable sti.list_name dic locals >>= λ list. ok (elements_of (view list)))
