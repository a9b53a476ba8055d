-- ===== src/Config/Lines.antt =====
-- What is found after a value has been inserted or a line has been read.
use lib_sloppy.Base.{
  ◌≡◌, ◌≢◌, ◌∙◌, ap, refl, sym, inl, inr, Bool, true, false, ◌&&◌, List, [], ◌∷◌, Option, none,
  some, Bytes, length, ◌==◌, same, same_iff, if◌then◌else◌, Bool-cases, Option-cases, ok, arith,
}
use lib_sloppy.Config.Parser.{
  KeyValueMap, Content, find_key, set_key, get_value, get_or_create_section,
  insert_or_overwrite_value,
}

module _ {A : Type 0} where
  find_key-set_key :
      (key : Bytes) (val : A) (m : List (Bytes × A)) (other : Bytes)
      → find_key other (set_key key val m) ≡ (if same key other then some val else find_key other m)
  unfolding find_key set_key
  find_key-set_key key val [] other = refl
  find_key-set_key key val (e ∷ m) other = elim (Bool-cases (same e.0 key)) [
    | inl f ↦
        let t : same e.0 other ≡ same key other =
          ap (λ (n : Bytes). same n other) ((same_iff e.0 key).0 f) in
        ground (arith, t, f)
    | inr f ↦
        let rest = find_key-set_key key val m other in
        elim (Bool-cases (same key other)) [
          | inl g ↦
              let u : same e.0 key ≡ same e.0 other = ap (same e.0) ((same_iff key other).0 g) in
              ground (arith, rest, u, f)
          | inr g ↦ ground (arith, rest, f, g)
        ]
  ]

get_value-section :
    (content : Content) (s k : Bytes) (sec : Option KeyValueMap)
    → find_key s content ≡ sec
    → get_value content s k ≡ elim sec [ none ↦ none | some m ↦ find_key k m ]
unfolding get_value
get_value-section content s k sec e =
    ap (λ (o : Option KeyValueMap). elim o [ none ↦ none | some m ↦ find_key k m ]) e

-- What is found where a section has been set.
get_value-set_key :
    (content : Content) (sec_name : Bytes) (m : KeyValueMap) (s k : Bytes)
    → get_value (set_key sec_name m content) s k
      ≡ (if same sec_name s then find_key k m else get_value content s k)
unfolding get_value
get_value-set_key content sec_name m s k =
    let found = find_key-set_key sec_name m content s in
    elim (Bool-cases (same sec_name s)) [
      | inl e ↦
          let here : find_key s (set_key sec_name m content) ≡ some m =
            found ∙ ap (λ (b : Bool). if b then some m else find_key s content) e in
          get_value-section (set_key sec_name m content) s k (some m) here
          ∙ sym (ap (λ (b : Bool). if b then find_key k m else get_value content s k) e)
      | inr e ↦
          let here : find_key s (set_key sec_name m content) ≡ find_key s content =
            found ∙ ap (λ (b : Bool). if b then some m else find_key s content) e in
          get_value-section (set_key sec_name m content) s k (find_key s content) here
          ∙ sym (ap (λ (b : Bool). if b then find_key k m else get_value content s k) e)
    ]

find_key-nil : (k : Bytes) → find_key {A = Bytes} k [] ≡ none
unfolding find_key
find_key-nil k = refl

length-nonempty : (s : Bytes) → s ≢ [] → (length s == 0) ≡ false
length-nonempty [] ne = absurd (ne refl)
length-nonempty (c ∷ s) ne = ground arith

-- Making an empty section shows no new value.
made_same :
    (content : Content) (sec_name s k : Bytes)
    → ((s k : Bytes) → same sec_name s ≡ true → get_value content s k ≡ none)
    → get_value (set_key sec_name [] content) s k ≡ get_value content s k
made_same content sec_name s k here =
    let outer = get_value-set_key content sec_name [] s k in
    elim (Bool-cases (same sec_name s)) [
      | inl e ↦ ground (arith, outer, e, here s k e, find_key-nil k)
      | inr e ↦ ground (arith, outer, e)
    ]

-- Setting a key in a section that has been found or made.
get_value-inserted :
    (content made : Content) (sec_name key_name val : Bytes) (m : KeyValueMap)
    → ((s k : Bytes) → get_value made s k ≡ get_value content s k)
    → ((s k : Bytes) → same sec_name s ≡ true → get_value content s k ≡ find_key k m)
    → (s k : Bytes)
    → get_value (set_key sec_name (set_key key_name val m) made) s k
      ≡ (if same sec_name s && same key_name k then some val else get_value content s k)
get_value-inserted content made sec_name key_name val m as_before here s k =
    let outer = get_value-set_key made sec_name (set_key key_name val m) s k in
    let inner = find_key-set_key key_name val m k in
    let old = as_before s k in
    elim (Bool-cases (same sec_name s)) [
      | inl e ↦
          let sec = here s k e in
          elim (Bool-cases (same key_name k)) [
            | inl f ↦ ground (arith, outer, inner, e, f)
            | inr f ↦ ground (arith, outer, inner, sec, e, f)
          ]
      | inr e ↦ ground (arith, outer, old, e)
    ]

-- A value inserted under a section, whose name is not empty, and a key is found there and changes
-- nothing that is found elsewhere, whether the section and the key were there before or not.
pub insert_lem :
    (content : Content) (sec_name key_name val : Bytes)
    → sec_name ≢ []
    → (after : Content) × (insert_or_overwrite_value content sec_name key_name val ≡ ok after)
      × ((s k : Bytes)
          → get_value after s k
            ≡ (if same sec_name s && same key_name k then some val else get_value content s k))
unfolding insert_or_overwrite_value get_or_create_section
insert_lem content sec_name key_name val ne =
    let z : (length sec_name == 0) ≡ false = length-nonempty sec_name ne in
    elim (Option-cases (find_key sec_name content)) [
      | inl e ↦
          let here : (s k : Bytes) → same sec_name s ≡ true → get_value content s k ≡ none =
            λ s k q.
              get_value-section content s k none
                (ap (λ (n : Bytes). find_key n content) (sym ((same_iff sec_name s).0 q)) ∙ e) in
          (
            set_key sec_name (set_key key_name val []) (set_key sec_name [] content),
            rw (z, e),
            get_value-inserted content (set_key sec_name [] content) sec_name key_name val []
                (λ s k. made_same content sec_name s k here)
                (λ s k q. here s k q ∙ sym (find_key-nil k)),
          )
      | inr (m, e) ↦ (
        set_key sec_name (set_key key_name val m) content,
        rw (z, e),
        get_value-inserted content content sec_name key_name val m (λ s k. refl)
            (λ s k q.
              get_value-section content s k (some m)
                (ap (λ (n : Bytes). find_key n content) (sym ((same_iff sec_name s).0 q)) ∙ e)),
      )
    ]
