-- ===== src/Config/Agreement.antt =====
-- The checks of the parser, its getters, and the checks of the constraint checker agree.
use lib_sloppy.Base.{
  ℕ, ◌≡◌, refl, sym, inl, inr, Bool, true, false, not, [], ◌∷◌, Option, none, some, Bytes, length,
  ◌==◌, if◌then◌else◌, Bool-cases, Result, ok, err, ◌>>=◌, All, ltb, arith, same,
}
use mathlib.Core.Path.{subst}
use lib_sloppy.Text.Search.{replace_all}
use lib_sloppy.Base.Int.{ℤ}
use lib_sloppy.Text.Trim.{trim, trim_solid, IsNoSpace, is_space}
use lib_sloppy.Text.Numbers.{is_int, is_digit, IsDigit, stoi, is_int-stoi}
use lib_sloppy.Text.Case.{to_lower}
use lib_sloppy.Config.{
  lt_z, inconsistent, at_least, at_most, long_enough, short_enough, if_exists,
  check_constraint_int_range, check_constraint_str_len,
}
use lib_sloppy.Config.Parser.{Content, int_in, get_value, get_value_as_int}
use lib_sloppy.Config.Constraints.{
  Environment, bool, integer, not_empty, check_key_str_len, check_key, check_optional,
  check_constraint, get_value_as_bool, bool_in, is_permitted, on_words, off_words, value_of,
  check_key_int_range,
}

abbrev pub has {ℓ} : {A : Type ℓ} → Option A → Bool
has none = false
has (some _) = true

digit_solid : (c : ℕ) → IsDigit c → IsNoSpace c
unfolding is_digit is_space
digit_solid c h = ground (arith, h)

digits_solid : (ds : Bytes) → All IsDigit ds → All IsNoSpace ds
digits_solid [] h = tt
digits_solid (c ∷ ds) h = (digit_solid c h.0, digits_solid ds h.1)

signed_solid :
    (negative : Bool) (ds : Bytes)
    → All IsDigit ds
    → All IsNoSpace (if negative then b'-' ∷ ds else ds)
unfolding is_space
signed_solid true ds h = (refl, digits_solid ds h)
signed_solid false ds h = digits_solid ds h

-- An integer has nothing to trim.
trim_int : (val : Bytes) → is_int val ≡ true → trim val ≡ val
trim_int val h =
    let (negative, ds, e, digits, some_ds, s) = is_int-stoi val h in
    trim_solid val (subst (All IsNoSpace) (sym e) (signed_solid negative ds digits))

no_empty_word :
    (is_permitted (to_lower []) on_words ≡ false) × (is_permitted (to_lower []) off_words ≡ false)
unfolding to_lower is_permitted same replace_all
no_empty_word = (refl, refl)

no_empty_int : is_int [] ≡ false
unfolding is_int
no_empty_int = refl

some_length : (c : ℕ) (s : Bytes) → (length (c ∷ s) == 0) ≡ false
some_length c s = ground arith

bind_value :
    (m : Result ℤ) (next : ℤ → Result Bool)
    → ((m >>= λ v. ok (some v)) >>= λ found. value_of found >>= next) ≡ (m >>= next)
bind_value (ok v) next = refl
bind_value (err e) next = refl

module _ (env : Environment) where
  bool_found : (found : Option Bytes) → check_optional env bool found ≡ ok (has (bool_in found))
  unfolding check_optional check_constraint
  bool_found none = refl
  bool_found (some []) = rw (no_empty_word.0, no_empty_word.1) refl
  bool_found (some (c ∷ s)) = elim (Bool-cases (is_permitted (to_lower (c ∷ s)) on_words)) [
    | inl h ↦ rw (h, some_length c s) refl
    | inr h ↦ elim (Bool-cases (is_permitted (to_lower (c ∷ s)) off_words)) [
      | inl k ↦ rw (h, k, some_length c s) refl
      | inr k ↦ rw (h, k, some_length c s) refl
    ]
  ]

  -- For a key that can be asked for, the constraint Bool holds exactly if getValueAsBool finds a truth
  -- value.
  pub bool_constraint_lem :
      (content : Content) (sec_name key_name : Bytes)
      → (length sec_name == 0) ≡ false
      → (length key_name == 0) ≡ false
      → check_key env content sec_name key_name bool
        ≡ ok (has (get_value_as_bool content sec_name key_name))
  unfolding check_key get_value_as_bool
  bool_constraint_lem content sec_name key_name s k =
      rw (s, k) (bool_found (get_value content sec_name key_name))

  int_found :
      (min_val max_val : Option ℤ) (found : Option Bytes)
      → inconsistent lt_z min_val max_val ≡ false
      → (check_optional env integer found >>= λ is_okay.
          (if not is_okay
            then ok false
            else (int_in found >>= λ n. value_of n >>= λ v.
                (if not (at_least min_val v)
                  then ok false
                  else if not (at_most max_val v)
                  then ok false
                  else ok true))))
        ≡ if_exists (λ val. check_constraint_int_range val min_val max_val) found
  unfolding check_optional check_constraint check_constraint_int_range
  int_found min_val max_val none c = refl
  int_found min_val max_val (some []) c = rw (c, no_empty_int) refl
  int_found min_val max_val (some (x ∷ s)) c = elim (Bool-cases (is_int (x ∷ s))) [
    | inl h ↦ rw (c, some_length x s, trim_int (x ∷ s) h, h) (bind_value (stoi (x ∷ s)) _)
    | inr h ↦ rw (c, some_length x s, h) refl
  ]

  -- With bounds in order, the check of an integer range of a key that can be asked for is that of the
  -- constraint checker, on the value found.
  pub int_range_agrees :
      (content : Content) (sec_name key_name : Bytes) (min_val max_val : Option ℤ)
      → inconsistent lt_z min_val max_val ≡ false
      → (length sec_name == 0) ≡ false
      → (length key_name == 0) ≡ false
      → check_key_int_range env content sec_name key_name min_val max_val
        ≡ if_exists
            (λ val. check_constraint_int_range val min_val max_val)
            (get_value content sec_name key_name)
  unfolding check_key_int_range check_key get_value_as_int
  int_range_agrees content sec_name key_name min_val max_val c s k =
      rw (c, s, k) (int_found min_val max_val (get_value content sec_name key_name) c)

  str_found :
      (min_len max_len : Option ℕ) (found : Option Bytes)
      → inconsistent ltb min_len max_len ≡ false
      → (check_optional env not_empty found >>= λ is_okay.
          (if not is_okay
            then ok false
            else (value_of found >>= λ v.
                (if not (long_enough min_len v)
                  then ok false
                  else if not (short_enough max_len v)
                  then ok false
                  else ok true))))
        ≡ if_exists (λ val. check_constraint_str_len val min_len max_len) found
  unfolding check_optional check_constraint check_constraint_str_len
  str_found min_len max_len none c = refl
  str_found min_len max_len (some []) c = rw c refl
  str_found min_len max_len (some (x ∷ s)) c = rw (c, some_length x s) refl

  -- The same for the limits of a length.
  pub str_len_agrees :
      (content : Content) (sec_name key_name : Bytes) (min_len max_len : Option ℕ)
      → inconsistent ltb min_len max_len ≡ false
      → (length sec_name == 0) ≡ false
      → (length key_name == 0) ≡ false
      → check_key_str_len env content sec_name key_name min_len max_len
        ≡ if_exists
            (λ val. check_constraint_str_len val min_len max_len)
            (get_value content sec_name key_name)
  unfolding check_key_str_len check_key
  str_len_agrees content sec_name key_name min_len max_len c s k =
      rw (c, s, k) (str_found min_len max_len (get_value content sec_name key_name) c)
