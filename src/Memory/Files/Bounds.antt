-- ===== src/Memory/Files/Bounds.antt =====
-- What the reads of a mapped file give, and where they leave the file.
use lib_sloppy.Base.{
  ℕ, zero, suc, ◌+◌, ◌-◌, ◌%◌, ◌≤◌, ◌<◌, ◌≡◌, refl, ap, ◌∙◌, ◌⊎◌, inl, inr, true, false, [], Option,
  none, some, Bytes, length, take, drop, take_all, length-drop, get_elem?, leb, ◌==◌, ==_iff,
  get_elem-lt, if◌then◌else◌, Bool-cases, ok, err, out_of_range, undefined_behaviour, arith,
}
use lib_sloppy.Base.Int.{pos}
use lib_sloppy.Memory.{size_mod, deref}
use lib_sloppy.Memory.Files.{assert_index, get, count_string, get_string, get_string_of_length}

-- The index check on a part of the file, and on one that ends behind it.
assert_accepts :
    (f : Bytes) (idx n : ℕ)
    → 0 < n
    → idx + n ≤ length f
    → length f < size_mod
    → assert_index f idx n ≡ ok tt
unfolding assert_index
assert_accepts f idx n p h s =
    let m : (idx + n + (size_mod - 1)) % size_mod ≡ idx + n - 1 = omega arith in rw m (ground arith)

assert_refuses :
    (f : Bytes) (idx n : ℕ)
    → 0 < n
    → length f < idx + n
    → idx + n ≤ size_mod
    → assert_index f idx n ≡ err out_of_range
unfolding assert_index
assert_refuses f idx n p h s =
    let m : (idx + n + (size_mod - 1)) % size_mod ≡ idx + n - 1 = omega arith in rw m (ground arith)

-- A string of a positive length, the end of which does not wrap round, is the part of the file there,
-- or is refused with out_of_range if that part leaves the file.
pub get_string_of_length_lem :
    (f : Bytes) (idx : ℕ) (len : ℕ)
    → length f < size_mod
    → 0 < len
    → idx + len ≤ size_mod
    → (idx + len ≤ length f) × (get_string_of_length f idx (pos len) ≡ ok (take len (drop idx f)))
      ⊎ (length f < idx + len) × (get_string_of_length f idx (pos len) ≡ err out_of_range)
unfolding get_string_of_length
get_string_of_length_lem f idx len s p w =
    let z : (len == 0) ≡ false = ground arith in
    elim (Bool-cases (leb (idx + len) (length f))) [
      | inl e ↦ inl (ground arith, rw (z, assert_accepts f idx len p (ground arith) s, e))
      | inr e ↦ inr (ground arith, rw (z, assert_refuses f idx len p (ground arith) w))
    ]

-- Where the end of a value wraps round to an index of the file, `get` reads outside the file.
pub get_wraps :
    (f : Bytes) (idx n k : ℕ)
    → length f < size_mod
    → idx + n ≡ size_mod + (k + 1)
    → k < length f
    → get f idx n ≡ err undefined_behaviour
unfolding get assert_index
get_wraps f idx n k s e h =
    let m : (idx + n + (size_mod - 1)) % size_mod ≡ k = omega (arith, e, h, s) in
    rw m (ground arith)

count_string_stays : (left len : ℕ) → count_string left 0 len ≡ len
unfolding count_string
count_string_stays zero len = refl
count_string_stays (suc left) len = refl

count_string_all :
    (left byte len : ℕ) → (byte == 0) ≡ false → count_string left byte len ≡ len + left
unfolding count_string
count_string_all zero byte len h = omega arith
count_string_all (suc left) byte len h = ground (arith, count_string_all left byte (len + 1) h)

-- getString does not end at a zero byte: of an index in the file it gives all bytes to the end of
-- the file, whatever these are, unless the first one is zero.
pub get_string_lem :
    (f : Bytes) (idx byte : ℕ)
    → length f < size_mod
    → get_elem? f idx ≡ some byte
    → get_string f idx ≡ ok (if byte == 0 then [] else drop idx f)
unfolding get_string
get_string_lem f idx byte s e =
    let lt = get_elem-lt f idx byte e in
    let ready = assert_accepts f idx 1 (omega arith) (omega (arith, lt)) s in
    let read : deref f idx ≡ ok byte =
      ap (λ (o : Option ℕ). elim o [ none ↦ err undefined_behaviour | some a ↦ ok a ]) e in
    elim (Bool-cases (byte == 0)) [
      | inl z ↦
          let none_counted : count_string (length f - idx) byte 0 ≡ 0 =
            ap (λ (b : ℕ). count_string (length f - idx) b 0) ((==_iff byte 0).0 z)
            ∙ count_string_stays (length f - idx) 0 in
          rw (get_string, ready, read, none_counted, z)
      | inr z ↦
          let n = length f - idx in
          let counted : count_string n byte 0 ≡ n = count_string_all n byte 0 z ∙ omega arith in
          let some_counted : (n == 0) ≡ false = ground (arith, lt) in
          let fits : leb (idx + n) (length f) ≡ true = ground (arith, lt) in
          let whole : take n (drop idx f) ≡ drop idx f =
            take_all n (drop idx f) (omega (arith, length-drop idx f)) in
          rw (get_string, ready, read, counted, some_counted, z, fits, whole)
    ]
