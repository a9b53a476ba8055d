-- ===== src/Net/RoundTrip/Reads.antt =====
-- Each getter of InMessage takes what the wire holds for its value, and leaves the rest.
use mathlib.Core.Path.{subst₂}
use lib_sloppy.Base.{
  ℕ, ◌+◌, ◌/◌, ◌%◌, ◌≤◌, ◌<◌, ◌≡◌, ◌≢◌, refl, sym, ap, Bool, List, [], ◌∷◌, ◌++◌, append_assoc,
  append-nil, map, Bytes, arith, length, length-append, ltb, leb, Result, if◌then◌else◌, true,
  false, take-append, All, ok,
}
use lib_sloppy.Base.Int.{ℤ, pos, negsuc, pos_part, neg_part}
use lib_sloppy.Memory.{size_mod, chop_left, slice_by_count}
use lib_sloppy.Memory.Slices.{chop_left-append, slice_by_count-append}
use lib_sloppy.Net.Words.{Host, wire16, wire32, htons-load16, htonl-load32}
use lib_sloppy.Net.Out.{int_to_ui32}
use lib_sloppy.Net.In.{
  InMessage, M, ◌>>=◌, ◌>>◌, return, lift, front, chop, lift_view, assert_sufficient_data, get_byte,
  get_bool, get_ui16, peek_ui32, get_ui32, get_int, ui32_to_int, get_ui64, get_string,
  get_byte_string, get_mem_view, get_messages, get_message_list, from_data_copy, from_view_copy,
}
use lib_sloppy.Net.RoundTrip.Wire.{wire64, wire_block, wire_blocks}

-- The getter returns `v` on a message whose unread part starts with `bs`, and reads just `bs`.
pub record Takes {A : Type 0} (g : M A) (bs : Bytes) (v : A) : Type 0 where
  pub run :
      (m : InMessage) (rest : Bytes)
      → g (record m { cur_view = bs ++ rest }) ≡ (ok v, record m { cur_view = rest })

-- Reads in a row.
pub Takes-bind :
    {A B : Type 0} {g : M A} (f : A → M B) {bs cs : Bytes} {a : A} {b : B}
    → Takes g bs a
    → Takes (f a) cs b
    → Takes (g >>= f) (bs ++ cs) b
Takes-bind f {bs} {cs} tg tf = record {
  run = λ m rest. rw (append_assoc bs cs rest) (rw (tg.run m (cs ++ rest)) (tf.run m rest));
}

pub Takes-of :
    {A : Type 0} {g : M A} {bs cs : Bytes} {a b : A} → bs ≡ cs → a ≡ b → Takes g bs a → Takes g cs b
Takes-of {g} p q t = subst₂ (Takes g) p q t

pub length-wire64 : (u : ℕ) → length (wire64 u) ≡ 8
unfolding wire32
length-wire64 u = refl

pub Takes-return : {A : Type 0} (a : A) → Takes (return a) [] a
Takes-return a = record { run = λ m rest. refl }

Takes-lift : {A : Type 0} {r : Result A} {a : A} → r ≡ ok a → Takes (lift r) [] a
Takes-lift e = record { run = λ m rest. rw e }

-- A check for bytes that are there.
pub Takes-assert :
    {A : Type 0} {g : M A} {bs : Bytes} {a : A} (n : ℕ)
    → n ≤ length bs
    → Takes g bs a
    → Takes (assert_sufficient_data n >> g) bs a
Takes-assert {bs} n h t = record {
  run = λ m rest.
      let e : ltb (length (bs ++ rest)) n ≡ false = ground (arith, length-append bs rest) in
      rw e (t.run m rest);
}

pub get_byte-Takes : (b : ℕ) → Takes get_byte (b ∷ []) b
unfolding get_byte chop_left
get_byte-Takes b = record { run = λ m rest. ground arith }

pub get_ui16-Takes : (h : Host) (u : ℕ) → u < 65536 → Takes (get_ui16 h) (wire16 u) u
unfolding get_ui16 wire16 chop_left
get_ui16-Takes h u p = record { run = λ m rest. ground (arith, htons-load16 h u p) }

pub get_ui32-Takes : (h : Host) (u : ℕ) → u < 4294967296 → Takes (get_ui32 h) (wire32 u) u
unfolding get_ui32 peek_ui32 wire32 chop_left
get_ui32-Takes h u p = record { run = λ m rest. ground (arith, htonl-load32 h u p) }

pub get_ui64-Takes : (h : Host) (u : ℕ) → u < size_mod → Takes (get_ui64 h) (wire64 u) u
unfolding get_ui64
get_ui64-Takes h u p = Takes-assert 8 (omega (arith, length-wire64 u)) (
    Takes-of (ap (◌++◌ (wire32 (u / 4294967296 % 4294967296))) (append-nil _)) (omega arith) (
      Takes-bind _ (get_ui32-Takes h (u / 4294967296 % 4294967296) (omega arith))
        (Takes-bind _ (get_ui32-Takes h (u % 4294967296) (omega arith)) (Takes-return _))))

-- The two conversions between `int` and `uint32_t` are inverse in the range of `int`.
ui32_to_int-int_to_ui32 :
    (i : ℤ) → pos_part i < 2147483648 → neg_part i ≤ 2147483648 → ui32_to_int (int_to_ui32 i) ≡ i
unfolding ui32_to_int int_to_ui32
ui32_to_int-int_to_ui32 (pos n) p q = ground arith
ui32_to_int-int_to_ui32 (negsuc n) p q = ground arith

length_pos : (s : Bytes) → s ≢ [] → 0 < length s
length_pos [] ne = absurd (ne refl)
length_pos (x ∷ s) ne = omega arith

-- The tail of the getters of blocks: the bytes that the length announces.
module _ (s : Bytes) where
  front-Takes : Takes (front (length s) >>= λ v. chop (length s) >> return v) s s
  front-Takes = record {
    run = λ m rest.
        let e : leb (0 + length s) (length (s ++ rest)) ≡ true =
          ground (arith, length-append s rest) in
        rw (e, take-append s rest, chop_left-append s rest);
  }

  slice-Takes :
      s ≢ []
      → length s < size_mod
      → Takes
          (lift_view (λ v. slice_by_count v 0 (length s)) >>= λ v. chop (length s) >> return v)
          s
          s
  slice-Takes ne p = record {
    run = λ m rest. rw (
      slice_by_count-append s rest (length s) refl p
          (omega (arith, length-append s rest, length_pos s ne)),
      chop_left-append s rest,
    );
  }

module _ (h : Host) (s : Bytes) (p : length s < size_mod) where
  pub get_string-Takes : Takes (get_string h) (wire_block s) s
  unfolding get_string
  get_string-Takes =
      Takes-assert 8 (omega (arith, length-wire64 (length s), length-append (wire64 (length s)) s))
        (Takes-bind _ (get_ui64-Takes h (length s) p)
          (Takes-assert (length s) (omega arith) (front-Takes s)))

  pub get_byte_string-Takes : Takes (get_byte_string h) (wire_block s) s
  unfolding get_byte_string
  get_byte_string-Takes =
      Takes-assert 8 (omega (arith, length-wire64 (length s), length-append (wire64 (length s)) s))
        (Takes-bind _ (get_ui64-Takes h (length s) p)
          (Takes-assert (length s) (omega arith) (front-Takes s)))

  pub get_mem_view-Takes : s ≢ [] → Takes (get_mem_view h) (wire_block s) s
  unfolding get_mem_view
  get_mem_view-Takes ne =
      Takes-assert 8 (omega (arith, length-wire64 (length s), length-append (wire64 (length s)) s))
        (Takes-bind _ (get_ui64-Takes h (length s) p)
          (Takes-assert (length s) (omega arith) (slice-Takes s ne p)))

pub from_data_copy-ok : (bs : Bytes) → bs ≢ [] → from_data_copy bs ≡ ok (from_view_copy bs)
unfolding from_data_copy
from_data_copy-ok [] ne = absurd (ne refl)
from_data_copy-ok (x ∷ bs) ne = ground arith

-- What a list of messages needs to be read back: a length in range, and no empty message.
abbrev pub IsBlock : Bytes → Type 0
IsBlock bs = (length bs < size_mod) × (bs ≢ [])

get_messages-Takes :
    (h : Host) (xs : List Bytes) (result : List InMessage)
    → All IsBlock xs
    → Takes (get_messages h (length xs) result) (wire_blocks xs) (result ++ map from_view_copy xs)
unfolding get_messages
get_messages-Takes h [] result ok_ = Takes-of refl (sym (append-nil result)) (Takes-return result)
get_messages-Takes h (x ∷ xs) result (b, bs) =
    Takes-of refl (append_assoc result (from_view_copy x ∷ []) (map from_view_copy xs)) (
      Takes-bind _ (get_byte_string-Takes h x b.0) (
        Takes-bind _ (Takes-lift (from_data_copy-ok x b.1))
          (get_messages-Takes h xs (result ++ from_view_copy x ∷ []) bs)))

pub get_message_list-Takes :
    (h : Host) (xs : List Bytes)
    → length xs < size_mod
    → All IsBlock xs
    → Takes (get_message_list h) (wire64 (length xs) ++ wire_blocks xs) (map from_view_copy xs)
unfolding get_message_list
get_message_list-Takes h xs p v =
    Takes-bind _ (get_ui64-Takes h (length xs) p) (get_messages-Takes h xs [] v)

pub get_bool-Takes : (b : Bool) → Takes get_bool ((if b then 1 else 0) ∷ []) b
unfolding get_bool
get_bool-Takes true = Takes-bind _ (get_byte-Takes 1) (Takes-return true)
get_bool-Takes false = Takes-bind _ (get_byte-Takes 0) (Takes-return false)

int_to_ui32-lt : (i : ℤ) → int_to_ui32 i < 4294967296
unfolding int_to_ui32
int_to_ui32-lt (pos n) = omega arith
int_to_ui32-lt (negsuc n) = omega arith

pub get_int-Takes :
    (h : Host) (i : ℤ)
    → pos_part i < 2147483648
    → neg_part i ≤ 2147483648
    → Takes (get_int h) (wire32 (int_to_ui32 i)) i
unfolding get_int
get_int-Takes h i p q =
    Takes-of (append-nil _) (ui32_to_int-int_to_ui32 i p q)
      (Takes-bind _ (get_ui32-Takes h (int_to_ui32 i) (int_to_ui32-lt i)) (Takes-return _))
