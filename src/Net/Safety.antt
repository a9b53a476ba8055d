-- ===== src/Net/Safety.antt =====
-- What InMessage does with bytes that no OutMessage wrote: a received message is not trusted.
mod Rules
use lib_sloppy.Base.{
  ℕ, zero, suc, ◌+◌, ◌-◌, ◌%◌, ◌==◌, ◌≤◌, ◌<◌, ◌≡◌, ◌≢◌, refl, sym, ap, ◌∙◌, ◌⊎◌, inl, inr, Bool,
  true, false, List, [], ◌∷◌, ◌++◌, map, Bytes, arith, length, length-drop, drop, take, drop-drop,
  leb, ltb, Result, ok, err, out_of_range, undefined_behaviour, Bool-cases,
}
use lib_sloppy.Memory.{size_mod, chop_left, slice_by_count, deref, window}
use lib_sloppy.Memory.Slices.{chop_left-drop, chop_left_refused}
use lib_sloppy.Net.Words.{Host, little}
use lib_sloppy.Net.In.{
  InMessage, M, and_then, ◌>>=◌, ◌>>◌, return, lift, front, chop, lift_view, assert_sufficient_data,
  peek, get_byte, get_bool, get_ui16, peek_ui32, get_ui32, get_int, get_ui64, get_string,
  get_byte_string, get_mem_view, get_messages, get_message_list, from_data_copy, of_view,
}
use lib_sloppy.Net.RoundTrip.Items.{Item, Kind, read, read_all}
use Rules.{
  IsAdvanced, Safe, Safe-bind, Safe-return, Safe-weaken, Safe-assert, Safe-peek, Safe-chop,
  Safe-front, Safe-slice, from_data_copy-Safe,
}

get_byte-Safe : Safe 0 get_byte
unfolding get_byte
get_byte-Safe =
    Safe-assert 1 _ (Safe-peek 1 0 _ (omega arith) (λ b. Safe-chop 1 1 _ (Safe-return b)))

get_ui16-Safe : (h : Host) → Safe 0 (get_ui16 h)
unfolding get_ui16
get_ui16-Safe h = Safe-assert 2 _ (
    Safe-peek 2 0 _ (omega arith)
      (λ a. Safe-peek 2 1 _ (omega arith) (λ b. Safe-chop 2 2 _ (Safe-return _))))

peek_ui32-Safe : (h : Host) → Safe 0 (peek_ui32 h)
unfolding peek_ui32
peek_ui32-Safe h = Safe-assert 4 _ (
    Safe-peek 4 0 _ (omega arith) (λ a. Safe-peek 4 1 _ (omega arith) (λ b.
      Safe-peek 4 2 _ (omega arith)
        (λ c. Safe-peek 4 3 _ (omega arith) (λ d. Safe-weaken 4 _ (Safe-return _))))))

get_ui32-Safe : (h : Host) → Safe 0 (get_ui32 h)
unfolding get_ui32
get_ui32-Safe h =
    Safe-bind _ 0 (peek_ui32 h) (peek_ui32-Safe h) (λ u. Safe-chop 0 4 _ (Safe-return u))

get_ui64-Safe : (h : Host) → Safe 0 (get_ui64 h)
unfolding get_ui64
get_ui64-Safe h = Safe-assert 8 _ (
    Safe-weaken 8 _ (
      Safe-bind _ 0 _ (get_ui32-Safe h)
        (λ high. Safe-bind _ 0 _ (get_ui32-Safe h) (λ low. Safe-return _))))

-- The getters of blocks, which read a length and then `tail`.
module _ (h : Host) (tail : ℕ → M Bytes) (safe : (len : ℕ) → Safe len (tail len)) where
  block-Safe :
      Safe 0
        (assert_sufficient_data 8 >> (get_ui64 h >>= λ len. assert_sufficient_data len >> tail len))
  block-Safe =
      Safe-assert 8 _
        (Safe-weaken 8 _ (Safe-bind _ 0 _ (get_ui64-Safe h) (λ len. Safe-assert len _ (safe len))))

front-chop-Safe : (len : ℕ) → Safe len (front len >>= λ s. chop len >> return s)
front-chop-Safe len = Safe-front len _ (λ s. Safe-chop len len _ (Safe-return s))

get_byte_string-Safe : (h : Host) → Safe 0 (get_byte_string h)
unfolding get_byte_string
get_byte_string-Safe h = block-Safe h _ front-chop-Safe

get_messages-Safe : (h : Host) (n : ℕ) (result : List InMessage) → Safe 0 (get_messages h n result)
unfolding get_messages
get_messages-Safe h zero result = Safe-return result
get_messages-Safe h (suc n) result =
    Safe-bind _ 0 _ (get_byte_string-Safe h)
      (λ bs. Safe-bind _ 0 _ (from_data_copy-Safe bs) (λ sub. get_messages-Safe h n _))

read-Safe : (h : Host) (k : Kind) → Safe 0 (read h k)
unfolding get_bool get_int get_string get_mem_view get_message_list
read-Safe h Kind.byte = Safe-bind _ 0 _ get_byte-Safe (λ b. Safe-return _)
read-Safe h Kind.ui16 = Safe-bind _ 0 _ (get_ui16-Safe h) (λ b. Safe-return _)
read-Safe h Kind.ui32 = Safe-bind _ 0 _ (get_ui32-Safe h) (λ b. Safe-return _)
read-Safe h Kind.ui64 = Safe-bind _ 0 _ (get_ui64-Safe h) (λ b. Safe-return _)
read-Safe h Kind.flag =
    Safe-bind _ 0 _ (Safe-bind _ 0 _ get_byte-Safe (λ b. Safe-return _)) (λ b. Safe-return _)
read-Safe h Kind.int =
    Safe-bind _ 0 _ (Safe-bind _ 0 _ (get_ui32-Safe h) (λ b. Safe-return _)) (λ b. Safe-return _)
read-Safe h Kind.string = Safe-bind _ 0 _ (block-Safe h _ front-chop-Safe) (λ b. Safe-return _)
read-Safe h Kind.byte_string = Safe-bind _ 0 _ (get_byte_string-Safe h) (λ b. Safe-return _)
read-Safe h Kind.mem_view =
    Safe-bind _ 0 _
      (block-Safe h _ (λ len. Safe-slice len _ (λ v. Safe-chop len len _ (Safe-return v))))
      (λ b. Safe-return _)
read-Safe h Kind.messages =
    Safe-bind _ 0 _ (Safe-bind _ 0 _ (get_ui64-Safe h) (λ n. get_messages-Safe h n []))
      (λ b. Safe-return _)

read_all-Safe : (h : Host) (ks : List Kind) → Safe 0 (read_all h ks)
read_all-Safe h [] = Safe-return []
read_all-Safe h (k ∷ ks) =
    Safe-bind _ 0 _ (read-Safe h k)
      (λ x. Safe-bind _ 0 _ (read_all-Safe h ks) (λ xs. Safe-return _))

-- Whatever bytes a message holds, and whichever getters are called on it in whichever order: each
-- call returns or throws a C++ exception, none reads a byte outside the message, and together they
-- only move the read position forward within the same view.
pub read_all_safe :
    (h : Host) (ks : List Kind) (received : Bytes)
    → ((read_all h ks (of_view received)).0 ≢ err undefined_behaviour)
      × IsAdvanced (of_view received) (read_all h ks (of_view received)).1
read_all_safe h ks received = (
  (read_all-Safe h ks).defined (of_view received) (omega arith),
  (read_all-Safe h ks).forward (of_view received) (omega arith),
)
