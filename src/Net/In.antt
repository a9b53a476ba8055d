-- ===== src/Net/In.antt =====
-- InMessage and TypedInMessage. A view on received data is its list of bytes. A member function
-- returns its result or exception together with the message as it is left, since an exception does
-- not undo the reads before it.
use lib_sloppy.Base.{
  ℕ, zero, suc, ◌+◌, ◌-◌, ◌*◌, ◌%◌, Bool, not, List, [], ◌∷◌, ◌++◌, Bytes, length, ltb, ◌==◌,
  if◌then◌else◌, Result, ok, err, out_of_range, invalid_argument,
}
use lib_sloppy.Base.Int.{ℤ, pos, negsuc}
use lib_sloppy.Memory.{size_mod, deref, window, slice_by_count, chop_left}
use lib_sloppy.Net.Words.{Host, load16, load32, htons, htonl}

pub record InMessage : Type 0 where
  pub full_view : Bytes
  pub cur_view : Bytes
  pub owned : Bytes

abbrev pub M : Type 0 → Type 0
M A = InMessage → Result A × InMessage

abbrev pub and_then : {A B : Type 0} → Result A × InMessage → (A → M B) → Result B × InMessage
and_then (ok a, m) f = f a m
and_then (err e, m) f = (err e, m)

infixl 5 ◌>>=◌ ◌>>◌
abbrev pub ◌>>=◌ : {A B : Type 0} → M A → (A → M B) → M B
◌>>=◌ x f m = and_then (x m) f

abbrev pub ◌>>◌ : {B : Type 0} → M (Unit {0}) → M B → M B
x >> y = x >>= λ _. y

abbrev pub return : {A : Type 0} → A → M A
return a m = (ok a, m)

abbrev pub lift : {A : Type 0} → Result A → M A
lift r m = (r, m)

-- The constructor from a view.
abbrev pub of_view : Bytes → InMessage
of_view v = record { full_view = v; cur_view = v; owned = [] }

-- The constructor from a string or byte string: a view on no bytes at an address is refused.
unfoldable pub of_bytes : Bytes → Result InMessage
of_bytes bs = if length bs == 0 then err invalid_argument else ok (of_view bs)

-- fromDataCopy of a view, and of a byte string.
unfoldable pub from_view_copy : Bytes → InMessage
from_view_copy v = record { full_view = v; cur_view = v; owned = v }

unfoldable pub from_data_copy : Bytes → Result InMessage
unfolding from_view_copy
from_data_copy bs = if length bs == 0 then err invalid_argument else ok (from_view_copy bs)

-- Copy assignment from another object: the copy of owned data is viewed anew, and the read
-- position is found again as the difference of the sizes.
unfoldable pub copy_assign : InMessage → Result InMessage
copy_assign other =
    if length other.owned == 0
    then ok (record other { owned = [] })
    else elim (chop_left other.owned (length other.full_view - length other.cur_view)) [
      | ok cur ↦ ok (record { full_view = other.owned; cur_view = cur; owned = other.owned })
      | err e ↦ err e
    ]

abbrev pub assert_sufficient_data : ℕ → M (Unit {0})
assert_sufficient_data n m = (if ltb (length m.cur_view) n then err out_of_range else ok tt, m)

-- `curView.chopLeft(n)`.
abbrev pub set_cur : InMessage → Result Bytes → Result (Unit {0}) × InMessage
set_cur m (ok v) = (ok tt, record m { cur_view = v })
set_cur m (err e) = (err e, m)

abbrev pub chop : ℕ → M (Unit {0})
chop n m = set_cur m (chop_left m.cur_view n)

-- A byte of the current view by its index.
abbrev pub peek : ℕ → M ℕ
peek i m = (deref m.cur_view i, m)

unfoldable pub get_byte : M ℕ
get_byte = do assert_sufficient_data 1; b ← peek 0; chop 1; return b

unfoldable pub get_bool : M Bool
get_bool = do b ← get_byte; return (not (b == 0))

unfoldable pub get_ui16 : Host → M ℕ
get_ui16 h = do
  assert_sufficient_data 2
  a ← peek 0
  b ← peek 1
  chop 2
  return (htons h (load16 h a b))

unfoldable pub peek_ui32 : Host → M ℕ
peek_ui32 h = do
  assert_sufficient_data 4
  a ← peek 0
  b ← peek 1
  c ← peek 2
  d ← peek 3
  return (htonl h (load32 h a b c d))

unfoldable pub get_ui32 : Host → M ℕ
get_ui32 h = do u ← peek_ui32 h; chop 4; return u

-- `static_cast<int>` of a 32-bit word.
unfoldable pub ui32_to_int : ℕ → ℤ
ui32_to_int u = if ltb u 2147483648 then pos u else negsuc (4294967295 - u)

unfoldable pub get_int : Host → M ℤ
get_int h = do u ← get_ui32 h; return (ui32_to_int u)

unfoldable pub get_ui64 : Host → M ℕ
get_ui64 h = do
  assert_sufficient_data 8
  high ← get_ui32 h
  low ← get_ui32 h
  return ((high * 4294967296 + low) % size_mod)

unfoldable pub peek_ui64 : Host → M ℕ
peek_ui64 h m = ((get_ui64 h (of_view m.cur_view)).0, m)

-- The first bytes of the current view, copied.
abbrev pub front : ℕ → M Bytes
front n m = (window m.cur_view 0 n, m)

-- A call of a member function of the current view.
abbrev pub lift_view : (Bytes → Result Bytes) → M Bytes
lift_view f m = (f m.cur_view, m)

unfoldable pub get_string : Host → M Bytes
get_string h = do
  assert_sufficient_data 8
  len ← get_ui64 h
  assert_sufficient_data len
  s ← front len
  chop len
  return s

unfoldable pub get_byte_string : Host → M Bytes
get_byte_string h = do
  assert_sufficient_data 8
  len ← get_ui64 h
  assert_sufficient_data len
  s ← front len
  chop len
  return s

-- getMemArray and getMemView, which slice the view where the strings copy it.
unfoldable pub get_mem_view : Host → M Bytes
get_mem_view h = do
  assert_sufficient_data 8
  len ← get_ui64 h
  assert_sufficient_data len
  v ← lift_view (λ v. slice_by_count v 0 len)
  chop len
  return v

-- The loop of getMessageList.
unfoldable pub get_messages : Host → ℕ → List InMessage → M (List InMessage)
get_messages h zero result = return result
get_messages h (suc n) result = do
  bs ← get_byte_string h
  sub ← lift (from_data_copy bs)
  get_messages h n (result ++ sub ∷ [])

unfoldable pub get_message_list : Host → M (List InMessage)
get_message_list h = do cnt ← get_ui64 h; get_messages h cnt []

pub record TypedInMessage : Type 0 where
  pub message : InMessage
  pub msg_type : ℕ

-- The constructor reads the type off the front of the view.
unfoldable pub typed_in : Host → Bytes → Result TypedInMessage
typed_in h v =
    let (r, m) = get_ui32 h (of_view v) in
    elim r [ ok t ↦ ok (record { message = m; msg_type = t }) | err e ↦ err e ]
