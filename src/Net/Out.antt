-- ===== src/Net/Out.antt =====
-- OutMessage and TypedOutMessage. What the reserved capacity is cannot be observed and is left out.
use lib_sloppy.Base.{
  ℕ, ◌+◌, ◌-◌, ◌/◌, ◌%◌, Bool, List, [], ◌∷◌, ◌++◌, Bytes, length, take, drop, ltb, leb,
  if◌then◌else◌, Result, ok, err, out_of_range, invalid_argument, ◌==◌, undefined_behaviour,
}
use lib_sloppy.Base.Int.{ℤ, pos, negsuc}
use lib_sloppy.Memory.{size_mod}
use lib_sloppy.Net.Words.{Host, store16, store32, htons, htonl}

pub record OutMessage : Type 0 where
  pub bytes : Bytes

-- `(uint32_t) i` of a 32-bit `int`.
unfoldable pub int_to_ui32 : ℤ → ℕ
int_to_ui32 (pos n) = n % 4294967296
int_to_ui32 (negsuc n) = 4294967295 - n % 4294967296

abbrev pub append : OutMessage → Bytes → OutMessage
append m bs = record m { bytes = m.bytes ++ bs }

unfoldable pub add_byte : OutMessage → ℕ → OutMessage
add_byte m b = append m (b ∷ [])

unfoldable pub add_bool : OutMessage → Bool → OutMessage
unfolding add_byte
add_bool m b = add_byte m (if b then 1 else 0)

unfoldable pub add_ui16 : Host → OutMessage → ℕ → OutMessage
add_ui16 h m u = append m (store16 h (htons h u))

unfoldable pub add_ui32 : Host → OutMessage → ℕ → OutMessage
add_ui32 h m u = append m (store32 h (htonl h u))

unfoldable pub add_int : Host → OutMessage → ℤ → OutMessage
add_int h m i = add_ui32 h m (int_to_ui32 i)

-- The high half first; both halves are cut to 32 bits.
unfoldable pub add_ui64 : Host → OutMessage → ℕ → OutMessage
add_ui64 h m u = add_ui32 h (add_ui32 h m (u / 4294967296 % 4294967296)) (u % 4294967296)

unfoldable pub add_string : Host → OutMessage → Bytes → OutMessage
add_string h m s = append (add_ui64 h m (length s)) s

unfoldable pub add_byte_string : Host → OutMessage → Bytes → OutMessage
add_byte_string h m bs = append (add_ui64 h m (length bs)) bs

unfoldable pub add_mem_view : Host → OutMessage → Bytes → OutMessage
add_mem_view h m v = append (add_ui64 h m (length v)) v

-- The loop over the messages of a list.
unfoldable pub add_messages : Host → OutMessage → List OutMessage → OutMessage
add_messages h m [] = m
add_messages h m (x ∷ xs) = add_messages h (add_byte_string h m x.bytes) xs

unfoldable pub add_message_list : Host → OutMessage → List OutMessage → OutMessage
add_message_list h m xs = add_messages h (add_ui64 h m (length xs)) xs

-- `view()`: the constructor of the view refuses the address of an empty message.
unfoldable pub view : OutMessage → Result Bytes
view m = if length m.bytes == 0 then err invalid_argument else ok m.bytes

-- The sum of the test is one of `size_t` values, and wraps; a copy that leaves the message has no
-- meaning.
unfoldable pub raw_poke : OutMessage → Bytes → ℕ → Result OutMessage
raw_poke m v i =
    if ltb (length m.bytes) ((i + length v) % size_mod)
    then err out_of_range
    else if leb (i + length v) (length m.bytes)
    then ok (record m { bytes = take i m.bytes ++ (v ++ drop (i + length v) m.bytes) })
    else err undefined_behaviour

-- The enumeration value of the message type is its number.
pub record TypedOutMessage : Type 0 where
  pub message : OutMessage
  pub msg_type : ℕ

unfoldable pub typed_out : Host → ℕ → TypedOutMessage
typed_out h t = record { message = add_ui32 h (record { bytes = [] }) t; msg_type = t }

unfoldable pub rewrite_type : Host → TypedOutMessage → ℕ → Result TypedOutMessage
rewrite_type h m t = elim (raw_poke m.message (store32 h (htonl h t)) 0) [
  | ok out ↦ ok (record { message = out; msg_type = t })
  | err e ↦ err e
]
