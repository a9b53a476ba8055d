-- ===== src/Net/Refusals.antt =====
-- The exceptions of InMessage, and what cannot be sent.
use lib_sloppy.Base.{
  ℕ, ◌+◌, ◌<◌, ◌≡◌, true, false, List, [], ◌∷◌, ◌++◌, map, Bytes, arith, length, length-append, All,
  ltb, Result, err, out_of_range, invalid_argument,
}
use lib_sloppy.Memory.{size_mod, slice_by_count}
use lib_sloppy.Net.Words.{Host}
use lib_sloppy.Net.Out.{add_mem_view, add_message_list}
use lib_sloppy.Net.In.{
  InMessage, M, ◌>>=◌, ◌>>◌, assert_sufficient_data, get_ui64, get_string, get_byte_string,
  get_mem_view, get_messages, get_message_list, from_data_copy,
}
use lib_sloppy.Net.RoundTrip.Wire.{
  wire64, wire_blocks, as_message, add_mem_view-append, add_message_list-append,
}
use lib_sloppy.Net.RoundTrip.Reads.{
  get_ui64-Takes, get_byte_string-Takes, length-wire64, IsBlock, from_data_copy-ok,
}

-- The getters of blocks, which read a length and then `tail`, on a length that announces more than
-- there is.
truncated :
    (h : Host) (tail : ℕ → M Bytes) (n : ℕ) (m : InMessage) (rest : Bytes)
    → n < size_mod
    → length rest < n
    → (assert_sufficient_data 8 >> (get_ui64 h >>= λ len. assert_sufficient_data len >> tail len))
        (record m { cur_view = wire64 n ++ rest })
      ≡ (err out_of_range, record m { cur_view = rest })
truncated h tail n m rest p short =
    let enough : ltb (length (wire64 n ++ rest)) 8 ≡ false =
      ground (arith, length-append (wire64 n) rest, length-wire64 n) in
    let few : ltb (length rest) n ≡ true = ground arith in
    rw (enough, (get_ui64-Takes h n p).run m rest, few)

-- A block that announces more bytes than follow is refused with out_of_range by each of the three
-- getters; the eight bytes of the length have then been read, and no more.
pub blocks_truncated :
    (h : Host) (n : ℕ) (m : InMessage) (rest : Bytes)
    → n < size_mod
    → length rest < n
    → let sent = record m { cur_view = wire64 n ++ rest } in
      let refused : Result Bytes × InMessage = (err out_of_range, record m { cur_view = rest }) in
      (get_string h sent ≡ refused)
      × (get_byte_string h sent ≡ refused)
      × (get_mem_view h sent ≡ refused)
unfolding get_string get_byte_string get_mem_view
blocks_truncated h n m rest p short =
    (truncated h _ n m rest p short, truncated h _ n m rest p short, truncated h _ n m rest p short)

empty_view_read :
    (h : Host) (m : InMessage)
    → get_mem_view h (record m { cur_view = wire64 0 ++ [] })
      ≡ (err out_of_range, record m { cur_view = [] })
unfolding get_mem_view slice_by_count
empty_view_read h m =
    let enough : ltb (length (wire64 0 ++ [])) 8 ≡ false =
      ground (arith, length-append (wire64 0) [], length-wire64 0) in
    rw (enough, (get_ui64-Takes h 0 (omega arith)).run m [])

messages_refused :
    (h : Host) (before after : List Bytes) (result : List InMessage) (m : InMessage)
    → All IsBlock before
    → (get_messages h
        (length (before ++ [] ∷ after))
        result
        (record m { cur_view = wire_blocks (before ++ [] ∷ after) })).0
      ≡ err invalid_argument
unfolding get_messages from_data_copy
messages_refused h [] after result m v =
    rw ((get_byte_string-Takes h [] (omega arith)).run m (wire_blocks after))
messages_refused h (x ∷ before) after result m (b, v) =
    rw
      (
        (get_byte_string-Takes h x b.0).run m (wire_blocks (before ++ [] ∷ after)),
        from_data_copy-ok x b.1,
      )
      (messages_refused h before after _ m v)

-- An empty view can be written, but at the end of a message it cannot be read: after the length,
-- the slice of an empty view throws out_of_range.
pub empty_view_at_end :
    (writer reader : Host) (m : InMessage)
    → get_mem_view reader
        (record m { cur_view = (add_mem_view writer (record { bytes = [] }) []).bytes })
      ≡ (err out_of_range, record m { cur_view = [] })
empty_view_at_end writer reader m =
    rw (add_mem_view-append writer (record { bytes = [] }) []) (empty_view_read reader m)

-- An empty message can be added to a list, but the list cannot be read back: whatever messages
-- come after the empty one and whatever non-empty ones come before it, getMessageList throws
-- invalid_argument.
pub empty_message_in_list :
    (writer reader : Host) (before after : List Bytes) (m : InMessage)
    → length before + 1 + length after < size_mod
    → All IsBlock before
    → (get_message_list reader (record m {
      cur_view =
          (add_message_list writer
            (record { bytes = [] })
            (map as_message (before ++ [] ∷ after))).bytes;
    })).0
      ≡ err invalid_argument
unfolding get_message_list
empty_message_in_list writer reader before after m p v =
    rw (add_message_list-append writer (record { bytes = [] }) (before ++ [] ∷ after)) (
      rw
        ((get_ui64-Takes reader (length (before ++ [] ∷ after))
            (omega (arith, length-append before ([] ∷ after)))).run
          m _)
        (messages_refused reader before after [] m v))
