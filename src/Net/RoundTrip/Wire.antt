-- ===== src/Net/RoundTrip/Wire.antt =====
-- What the member functions of OutMessage append, as bytes on the wire: no host in sight.
use lib_sloppy.Base.{
  ℕ, ◌/◌, ◌%◌, ◌≡◌, ◌∙◌, List, [], ◌∷◌, ◌++◌, append_assoc, append-nil, Bytes, length, length-map,
  map,
}
use lib_sloppy.Net.Words.{Host, wire16, wire32, store16-htons, store32-htonl}
use lib_sloppy.Net.Out.{
  OutMessage, append, add_ui16, add_ui32, add_ui64, add_string, add_byte_string, add_mem_view,
  add_messages, add_message_list,
}

abbrev pub wire64 : ℕ → Bytes
wire64 u = wire32 (u / 4294967296 % 4294967296) ++ wire32 (u % 4294967296)

-- A block of bytes behind its length.
abbrev pub wire_block : Bytes → Bytes
wire_block bs = wire64 (length bs) ++ bs

abbrev pub wire_blocks : List Bytes → Bytes
wire_blocks [] = []
wire_blocks (x ∷ xs) = wire_block x ++ wire_blocks xs

module _ (h : Host) (m : OutMessage) where
  pub add_ui16-append : (u : ℕ) → add_ui16 h m u ≡ append m (wire16 u)
  unfolding add_ui16
  add_ui16-append u = rw (store16-htons h u)

  pub add_ui32-append : (u : ℕ) → add_ui32 h m u ≡ append m (wire32 u)
  unfolding add_ui32
  add_ui32-append u = rw (store32-htonl h u)

pub add_ui64-append : (h : Host) (m : OutMessage) (u : ℕ) → add_ui64 h m u ≡ append m (wire64 u)
unfolding add_ui64
add_ui64-append h m u = simp (add_ui32-append, append_assoc)

module _ (h : Host) (m : OutMessage) (bs : Bytes) where
  pub add_string-append : add_string h m bs ≡ append m (wire_block bs)
  unfolding add_string
  add_string-append = simp (add_ui64-append, append_assoc)

  pub add_byte_string-append : add_byte_string h m bs ≡ append m (wire_block bs)
  unfolding add_byte_string
  add_byte_string-append = simp (add_ui64-append, append_assoc)

  pub add_mem_view-append : add_mem_view h m bs ≡ append m (wire_block bs)
  unfolding add_mem_view
  add_mem_view-append = simp (add_ui64-append, append_assoc)

-- The messages of a list.
abbrev pub as_message : Bytes → OutMessage
as_message bs = record { bytes = bs }

add_messages-append :
    (h : Host) (m : OutMessage) (xs : List Bytes)
    → add_messages h m (map as_message xs) ≡ append m (wire_blocks xs)
unfolding add_messages
add_messages-append h m [] = rw append-nil
add_messages-append h m (x ∷ xs) =
    add_messages-append h (add_byte_string h m x) xs ∙ simp (add_byte_string-append, append_assoc)

pub add_message_list-append :
    (h : Host) (m : OutMessage) (xs : List Bytes)
    → add_message_list h m (map as_message xs) ≡ append m (wire64 (length xs) ++ wire_blocks xs)
unfolding add_message_list
add_message_list-append h m xs =
    simp (length-map, add_messages-append, add_ui64-append, append_assoc)
