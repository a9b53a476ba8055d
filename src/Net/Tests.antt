-- ===== src/Net/Tests.antt =====
-- Messages of a small client and server, and the theorems about messages at them.
use lib_sloppy.Base.{
  ◌≡◌, ◌≢◌, refl, true, List, [], ◌∷◌, ◌++◌, map, Bytes, arith, ok, err, invalid_argument,
  undefined_behaviour, All,
}
use lib_sloppy.Base.Int.{negsuc}
use lib_sloppy.Net.Words.{little, big, htons, store16}
use lib_sloppy.Net.Out.{add_ui16, add_message_list}
use lib_sloppy.Net.In.{InMessage, of_view, get_message_list}
use lib_sloppy.Net.RoundTrip.Wire.{as_message}
use lib_sloppy.Net.RoundTrip.Items.{
  Item, Kind, kind, write_all, read_all, InRange, read_all-write_all,
}
use lib_sloppy.Net.Safety.{read_all_safe}
use lib_sloppy.Net.Refusals.{empty_message_in_list}

abbrev items : List Item
items =
    Item.int (negsuc 41)
    ∷ Item.flag true
    ∷ Item.string (104 ∷ 105 ∷ [])
    ∷ Item.messages ((1 ∷ 2 ∷ []) ∷ (3 ∷ []) ∷ [])
    ∷ Item.mem_view (9 ∷ [])
    ∷ []

-- The wire has the most significant byte first on both hosts.
wire_of_ui16 :
    ((add_ui16 little (record { bytes = [] }) 258).bytes ≡ 1 ∷ 2 ∷ [])
    × ((add_ui16 big (record { bytes = [] }) 258).bytes ≡ 1 ∷ 2 ∷ [])
unfolding add_ui16 store16 htons
wire_of_ui16 = (refl, refl)

items-InRange : All InRange items
items-InRange = (
  (omega arith, omega arith),
  (
    tt,
    (
      omega arith,
      (
        ((omega arith, ((omega arith, λ e. cc), ((omega arith, λ e. cc), tt)))),
        ((omega arith, λ e. cc), tt),
      ),
    ),
  ),
)

read_all-write_all_example :
    read_all big
      (map kind items)
      (of_view ((write_all little (record { bytes = [] }) items).bytes ++ 7 ∷ []))
    ≡ (
      ok items,
      record (of_view ((write_all little (record { bytes = [] }) items).bytes ++ 7 ∷ [])) {
        cur_view = 7 ∷ [];
      },
    )
read_all-write_all_example = read_all-write_all little big items (7 ∷ []) items-InRange

-- A request for a list of 2^64 - 1 messages in a message of ten bytes.
abbrev hostile : Bytes
hostile = 255 ∷ 255 ∷ 255 ∷ 255 ∷ 255 ∷ 255 ∷ 255 ∷ 255 ∷ 0 ∷ 0 ∷ []

read_all_safe_example :
    (read_all little (Kind.messages ∷ []) (of_view hostile)).0 ≢ err undefined_behaviour
read_all_safe_example = (read_all_safe little (Kind.messages ∷ []) hostile).0

empty_message_in_list_example :
    (get_message_list little (record (of_view []) {
      cur_view =
          (add_message_list little
            (record { bytes = [] })
            (map as_message ((4 ∷ []) ∷ [] ∷ []))).bytes;
    })).0
    ≡ err invalid_argument
empty_message_in_list_example =
    empty_message_in_list little little ((4 ∷ []) ∷ []) [] (of_view []) (omega arith)
      ((omega arith, λ e. cc), tt)

-- Received data that the message owns, with one byte read.
abbrev half_read : InMessage
half_read = record { full_view = 1 ∷ 2 ∷ 3 ∷ []; cur_view = 2 ∷ 3 ∷ []; owned = 1 ∷ 2 ∷ 3 ∷ [] }
