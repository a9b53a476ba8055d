-- ===== src/Net/Typed.antt =====
-- Messages that start with a type, the copy of a message, and the order of long words.
use lib_sloppy.Base.{
  ℕ, ◌+◌, ◌-◌, ◌*◌, ◌/◌, ◌%◌, ◌≤◌, ◌<◌, ◌≡◌, ◌≢◌, refl, ap, [], ◌∷◌, ◌++◌, Bytes, arith, length,
  length-drop, drop, ok,
}
use lib_sloppy.Memory.{size_mod}
use lib_sloppy.Memory.Slices.{chop_left-drop}
use lib_sloppy.Net.Words.{
  Host, htonl, wire32, store32-htonl, htonl-lt, htonl-htonl, hton_sizet, ntoh_sizet,
}
use lib_sloppy.Net.Out.{TypedOutMessage, append, typed_out, raw_poke, rewrite_type}
use lib_sloppy.Net.In.{InMessage, of_view, typed_in, copy_assign}
use lib_sloppy.Net.RoundTrip.Wire.{add_ui32-append}
use lib_sloppy.Net.RoundTrip.Reads.{get_ui32-Takes}

-- The payload behind the type.
abbrev with_payload : TypedOutMessage → Bytes → TypedOutMessage
with_payload m bs = record m { message = append m.message bs }

-- A typed message with any payload, whose type is then rewritten, is received by a host of either
-- byte order with the new type, and with the payload still to be read.
pub typed_in-rewrite_type :
    (writer reader : Host) (old new : ℕ) (payload : Bytes)
    → new < 4294967296
    → (sent : TypedOutMessage) × (rewrite_type writer
          (with_payload (typed_out writer old) payload)
          new
        ≡ ok sent)
      × (sent.msg_type ≡ new)
      × (typed_in reader sent.message.bytes
          ≡ ok (record {
            message = record (of_view sent.message.bytes) { cur_view = payload };
            msg_type = new;
          }))
unfolding typed_out rewrite_type raw_poke typed_in wire32
typed_in-rewrite_type writer reader old new payload p = (
  record { message = record { bytes = wire32 new ++ payload }; msg_type = new },
  rewritten,
  refl,
  ground (arith, (get_ui32-Takes reader new p).run (of_view (wire32 new ++ payload)) payload),
)
  where
    rewritten :
        rewrite_type writer (with_payload (typed_out writer old) payload) new
        ≡ ok (record { message = record { bytes = wire32 new ++ payload }; msg_type = new })
    rewritten =
        ground (arith, add_ui32-append writer (record { bytes = [] }) old, store32-htonl writer new)

-- hton_sizet and ntoh_sizet are inverse on 64-bit words, on hosts of either byte order.
pub ntoh_sizet-hton_sizet :
    (h : Host) (u : ℕ)
    → u < size_mod
    → (ntoh_sizet h (hton_sizet h u) ≡ u) × (hton_sizet h u < size_mod)
unfolding ntoh_sizet hton_sizet
ntoh_sizet-hton_sizet h u p =
    let a = u / 4294967296 % 4294967296 in
    let b = u % 4294967296 in
    let high : (htonl h a * 4294967296 + htonl h b) / 4294967296 % 4294967296 ≡ htonl h a =
      omega (arith, htonl-lt h a, htonl-lt h b) in
    let low : (htonl h a * 4294967296 + htonl h b) % 4294967296 ≡ htonl h b =
      omega (arith, htonl-lt h b) in
    (
      rw (high, low, htonl-htonl h a (omega arith), htonl-htonl h b (omega arith)) (omega arith),
      omega (arith, htonl-lt h a, htonl-lt h b),
    )

-- The copy of a message.
-- What holds of every message: its unread part is a part of its view, and owned data is what it
-- views.
pub record IsValid (m : InMessage) : Type 0 where
  pub read : ℕ
  pub read_le : read ≤ length m.full_view
  pub cur_is : m.cur_view ≡ drop read m.full_view
  pub owned_is : m.owned ≢ [] → m.full_view ≡ m.owned

copy_owned : (m : InMessage) (o : Bytes) → m.owned ≡ o → IsValid m → copy_assign m ≡ ok m
unfolding copy_assign
copy_owned m [] e v = ground arith
copy_owned m (x ∷ o) e v =
    let same_data : m.full_view ≡ m.owned = v.owned_is (λ z. cc) in
    let chopped : length m.full_view - length m.cur_view ≡ v.read =
      omega (arith, ap length v.cur_is, v.read_le, length-drop v.read m.full_view) in
    ground (
      arith,
      chopped,
      same_data,
      chop_left-drop m.owned v.read (rw (← same_data) v.read_le),
      v.cur_is,
    )

-- The copy of a valid message succeeds, and has the same views and read position and its own copy
-- of owned data.
pub copy_assign_lem : (m : InMessage) → IsValid m → copy_assign m ≡ ok m
copy_assign_lem m v = copy_owned m m.owned refl v
