-- ===== src/Net/RoundTrip/Items.antt =====
-- Sequences of values through a message: written in order by one host, read in order by another.
use lib_sloppy.Base.{
  ℕ, ◌≤◌, ◌<◌, ◌≡◌, ◌≢◌, refl, ap, ◌∙◌, Bool, List, [], ◌∷◌, ◌++◌, append_assoc, append-nil, map,
  Bytes, length, All, ok, if◌then◌else◌,
}
use lib_sloppy.Base.Int.{ℤ, pos_part, neg_part}
use lib_sloppy.Memory.{size_mod}
use lib_sloppy.Net.Words.{Host, wire16, wire32}
use lib_sloppy.Net.Out.{
  OutMessage, append, int_to_ui32, add_byte, add_bool, add_ui16, add_ui32, add_ui64, add_int,
  add_string, add_byte_string, add_mem_view, add_message_list,
}
use lib_sloppy.Net.In.{
  M, ◌>>=◌, return, get_byte, get_bool, get_ui16, get_ui32, get_int, get_ui64, get_string,
  get_byte_string, get_mem_view, get_message_list, from_view_copy, of_view,
}
use lib_sloppy.Net.RoundTrip.Wire.{
  wire64, wire_block, wire_blocks, as_message, add_ui16-append, add_ui32-append, add_ui64-append,
  add_string-append, add_byte_string-append, add_mem_view-append, add_message_list-append,
}
use lib_sloppy.Net.RoundTrip.Reads.{
  Takes, Takes-bind, Takes-return, Takes-of, IsBlock, get_byte-Takes, get_bool-Takes,
  get_ui16-Takes, get_ui32-Takes, get_ui64-Takes, get_int-Takes, get_string-Takes,
  get_byte_string-Takes, get_mem_view-Takes, get_message_list-Takes,
}

pub data Item : Type 0 where
  byte ui16 ui32 ui64 : ℕ → Item
  flag : Bool → Item
  int : ℤ → Item
  string byte_string mem_view : Bytes → Item
  messages : List Bytes → Item

pub data Kind : Type 0 where
  byte ui16 ui32 ui64 flag int string byte_string mem_view messages : Kind

abbrev pub kind : Item → Kind
kind (Item.byte _) = Kind.byte
kind (Item.ui16 _) = Kind.ui16
kind (Item.ui32 _) = Kind.ui32
kind (Item.ui64 _) = Kind.ui64
kind (Item.flag _) = Kind.flag
kind (Item.int _) = Kind.int
kind (Item.string _) = Kind.string
kind (Item.byte_string _) = Kind.byte_string
kind (Item.mem_view _) = Kind.mem_view
kind (Item.messages _) = Kind.messages

-- The range of the C++ type; a view and a message in a list are not empty.
abbrev pub InRange : Item → Type 0
InRange (Item.byte b) = b < 256
InRange (Item.ui16 u) = u < 65536
InRange (Item.ui32 u) = u < 4294967296
InRange (Item.ui64 u) = u < size_mod
InRange (Item.flag b) = Unit {0}
InRange (Item.int i) = (pos_part i < 2147483648) × (neg_part i ≤ 2147483648)
InRange (Item.string s) = length s < size_mod
InRange (Item.byte_string s) = length s < size_mod
InRange (Item.mem_view v) = (length v < size_mod) × (v ≢ [])
InRange (Item.messages xs) = (length xs < size_mod) × All IsBlock xs

abbrev pub write : Host → OutMessage → Item → OutMessage
write h m (Item.byte b) = add_byte m b
write h m (Item.ui16 u) = add_ui16 h m u
write h m (Item.ui32 u) = add_ui32 h m u
write h m (Item.ui64 u) = add_ui64 h m u
write h m (Item.flag b) = add_bool m b
write h m (Item.int i) = add_int h m i
write h m (Item.string s) = add_string h m s
write h m (Item.byte_string s) = add_byte_string h m s
write h m (Item.mem_view v) = add_mem_view h m v
write h m (Item.messages xs) = add_message_list h m (map as_message xs)

abbrev pub read : Host → Kind → M Item
read h Kind.byte = do b ← get_byte; return (Item.byte b)
read h Kind.ui16 = do u ← get_ui16 h; return (Item.ui16 u)
read h Kind.ui32 = do u ← get_ui32 h; return (Item.ui32 u)
read h Kind.ui64 = do u ← get_ui64 h; return (Item.ui64 u)
read h Kind.flag = do b ← get_bool; return (Item.flag b)
read h Kind.int = do i ← get_int h; return (Item.int i)
read h Kind.string = do s ← get_string h; return (Item.string s)
read h Kind.byte_string = do s ← get_byte_string h; return (Item.byte_string s)
read h Kind.mem_view = do v ← get_mem_view h; return (Item.mem_view v)
read h Kind.messages = do xs ← get_message_list h; return (Item.messages (map (λ m. m.cur_view) xs))

abbrev pub write_all : Host → OutMessage → List Item → OutMessage
write_all h m [] = m
write_all h m (x ∷ xs) = write_all h (write h m x) xs

abbrev pub read_all : Host → List Kind → M (List Item)
read_all h [] = return []
read_all h (k ∷ ks) = do x ← read h k; xs ← read_all h ks; return (x ∷ xs)

abbrev wire : Item → Bytes
wire (Item.byte b) = b ∷ []
wire (Item.ui16 u) = wire16 u
wire (Item.ui32 u) = wire32 u
wire (Item.ui64 u) = wire64 u
wire (Item.flag b) = (if b then 1 else 0) ∷ []
wire (Item.int i) = wire32 (int_to_ui32 i)
wire (Item.string s) = wire_block s
wire (Item.byte_string s) = wire_block s
wire (Item.mem_view v) = wire_block v
wire (Item.messages xs) = wire64 (length xs) ++ wire_blocks xs

write-append : (h : Host) (m : OutMessage) (x : Item) → write h m x ≡ append m (wire x)
unfolding add_byte add_bool add_int
write-append h m (Item.byte b) = refl
write-append h m (Item.ui16 u) = add_ui16-append h m u
write-append h m (Item.ui32 u) = add_ui32-append h m u
write-append h m (Item.ui64 u) = add_ui64-append h m u
write-append h m (Item.flag b) = refl
write-append h m (Item.int i) = add_ui32-append h m (int_to_ui32 i)
write-append h m (Item.string s) = add_string-append h m s
write-append h m (Item.byte_string s) = add_byte_string-append h m s
write-append h m (Item.mem_view v) = add_mem_view-append h m v
write-append h m (Item.messages xs) = add_message_list-append h m xs

abbrev wires : List Item → Bytes
wires [] = []
wires (x ∷ xs) = wire x ++ wires xs

write_all-append :
    (h : Host) (m : OutMessage) (xs : List Item) → write_all h m xs ≡ append m (wires xs)
write_all-append h m [] = rw append-nil
write_all-append h m (x ∷ xs) =
    write_all-append h (write h m x) xs ∙ simp (write-append, append_assoc)

cur_views : (xs : List Bytes) → map (λ m. m.cur_view) (map from_view_copy xs) ≡ xs
unfolding from_view_copy
cur_views [] = refl
cur_views (x ∷ xs) = ap (◌∷◌ x) (cur_views xs)

-- Reading and wrapping.
wrap :
    {A : Type 0} {g : M A} (c : A → Item) {bs : Bytes} {a : A}
    → Takes g bs a
    → Takes (g >>= λ x. return (c x)) bs (c a)
wrap c {bs} t = Takes-of (append-nil bs) refl (Takes-bind _ t (Takes-return _))

read-Takes : (h : Host) (x : Item) → InRange x → Takes (read h (kind x)) (wire x) x
read-Takes h (Item.byte b) p = wrap Item.byte (get_byte-Takes b)
read-Takes h (Item.ui16 u) p = wrap Item.ui16 (get_ui16-Takes h u p)
read-Takes h (Item.ui32 u) p = wrap Item.ui32 (get_ui32-Takes h u p)
read-Takes h (Item.ui64 u) p = wrap Item.ui64 (get_ui64-Takes h u p)
read-Takes h (Item.flag b) p = wrap Item.flag (get_bool-Takes b)
read-Takes h (Item.int i) (p, q) = wrap Item.int (get_int-Takes h i p q)
read-Takes h (Item.string s) p = wrap Item.string (get_string-Takes h s p)
read-Takes h (Item.byte_string s) p = wrap Item.byte_string (get_byte_string-Takes h s p)
read-Takes h (Item.mem_view v) (p, ne) = wrap Item.mem_view (get_mem_view-Takes h v p ne)
read-Takes h (Item.messages xs) (p, v) =
    Takes-of refl (ap Item.messages (cur_views xs))
      (wrap (λ ms. Item.messages (map (λ m. m.cur_view) ms)) (get_message_list-Takes h xs p v))

read_all-Takes :
    (h : Host) (xs : List Item) → All InRange xs → Takes (read_all h (map kind xs)) (wires xs) xs
read_all-Takes h [] v = Takes-return []
read_all-Takes h (x ∷ xs) (p, v) =
    Takes-bind _ (read-Takes h x p) (wrap_cons (read_all-Takes h xs v))
  where
    wrap_cons :
        {g : M (List Item)} {bs : Bytes} {ys : List Item}
        → Takes g bs ys
        → Takes (g >>= λ ys. return (x ∷ ys)) bs (x ∷ ys)
    wrap_cons {bs = bs} t = Takes-of (append-nil bs) refl (Takes-bind _ t (Takes-return _))

-- Whatever sequence of values in range one host writes into an empty message, a host of either
-- byte order reads back by the getters of the same kinds, in order, and what follows the message
-- in the buffer is left unread.
pub read_all-write_all :
    (writer reader : Host) (xs : List Item) (rest : Bytes)
    → All InRange xs
    → let sent = (write_all writer (record { bytes = [] }) xs).bytes ++ rest in
      read_all reader (map kind xs) (of_view sent)
      ≡ (ok xs, record (of_view sent) { cur_view = rest })
read_all-write_all writer reader xs rest v =
    rw (write_all-append writer (record { bytes = [] }) xs)
      ((read_all-Takes reader xs v).run (of_view (wires xs ++ rest)) rest)
