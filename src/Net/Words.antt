-- ===== src/Net/Words.antt =====
-- Machine words in memory and on the wire. `htons`, `htonl` and their inverses are POSIX: they turn
-- the order of the host into the order of the network, most significant byte first. A host stores
-- a word with the least or with the most significant byte first.
use lib_sloppy.Base.{ℕ, ◌+◌, ◌*◌, ◌/◌, ◌%◌, ◌<◌, ◌≡◌, [], ◌∷◌, Bytes, arith}

pub data Host : Type 0 where
  little big : Host

-- The bytes of a word in memory, lowest address first.
unfoldable pub store16 : Host → ℕ → Bytes
store16 little u = (u % 256) ∷ (u / 256 % 256) ∷ []
store16 big u = (u / 256 % 256) ∷ (u % 256) ∷ []

unfoldable pub store32 : Host → ℕ → Bytes
store32 little u = (u % 256) ∷ (u / 256 % 256) ∷ (u / 65536 % 256) ∷ (u / 16777216 % 256) ∷ []
store32 big u = (u / 16777216 % 256) ∷ (u / 65536 % 256) ∷ (u / 256 % 256) ∷ (u % 256) ∷ []

-- The word that a host reads from bytes in memory.
unfoldable pub load16 : Host → ℕ → ℕ → ℕ
load16 little a b = a + 256 * b
load16 big a b = 256 * a + b

unfoldable pub load32 : Host → ℕ → ℕ → ℕ → ℕ → ℕ
load32 little a b c d = a + 256 * b + 65536 * c + 16777216 * d
load32 big a b c d = 16777216 * a + 65536 * b + 256 * c + d

-- `htons` and `ntohs` are one function, and so are `htonl` and `ntohl`.
unfoldable pub htons : Host → ℕ → ℕ
htons little u = 256 * (u % 256) + u / 256 % 256
htons big u = u % 65536

unfoldable pub htonl : Host → ℕ → ℕ
htonl little u =
    16777216 * (u % 256) + 65536 * (u / 256 % 256) + 256 * (u / 65536 % 256) + u / 16777216 % 256
htonl big u = u % 4294967296

-- The bytes that stand on the wire for a word, whatever host writes them.
unfoldable pub wire16 : ℕ → Bytes
wire16 u = (u / 256 % 256) ∷ (u % 256) ∷ []

unfoldable pub wire32 : ℕ → Bytes
wire32 u = (u / 16777216 % 256) ∷ (u / 65536 % 256) ∷ (u / 256 % 256) ∷ (u % 256) ∷ []

pub store16-htons : (h : Host) (u : ℕ) → store16 h (htons h u) ≡ wire16 u
unfolding store16 htons wire16
store16-htons little u = ground arith
store16-htons big u = ground arith

pub store32-htonl : (h : Host) (u : ℕ) → store32 h (htonl h u) ≡ wire32 u
unfolding store32 htonl wire32
store32-htonl little u = ground arith
store32-htonl big u = ground arith

-- Each host reads from the wire the word that was written.
pub htons-load16 : (h : Host) (u : ℕ) → u < 65536 → htons h (load16 h (u / 256 % 256) (u % 256)) ≡ u
unfolding load16 htons
htons-load16 little u p = omega arith
htons-load16 big u p = omega arith

pub htonl-load32 :
    (h : Host) (u : ℕ)
    → u < 4294967296
    → htonl h (load32 h (u / 16777216 % 256) (u / 65536 % 256) (u / 256 % 256) (u % 256)) ≡ u
unfolding load32 htonl
htonl-load32 little u p = omega arith
htonl-load32 big u p = omega arith

pub htonl-lt : (h : Host) (u : ℕ) → htonl h u < 4294967296
unfolding htonl
htonl-lt little u = omega arith
htonl-lt big u = omega arith

pub htonl-htonl : (h : Host) (u : ℕ) → u < 4294967296 → htonl h (htonl h u) ≡ u
unfolding htonl
htonl-htonl little u p = omega arith
htonl-htonl big u p = omega arith

-- hton_sizet, with the word of the high half first.
unfoldable pub hton_sizet : Host → ℕ → ℕ
unfolding htonl
hton_sizet h u = htonl h (u / 4294967296 % 4294967296) * 4294967296 + htonl h (u % 4294967296)

-- ntoh_sizet is written over `ntohl`.
unfoldable pub ntoh_sizet : Host → ℕ → ℕ
unfolding htonl
ntoh_sizet h u = htonl h (u / 4294967296 % 4294967296) * 4294967296 + htonl h (u % 4294967296)
