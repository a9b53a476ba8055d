-- ===== src/Memory/Files.antt =====
-- Sloppy/Memory.cpp and Memory.h: the reads of MemFile from the bytes of a mapped file. `size_t` is a
-- 64-bit word.
pub mod Bounds
use lib_sloppy.Base.{
  ℕ, zero, suc, ◌+◌, ◌-◌, ◌%◌, Bool, not, List, [], ◌∷◌, Bytes, length, leb, ◌==◌, if◌then◌else◌,
  Result, ok, err, ◌>>=◌, out_of_range, invalid_argument,
}
use lib_sloppy.Base.Int.{ℤ, pos, negsuc}
use lib_sloppy.Memory.{size_mod, deref, window}

-- The sum and the difference are those of `size_t` values.
unfoldable pub assert_index : Bytes → ℕ → ℕ → Result (Unit {0})
assert_index f idx len =
    if leb (length f) ((idx + len + (size_mod - 1)) % size_mod) then err out_of_range else ok tt

-- The bytes that `get` takes for a value of the size `n`.
unfoldable pub get : Bytes → ℕ → ℕ → Result Bytes
unfolding assert_index
get f idx n = assert_index f idx n >>= λ _. window f idx n

-- The loop that counts, with `left` more rounds at most: the byte that it looks at is always the
-- one that sPtr points to.
unfoldable pub count_string : ℕ → ℕ → ℕ → ℕ
count_string zero byte len = len
count_string (suc left) byte len =
    let counted = count_string left byte (len + 1) in if not (byte == 0) then counted else len

unfoldable pub get_string : Bytes → ℕ → Result Bytes
unfolding assert_index count_string
get_string f idx_start = assert_index f idx_start 1 >>= λ _. deref f idx_start >>= λ byte.
    (let len = count_string (length f - idx_start) byte 0 in
      if len == 0
      then ok []
      else if byte == 0
      then window f idx_start (len - 1)
      else window f idx_start len)

unfoldable pub get_string_of_length : Bytes → ℕ → ℤ → Result Bytes
unfolding assert_index
get_string_of_length f idx_start (negsuc n) = err invalid_argument
get_string_of_length f idx_start (pos len) =
    if len == 0 then ok [] else (assert_index f idx_start len >>= λ _. window f idx_start len)
