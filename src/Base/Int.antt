-- ===== src/Base/Int.antt =====
-- Signed numbers: `negsuc n` is -(n + 1).
use Prim.Native.Nat.{ℕ, suc, ◌-◌, ◌%◌, ◌<◌}
use mathlib.Core.Path.{◌≡◌}
use native.Mathlib.Omega.{arith}
use lib_sloppy.Base.Tests.{ltb, if◌then◌else◌}

pub data ℤ : Type 0 where
  pos : ℕ → ℤ
  negsuc : ℕ → ℤ

abbrev pub pos_part : ℤ → ℕ
pos_part (pos n) = n
pos_part (negsuc n) = 0

abbrev pub neg_part : ℤ → ℕ
neg_part (pos n) = 0
neg_part (negsuc n) = suc n

-- The conversion of a number to a 32-bit `int`, and that of an integer to `size_t`.
unfoldable pub to_int : ℕ → ℤ
to_int n = let r = n % 4294967296 in if ltb r 2147483648 then pos r else negsuc (4294967295 - r)

abbrev pub to_size : ℤ → ℕ
to_size (pos n) = n
to_size (negsuc n) = 18446744073709551615 - n

pub to_int_small : (n : ℕ) → n < 2147483648 → to_int n ≡ pos n
unfolding to_int
to_int_small n h = ground (arith, h)
