-- ===== src/Prelude/Int.antt =====
-- Go's signed numbers, over the native numbers, and their conversion to `uint32`.
use Prim.Native.Nat.{ℕ, ◌-◌, ◌%◌, ◌^◌, ◌<◌}
use native.Mathlib.Omega.{arith}

-- `negsuc n` is -(n + 1).
pub data ℤ : Type 0 where
  pos : ℕ → ℤ
  negsuc : ℕ → ℤ

abbrev pub u32_mod : ℕ
u32_mod = 2 ^ 32

-- `uint32(x)` keeps the low 32 bits.
unfoldable pub to_uint32 : ℤ → ℕ
to_uint32 (pos n) = n % u32_mod
to_uint32 (negsuc n) = u32_mod - 1 - n % u32_mod

pub to_uint32-lt : (x : ℤ) → to_uint32 x < u32_mod
unfolding to_uint32
to_uint32-lt (pos n) = omega arith
to_uint32-lt (negsuc n) = omega arith
