-- ===== src/Prelude/Int.antt =====
-- Signed integers over the native numbers, and the two's-complement readings of 64-bit words.
use Prim.Native.Nat.{ℕ, suc, ◌-◌, ◌%◌, ◌^◌, ◌<◌}
use mathlib.Core.Path.{◌≡◌}
use mathlib.Core.Bool.{Bool}
use native.Mathlib.Omega.{arith}
use distributed_in_memory_ke.Prelude.Tests.{ltb, leb, ◌==◌, if◌then◌else◌}

-- `negsuc n` is -(n + 1).
pub data ℤ : Type 0 where
  pos : ℕ → ℤ
  negsuc : ℕ → ℤ

abbrev pub two63 : ℕ
two63 = 2 ^ 63

abbrev pub two64 : ℕ
two64 = 2 ^ 64

-- The range of `int64_t`.
abbrev pub InInt64 : ℤ → Type 0
InInt64 (pos n) = n < two63
InInt64 (negsuc n) = n < two63

-- Conversion to `uint64_t`: the value modulo 2 ^ 64.
unfoldable pub to_u64 : ℤ → ℕ
to_u64 (pos n) = n % two64
to_u64 (negsuc n) = two64 - suc (n % two64)

-- `static_cast<int64_t>` of a `uint64_t`.
unfoldable pub to_i64 : ℕ → ℤ
to_i64 w = if ltb (w % two64) two63 then pos (w % two64) else negsuc (two64 - suc (w % two64))

-- The integer below and the integer above.
abbrev pub succ : ℤ → ℤ
succ (pos n) = pos (suc n)
succ (negsuc n) = if n == 0 then pos 0 else negsuc (n - 1)

abbrev pub pred_ℤ : ℤ → ℤ
pred_ℤ (pos n) = if n == 0 then negsuc 0 else pos (n - 1)
pred_ℤ (negsuc n) = negsuc (suc n)

abbrev pub is_negative : ℤ → Bool
is_negative (pos n) = ltb n 0
is_negative (negsuc n) = leb 0 n

pub to_i64-InInt64 : (w : ℕ) → InInt64 (to_i64 w)
unfolding to_i64
to_i64-InInt64 w = ground arith

pub to_i64-to_u64 : (z : ℤ) → InInt64 z → to_i64 (to_u64 z) ≡ z
unfolding to_i64 to_u64
to_i64-to_u64 (pos n) h = ground arith
to_i64-to_u64 (negsuc n) h = ground arith

pub to_u64-lt : (z : ℤ) → to_u64 z < two64
unfolding to_u64
to_u64-lt (pos n) = omega arith
to_u64-lt (negsuc n) = omega arith
