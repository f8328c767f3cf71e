-- ===== src/Prelude/Word.antt =====
-- The casts `as i32` and `as u32`, the low 32 bits of an integer, and that of a `u64` `as i64`.
use Prim.Native.Nat.{ℕ, ◌-◌, ◌%◌, ◌^◌, ◌≤◌, ◌<◌}
use mathlib.Core.Path.{◌≡◌}
use native.Mathlib.Omega.{arith}
use telegram_mcpvscode.Prelude.Tests.{ltb, if◌then◌else◌}
use telegram_mcpvscode.Prelude.Int.{ℤ, pos, negsuc, pos_part, neg_part, ◌+ℤ◌, InI64}

-- The bit pattern of `n`, negative numbers in two's complement.
abbrev pub low_32 : ℤ → ℕ
low_32 (pos n) = n % 2 ^ 32
low_32 (negsuc n) = 2 ^ 32 - 1 - n % 2 ^ 32

abbrev pub signed_32 : ℕ → ℤ
signed_32 w = if ltb w (2 ^ 31) then pos w else negsuc (2 ^ 32 - 1 - w)

unfoldable pub as_i32 : ℤ → ℤ
as_i32 n = signed_32 (low_32 n)

unfoldable pub as_i64 : ℕ → ℤ
as_i64 n = if ltb n (2 ^ 63) then pos n else negsuc (2 ^ 64 - 1 - n)

unfoldable pub as_u32 : ℕ → ℕ
as_u32 n = n % 2 ^ 32

abbrev pub InI32 : ℤ → Type 0
InI32 n = (pos_part n < 2 ^ 31) × (neg_part n ≤ 2 ^ 31)

pub as_i32_self : (n : ℤ) → InI32 n → as_i32 n ≡ n
unfolding as_i32
as_i32_self (pos n) h = ground arith
as_i32_self (negsuc n) h = ground arith

-- Numbers that are 2 ^ 32 apart have one cast.
pub as_i32_wraps : (n : ℤ) → as_i32 (n +ℤ pos (2 ^ 32)) ≡ as_i32 n
unfolding as_i32 ◌+ℤ◌
as_i32_wraps (pos n) = ground arith
as_i32_wraps (negsuc n) = ground arith

-- The low 64 bits of an integer, as an `i64`.
abbrev pub low_64 : ℤ → ℕ
low_64 (pos n) = n % 2 ^ 64
low_64 (negsuc n) = 2 ^ 64 - 1 - n % 2 ^ 64

unfoldable pub wrap_i64 : ℤ → ℤ
wrap_i64 n = let w = low_64 n in if ltb w (2 ^ 63) then pos w else negsuc (2 ^ 64 - 1 - w)

pub wrap_i64_self : (n : ℤ) → InI64 n → wrap_i64 n ≡ n
unfolding wrap_i64
wrap_i64_self (pos n) h = ground arith
wrap_i64_self (negsuc n) h = ground arith
