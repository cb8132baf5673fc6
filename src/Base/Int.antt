-- ===== src/Base/Int.antt =====
-- Signed integers over the native numbers, and Rust's `as` casts and `try_from` between widths.
-- A u16, u32, u64 or usize is a number; an i32 (`c_int`, `pid_t`, `RawFd`) or i64 is a ℤ.
use Prim.Native.Nat.{ℕ, suc, ◌-◌, ◌%◌, ◌^◌, ◌<◌}
use mathlib.Core.Path.{◌≡◌}
use mathlib.Core.Bool.{Bool, true, false}
use mathlib.Core.Option.{Option, none, some}
use native.Mathlib.Omega.{arith}
use pve_lxc_syscalld.Base.Tests.{ltb, ◌==◌, if◌then◌else◌}

-- `negsuc n` is -(n + 1).
pub data ℤ : Type 0 where
  pos : ℕ → ℤ
  negsuc : ℕ → ℤ

abbrev pub minus_one : ℤ
minus_one = negsuc 0

abbrev pub eq_ℤ : ℤ → ℤ → Bool
eq_ℤ (pos m) (pos n) = m == n
eq_ℤ (negsuc m) (negsuc n) = m == n
eq_ℤ _ _ = false

-- `z < 0`
abbrev pub is_negative : ℤ → Bool
is_negative (pos n) = false
is_negative (negsuc n) = true

-- The value that a bit pattern of a 2^31-centred word stands for.
abbrev pub signed32 : ℕ → ℤ
signed32 w = if ltb w (2 ^ 31) then pos w else negsuc (2 ^ 32 - 1 - w)

abbrev pub signed64 : ℕ → ℤ
signed64 w = if ltb w (2 ^ 63) then pos w else negsuc (2 ^ 64 - 1 - w)

-- `x as i32` of an unsigned x of any width
abbrev pub as_i32 : ℕ → ℤ
as_i32 x = signed32 (x % 2 ^ 32)

-- `x as u32` and `x as u64` of a signed x: the sign is extended
abbrev pub as_u32 : ℤ → ℕ
as_u32 (pos n) = n % 2 ^ 32
as_u32 (negsuc n) = 2 ^ 32 - 1 - n % 2 ^ 32

abbrev pub as_u64 : ℤ → ℕ
as_u64 (pos n) = n % 2 ^ 64
as_u64 (negsuc n) = 2 ^ 64 - 1 - n % 2 ^ 64

-- `-x` on an i32; in a release build -(-2^31) wraps to itself.
abbrev pub neg_i32 : ℤ → ℤ
neg_i32 (pos n) = if n == 0 then pos 0 else negsuc (n - 1)
neg_i32 (negsuc n) = if n == 2 ^ 31 - 1 then negsuc n else pos (suc n)

-- `u32::try_from` and `i32::try_from` of a u64
abbrev pub try_u32 : ℕ → Option ℕ
try_u32 x = if ltb x (2 ^ 32) then some x else none

abbrev pub try_i32 : ℕ → Option ℤ
try_i32 x = if ltb x (2 ^ 31) then some (pos x) else none

abbrev pub IsI32 : ℤ → Type 0
IsI32 (pos n) = n < 2 ^ 31
IsI32 (negsuc n) = n < 2 ^ 31

abbrev pub IsI64 : ℤ → Type 0
IsI64 (pos n) = n < 2 ^ 63
IsI64 (negsuc n) = n < 2 ^ 63

pub signed32-as_u32 : (z : ℤ) → IsI32 z → signed32 (as_u32 z) ≡ z
signed32-as_u32 (pos n) h = ground arith
signed32-as_u32 (negsuc n) h = ground arith

pub signed64-as_u64 : (z : ℤ) → IsI64 z → signed64 (as_u64 z) ≡ z
signed64-as_u64 (pos n) h = ground arith
signed64-as_u64 (negsuc n) h = ground arith

pub as_u32-lt : (z : ℤ) → as_u32 z < 2 ^ 32
as_u32-lt (pos n) = omega arith
as_u32-lt (negsuc n) = omega arith

pub as_u64-lt : (z : ℤ) → as_u64 z < 2 ^ 64
as_u64-lt (pos n) = omega arith
as_u64-lt (negsuc n) = omega arith

pub as_u32-signed32 : (w : ℕ) → w < 2 ^ 32 → as_u32 (signed32 w) ≡ w
as_u32-signed32 w h = ground arith

pub as_u64-signed64 : (w : ℕ) → w < 2 ^ 64 → as_u64 (signed64 w) ≡ w
as_u64-signed64 w h = ground arith

pub neg_i32-neg_i32 : (z : ℤ) → IsI32 z → neg_i32 (neg_i32 z) ≡ z
neg_i32-neg_i32 (pos n) h = ground arith
neg_i32-neg_i32 (negsuc n) h = ground arith
