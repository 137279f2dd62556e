-- ===== src/Base/Int.antt =====
-- Signed 64-bit integers as integers (`i64`), and the machine operations on `u64`/`usize` that wrap.
use Prim.Native.Nat.{ℕ, ◌+◌, ◌-◌, ◌%◌, ◌^◌}
use data_proxy.Base.Tests.{ltb, if◌then◌else◌}

-- `negsuc n` is -(n + 1).
pub data ℤ : Type 0 where
  pos : ℕ → ℤ
  negsuc : ℕ → ℤ

abbrev pub u64_mod : ℕ
u64_mod = 2 ^ 64

-- `x as u64`, `x as usize`
abbrev pub as_u64 : ℤ → ℕ
as_u64 (pos n) = n % u64_mod
as_u64 (negsuc n) = u64_mod - 1 - n % u64_mod

-- `a + b` and `a - b` on `u64` in a release build.
abbrev pub add_u64 : ℕ → ℕ → ℕ
add_u64 a b = (a + b) % u64_mod

abbrev pub sub_u64 : ℕ → ℕ → ℕ
sub_u64 a b = (a + u64_mod - b) % u64_mod

-- `x as u32` on `i32`.
abbrev pub as_u32 : ℤ → ℕ
as_u32 (pos n) = n % 2 ^ 32
as_u32 (negsuc n) = 2 ^ 32 - 1 - n % 2 ^ 32

-- `x as i64` on `u64`.
abbrev pub as_i64 : ℕ → ℤ
as_i64 n = if ltb n (2 ^ 63) then pos n else negsuc (u64_mod - 1 - n)

-- `x as i16` on `i32`.
abbrev pub signed_16 : ℕ → ℤ
signed_16 m = if ltb m 32768 then pos m else negsuc (65535 - m)

abbrev pub as_i16 : ℤ → ℤ
as_i16 (pos n) = signed_16 (n % 65536)
as_i16 (negsuc n) = signed_16 (65535 - n % 65536)
