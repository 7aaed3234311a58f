-- ===== src/Prelude/Word.antt =====
-- Fixed-width words as native numbers: casts, shifts, complement, and the tests of C.
use Prim.Native.Nat.{ℕ, ◌-◌, ◌+◌, ◌*◌, ◌/◌, ◌%◌, ◌^◌}
use mathlib.Core.Bool.{Bool, not}
use agoge.Prelude.Tests.{◌==◌, ltb, if◌then◌else◌}

abbrev pub u8 : ℕ → ℕ
u8 n = n % 256

abbrev pub u16 : ℕ → ℕ
u16 n = n % 65536

abbrev pub u32 : ℕ → ℕ
u32 n = n % 2 ^ 32

-- A `size_t`.
abbrev pub u64 : ℕ → ℕ
u64 n = n % 2 ^ 64

-- `~x` cut to a byte, for a byte `x`.
abbrev pub not8 : ℕ → ℕ
not8 x = 255 - x

infixl 75 ◌<<<◌ ◌>>>◌
abbrev pub ◌<<<◌ : ℕ → ℕ → ℕ
x <<< k = x * 2 ^ k

abbrev pub ◌>>>◌ : ℕ → ℕ → ℕ
x >>> k = x / 2 ^ k

-- A number where C wants a condition, and a condition where it wants a number.
abbrev pub nonzero : ℕ → Bool
nonzero n = not (n == 0)

abbrev pub of_bool : Bool → ℕ
of_bool x = if x then 1 else 0

-- `(int8_t)v` as a 32-bit two's complement pattern, for a byte `v`.
abbrev pub s8 : ℕ → ℕ
s8 v = if ltb v 128 then v else v + (2 ^ 32 - 256)
