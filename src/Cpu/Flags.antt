-- ===== src/Cpu/Flags.antt =====
-- The flag register as four conditions, and what the flag helpers of core/src/cpu.c do to them.
use agoge.Prelude.{
  ℕ, ◌≡◌, refl, Bool, true, false, ◌==◌, nonzero, if◌then◌else◌, not8, bit_and, bit_or, arith,
}
use agoge.Prelude.Bits.{bit_at, bit_at-and, bit_at-or, bit_and-two_pow}
use agoge.Ctx.{Ctx}
use agoge.Step.{ok}
use agoge.Cpu.Reg.{flags_set, flags_clear, flag_upd}

pub record Flags : Type 0 where
  pub zero : Bool
  pub subtract : Bool
  pub half_carry : Bool
  pub carry : Bool

unfoldable pub flags_of : ℕ → Flags
flags_of f = record {
  zero = bit_at 7 f == 1;
  subtract = bit_at 6 f == 1;
  half_carry = bit_at 5 f == 1;
  carry = bit_at 4 f == 1;
}

-- The register after `flag_upd`.
unfoldable pub upd : ℕ → ℕ → Bool → ℕ
upd f flag x = if x then bit_or f flag else bit_and f (not8 flag)

pub flag_upd_lem :
    (flag : ℕ) (x : Bool) (s : Ctx)
    → flag_upd flag x s ≡ ok (tt, record s { reg = record s.reg { f = upd s.reg.f flag x } })
unfolding flag_upd upd
flag_upd_lem flag true s = refl
flag_upd_lem flag false s = refl

-- A flag that is updated takes the condition, and the other three stay.
module _ (f : ℕ) (x : Bool) where
  pub flags_of-upd_zero : flags_of (upd f 0x80 x) ≡ record (flags_of f) { zero = x }
  unfolding upd flags_of
  flags_of-upd_zero = ground (
    arith,
    bit_at-or 7 f 0x80,
    bit_at-and 7 f 0x7f,
    bit_at-or 6 f 0x80,
    bit_at-and 6 f 0x7f,
    bit_at-or 5 f 0x80,
    bit_at-and 5 f 0x7f,
    bit_at-or 4 f 0x80,
    bit_at-and 4 f 0x7f,
  )

  pub flags_of-upd_subtract : flags_of (upd f 0x40 x) ≡ record (flags_of f) { subtract = x }
  unfolding upd flags_of
  flags_of-upd_subtract = ground (
    arith,
    bit_at-or 7 f 0x40,
    bit_at-and 7 f 0xbf,
    bit_at-or 6 f 0x40,
    bit_at-and 6 f 0xbf,
    bit_at-or 5 f 0x40,
    bit_at-and 5 f 0xbf,
    bit_at-or 4 f 0x40,
    bit_at-and 4 f 0xbf,
  )

  pub flags_of-upd_half_carry : flags_of (upd f 0x20 x) ≡ record (flags_of f) { half_carry = x }
  unfolding upd flags_of
  flags_of-upd_half_carry = ground (
    arith,
    bit_at-or 7 f 0x20,
    bit_at-and 7 f 0xdf,
    bit_at-or 6 f 0x20,
    bit_at-and 6 f 0xdf,
    bit_at-or 5 f 0x20,
    bit_at-and 5 f 0xdf,
    bit_at-or 4 f 0x20,
    bit_at-and 4 f 0xdf,
  )

  pub flags_of-upd_carry : flags_of (upd f 0x10 x) ≡ record (flags_of f) { carry = x }
  unfolding upd flags_of
  flags_of-upd_carry = ground (
    arith,
    bit_at-or 7 f 0x10,
    bit_at-and 7 f 0xef,
    bit_at-or 6 f 0x10,
    bit_at-and 6 f 0xef,
    bit_at-or 5 f 0x10,
    bit_at-and 5 f 0xef,
    bit_at-or 4 f 0x10,
    bit_at-and 4 f 0xef,
  )

  pub flags_of-upd_subtract_half_carry :
      flags_of (upd f 0x60 x) ≡ record (flags_of f) { subtract = x; half_carry = x }
  unfolding upd flags_of
  flags_of-upd_subtract_half_carry = ground (
    arith,
    bit_at-or 7 f 0x60,
    bit_at-and 7 f 0x9f,
    bit_at-or 6 f 0x60,
    bit_at-and 6 f 0x9f,
    bit_at-or 5 f 0x60,
    bit_at-and 5 f 0x9f,
    bit_at-or 4 f 0x60,
    bit_at-and 4 f 0x9f,
  )

  pub flags_of-upd_zero_subtract :
      flags_of (upd f 0xC0 x) ≡ record (flags_of f) { zero = x; subtract = x }
  unfolding upd flags_of
  flags_of-upd_zero_subtract = ground (
    arith,
    bit_at-or 7 f 0xc0,
    bit_at-and 7 f 0x3f,
    bit_at-or 6 f 0xc0,
    bit_at-and 6 f 0x3f,
    bit_at-or 5 f 0xc0,
    bit_at-and 5 f 0x3f,
    bit_at-or 4 f 0xc0,
    bit_at-and 4 f 0x3f,
  )

pub ruleset flag_laws = (
  flags_of-upd_zero, flags_of-upd_subtract, flags_of-upd_half_carry, flags_of-upd_carry,
  flags_of-upd_subtract_half_carry, flags_of-upd_zero_subtract,
)

pub flags_set_lem :
    (flag : ℕ) (s : Ctx)
    → flags_set flag s ≡ ok (tt, record s { reg = record s.reg { f = upd s.reg.f flag true } })
unfolding flags_set upd
flags_set_lem flag s = refl

pub flags_clear_lem :
    (flag : ℕ) (s : Ctx)
    → flags_clear flag s ≡ ok (tt, record s { reg = record s.reg { f = upd s.reg.f flag false } })
unfolding flags_clear upd
flags_clear_lem flag s = refl

-- `f & flag` tests one of the four conditions.
module _ (f : ℕ) where
  pub test_zero : nonzero (bit_and f 0x80) ≡ (flags_of f).zero
  unfolding flags_of
  test_zero = ground (arith, bit_and-two_pow 7 f)

  pub test_subtract : nonzero (bit_and f 0x40) ≡ (flags_of f).subtract
  unfolding flags_of
  test_subtract = ground (arith, bit_and-two_pow 6 f)

  pub test_half_carry : nonzero (bit_and f 0x20) ≡ (flags_of f).half_carry
  unfolding flags_of
  test_half_carry = ground (arith, bit_and-two_pow 5 f)

  pub test_carry : nonzero (bit_and f 0x10) ≡ (flags_of f).carry
  unfolding flags_of
  test_carry = ground (arith, bit_and-two_pow 4 f)
