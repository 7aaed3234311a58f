-- ===== src/Cpu/Logic.antt =====
-- `alu_inc`, `alu_dec`, `alu_bit`, `alu_and`, `alu_or`, `alu_xor` and `alu_add_hl` of core/src/cpu.c
-- against arithmetic.
use native.Mathlib.Nat.{pow-suc}
use agoge.Prelude.{
  zero, suc, ℕ, ◌+◌, ◌*◌, ◌/◌, ◌%◌, ◌^◌, ◌<◌, ◌≡◌, refl, ap, Bool, true, false, leb, ltb, ◌==◌,
  nonzero, if◌then◌else◌, bit_and, bit_or, bit_xor, ◌<<<◌, arith, u8,
}
use agoge.Prelude.Bits.{bit_at, bit_at-xor, bit_and-two_pow, bit_and-low_half, bitwise_byte}
use agoge.Ctx.{Ctx}
use agoge.Step.{ok, assert}
use agoge.Cpu.Reg.{wr16}
use agoge.Cpu.Flags.{Flags, flags_of, upd, flag_upd_lem, flag_laws}
use agoge.Cpu.AddSub.{Gives}
use agoge.Cpu.Rotate.{Returns}
use agoge.Cpu.Alu.{alu_inc, alu_dec}
use agoge.Cpu.Arith.{alu_bit, alu_and, alu_or, alu_xor, alu_add_hl}

abbrev with_f : Ctx → ℕ → Ctx
with_f s f = record s { reg = record s.reg { f = f } }

-- The flags after an increment or a decrement: C is kept.
abbrev pub count_flags : Flags → Bool → ℕ → Bool → Flags
count_flags fl subtract res half = record fl {
  zero = res == 0;
  subtract = subtract;
  half_carry = half;
}

module _ (v : ℕ) (s : Ctx) (byte : v < 256) where
  alu_inc_lem :
      Returns
        (alu_inc v)
        s
        ((v + 1) % 256)
        (count_flags (flags_of s.reg.f) false ((v + 1) % 256) (v % 16 == 15))
  unfolding alu_inc upd
  alu_inc_lem =
      let half = bit_and v 0x0F == 0x0F in
      (
        upd (upd (upd s.reg.f 0x40 false) 0x20 half) 0x80 (u8 (v + 1) == 0),
        simp flag_upd_lem,
        simp (flag_laws, bit_and-low_half),
      )

  alu_dec_lem :
      Returns
        (alu_dec v)
        s
        ((v + 255) % 256)
        (count_flags (flags_of s.reg.f) true ((v + 255) % 256) (v % 16 == 0))
  unfolding alu_dec upd
  alu_dec_lem =
      let half = bit_and v 0x0F == 0 in
      (
        upd (upd (upd s.reg.f 0x40 true) 0x20 half) 0x80 (u8 (v + 255) == 0),
        simp flag_upd_lem,
        simp (flag_laws, bit_and-low_half),
      )

  -- `alu_inc` returns one more and `alu_dec` one less than the byte, modulo 256. Z tells that the result
  -- is zero, N is cleared or set, H tells that the low half was 15, or 0; C is kept, and nothing else
  -- changes.
  pub alu_inc-alu_dec :
      Returns
        (alu_inc v)
        s
        ((v + 1) % 256)
        (count_flags (flags_of s.reg.f) false ((v + 1) % 256) (v % 16 == 15))
      × Returns
          (alu_dec v)
          s
          ((v + 255) % 256)
          (count_flags (flags_of s.reg.f) true ((v + 255) % 256) (v % 16 == 0))
  alu_inc-alu_dec = (alu_inc_lem, alu_dec_lem)

-- The test of one bit: Z tells that it is clear.
abbrev pub bit_flags : Flags → ℕ → Flags
bit_flags fl x = record fl { zero = x == 0; subtract = false; half_carry = true }

pub bit_at-lt : (b v : ℕ) → bit_at b v < 2
bit_at-lt zero v = omega arith
bit_at-lt (suc b) v = bit_at-lt b (v / 2)

two_pow-pos : (b : ℕ) → 0 < 2 ^ b
two_pow-pos zero = omega arith
two_pow-pos (suc b) = omega (arith, pow-suc 2 b, two_pow-pos b)

scaled_bit : (x t : ℕ) → x < 2 → 0 < t → (x * t == 0) ≡ (x == 0)
scaled_bit zero t lt pos = ground arith
scaled_bit (suc zero) t lt pos = ground arith
scaled_bit (suc (suc x)) t lt pos = absurd (omega arith)

one_bit : (b v : ℕ) → (bit_and v (2 ^ b) == 0) ≡ (bit_at b v == 0)
one_bit b v =
    rw (bit_and-two_pow b v) (scaled_bit (bit_at b v) (2 ^ b) (bit_at-lt b v) (two_pow-pos b))

-- For a bit below 8, `alu_bit` puts the complement of that bit of the operand into Z, clears N and sets
-- H; C is kept, and nothing else changes.
pub alu_bit_lem :
    (b v : ℕ) (s : Ctx)
    → b < 8
    → Gives (alu_bit b v) s s.reg.a (bit_flags (flags_of s.reg.f) (bit_at b v))
unfolding alu_bit assert upd
alu_bit_lem b v s lt =
    let known : leb b 7 ≡ true = ground arith in
    let x = bit_and v (1 <<< b) == 0 in
    let pow : 1 * 2 ^ b ≡ 2 ^ b = omega arith in
    (
      upd (upd (upd s.reg.f 0x40 false) 0x20 true) 0x80 x,
      rw known (simp flag_upd_lem),
      simp flag_laws (
          rw pow (λ i. record (flags_of s.reg.f) {
            zero = one_bit b v i;
            subtract = false;
            half_carry = true;
          })),
    )

-- The flags after a bitwise operation.
abbrev pub logic_flags : ℕ → Bool → Flags
logic_flags res half = record {
  zero = res == 0;
  subtract = false;
  half_carry = half;
  carry = false;
}

logic_flags-f :
    (x half : Bool)
    → flags_of (u8 (if x then (if half then 0xA0 else 0x80) else (if half then 0x20 else 0x00)))
      ≡ record { zero = x; subtract = false; half_carry = half; carry = false }
unfolding flags_of
logic_flags-f true true = refl
logic_flags-f true false = refl
logic_flags-f false true = refl
logic_flags-f false false = refl

module _ (v : ℕ) (s : Ctx) (hv : v < 256) (ha : s.reg.a < 256) where
  -- For byte values, `alu_and`, `alu_or` and `alu_xor` put the bitwise result into the accumulator. Z
  -- tells that it is zero, N and C are cleared, H is set by `alu_and` and cleared by the others; nothing
  -- else changes.
  pub alu_and-alu_or-alu_xor :
      Gives (alu_and v) s (bit_and s.reg.a v) (logic_flags (bit_and s.reg.a v) true)
      × Gives (alu_or v) s (bit_or s.reg.a v) (logic_flags (bit_or s.reg.a v) false)
      × Gives (alu_xor v) s (bit_xor s.reg.a v) (logic_flags (bit_xor s.reg.a v) false)
  unfolding alu_and alu_or alu_xor
  alu_and-alu_or-alu_xor =
      let (p, q, r) = bitwise_byte s.reg.a v ha hv in
      (
        rw p (_, refl, logic_flags-f (bit_and s.reg.a v == 0) true),
        rw q (_, refl, logic_flags-f (bit_or s.reg.a v == 0) false),
        rw r (_, refl, logic_flags-f (bit_xor s.reg.a v == 0) false),
      )

-- The flags after an addition to HL: Z is kept.
abbrev pub add_hl_flags : Flags → ℕ → ℕ → Flags
add_hl_flags fl hl v = record fl {
  subtract = false;
  half_carry = leb 4096 (hl % 4096 + v % 4096);
  carry = leb 65536 (hl + v);
}

half_carry_hl :
    (hl v : ℕ)
    → nonzero (bit_and (bit_xor (bit_xor hl v) (hl + v)) 0x1000) ≡ leb 4096 (hl % 4096 + v % 4096)
half_carry_hl hl v = ground (
  arith,
  bit_and-two_pow 12 (bit_xor (bit_xor hl v) (hl + v)),
  bit_at-xor 12 (bit_xor hl v) (hl + v),
  bit_at-xor 12 hl v,
)

-- `alu_add_hl` puts the sum of HL and the operand modulo 65536
-- into HL. N is cleared, H is the carry out of bit 11 and C the carry out of the word; Z is kept, and
-- nothing else changes.
pub alu_add_hl_lem :
    (v : ℕ) (s : Ctx)
    → let hl : ℕ = s.reg.h * 256 + s.reg.l in
      let sum : ℕ = (hl + v) % 65536 in
      (f' : ℕ) × (alu_add_hl v s
        ≡ ok (tt, record s { reg = record s.reg { h = sum / 256; l = sum % 256; f = f' } }))
      × (flags_of f' ≡ add_hl_flags (flags_of s.reg.f) hl v)
unfolding alu_add_hl upd wr16
alu_add_hl_lem v s =
    let hl : ℕ = s.reg.h * 256 + s.reg.l in
    let half = nonzero (bit_and (bit_xor (bit_xor hl v) (hl + v)) 0x1000) in
    let over : ltb 0xFFFF (hl + v) ≡ leb 65536 (hl + v) = ground arith in
    let low : u8 (hl + v) ≡ (hl + v) % 65536 % 256 = omega arith in
    let f' = upd (upd (upd s.reg.f 0x40 false) 0x20 half) 0x10 (ltb 0xFFFF (hl + v)) in
    (
      f',
      simp flag_upd_lem (
          ap
            (λ (t : ℕ).
              ok
                (tt, record s { reg = record s.reg { h = (hl + v) % 65536 / 256; l = t; f = f' } }))
            low),
      simp flag_laws (λ i. record (flags_of s.reg.f) {
        subtract = false;
        half_carry = half_carry_hl hl v i;
        carry = over i;
      }),
    )
