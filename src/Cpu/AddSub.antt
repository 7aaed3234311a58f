-- ===== src/Cpu/AddSub.antt =====
-- `alu_add`, `alu_adc`, `alu_sub`, `alu_sbc` and `alu_cp` of core/src/cpu.c against arithmetic.
use agoge.Prelude.{
  ℕ, ◌+◌, ◌-◌, ◌%◌, ◌^◌, ◌<◌, ◌≡◌, refl, ap, ◌∙◌, Bool, true, false, ltb, leb, ◌==◌, nonzero,
  of_bool, bit_and, bit_xor, arith, u8, u32,
}
use agoge.Prelude.Bits.{bit_at-xor, bit_and-two_pow}
use agoge.Ctx.{Ctx}
use agoge.Step.{ok, M}
use agoge.Cpu.Flags.{Flags, flags_of, upd, flag_upd_lem, flag_laws, test_carry}
use agoge.Cpu.Arith.{alu_add_op, alu_sub_op, alu_add, alu_adc, alu_sub, alu_sbc, alu_cp}

-- Bit 4 of `a ^ b ^ sum` is the carry out of the low halves.
half_carry_add :
    (a b c : ℕ)
    → c < 2
    → nonzero (bit_and (bit_xor (bit_xor a b) (a + b + c)) 0x10) ≡ leb 16 (a % 16 + b % 16 + c)
half_carry_add a b c lt = ground (
  arith,
  bit_and-two_pow 4 (bit_xor (bit_xor a b) (a + b + c)),
  bit_at-xor 4 (bit_xor a b) (a + b + c),
  bit_at-xor 4 a b,
)

-- Bit 4 of `a ^ b ^ diff` is the borrow into the high halves, for `diff` in two's complement.
half_carry_sub :
    (a b c : ℕ)
    → a < 256
    → b < 256
    → c < 2
    → nonzero (bit_and (bit_xor (bit_xor a b) (u32 (a + 2 ^ 32 - b - c))) 0x10)
      ≡ ltb (a % 16) (b % 16 + c)
half_carry_sub a b c ha hb hc = ground (
  arith,
  bit_and-two_pow 4 (bit_xor (bit_xor a b) (u32 (a + 2 ^ 32 - b - c))),
  bit_at-xor 4 (bit_xor a b) (u32 (a + 2 ^ 32 - b - c)),
  bit_at-xor 4 a b,
)

-- The flags after an addition of `b` and a carry `c` to the accumulator `a`.
abbrev pub add_flags : ℕ → ℕ → ℕ → Flags
add_flags a b c = record {
  zero = (a + b + c) % 256 == 0;
  subtract = false;
  half_carry = leb 16 (a % 16 + b % 16 + c);
  carry = leb 256 (a + b + c);
}

-- The flags after a subtraction of `b` and a carry `c` from the accumulator `a`.
abbrev pub sub_flags : ℕ → ℕ → ℕ → Flags
sub_flags a b c = record {
  zero = (a + 256 - b - c) % 256 == 0;
  subtract = true;
  half_carry = ltb (a % 16) (b % 16 + c);
  carry = ltb a (b + c);
}

-- The context with another accumulator and flag register.
abbrev pub with_af : Ctx → ℕ → ℕ → Ctx
with_af s a f = record s { reg = record s.reg { a = a; f = f } }

of_bool-lt : (x : Bool) → of_bool x < 2
of_bool-lt x = ground arith

alu_add_op_lem :
    (v : ℕ) (carry : Bool) (s : Ctx)
    → (f' : ℕ) × (alu_add_op v carry s
        ≡ ok (tt, with_af s ((s.reg.a + v + of_bool carry) % 256) f'))
      × (flags_of f' ≡ add_flags s.reg.a v (of_bool carry))
unfolding alu_add_op upd
alu_add_op_lem v carry s =
    let res = s.reg.a + v + of_bool carry in
    let h = nonzero (bit_and (bit_xor (bit_xor s.reg.a v) res) 0x10) in
    let f' =
      upd (upd (upd (upd s.reg.f 0x40 false) 0x80 (u8 res == 0)) 0x20 h) 0x10 (ltb 0xFF res) in
    let twice : u8 (u8 res) ≡ u8 res = omega arith in
    let over : ltb 0xFF res ≡ leb 256 res = ground arith in
    (
      f',
      simp flag_upd_lem (ap (λ (t : ℕ). ok (tt, with_af s t f')) twice),
      simp flag_laws (λ i. record {
        zero = u8 res == 0;
        subtract = false;
        half_carry = half_carry_add s.reg.a v (of_bool carry) (of_bool-lt carry) i;
        carry = over i;
      }),
    )

alu_sub_op_lem :
    (v : ℕ) (carry : Bool) (s : Ctx)
    → s.reg.a < 256
    → v < 256
    → (f' : ℕ) × (alu_sub_op v carry s
        ≡ ok ((s.reg.a + 256 - v - of_bool carry) % 256, with_af s s.reg.a f'))
      × (flags_of f' ≡ sub_flags s.reg.a v (of_bool carry))
unfolding alu_sub_op upd
alu_sub_op_lem v carry s ha hv =
    let res = u32 (s.reg.a + 2 ^ 32 - v - of_bool carry) in
    let h = nonzero (bit_and (bit_xor (bit_xor s.reg.a v) res) 0x10) in
    let f' =
      upd (upd (upd (upd s.reg.f 0x40 true) 0x80 (u8 res == 0)) 0x20 h) 0x10 (leb (2 ^ 31) res) in
    let bound = of_bool-lt carry in
    let low : u8 res ≡ (s.reg.a + 256 - v - of_bool carry) % 256 = omega arith in
    let negative : leb (2 ^ 31) res ≡ ltb s.reg.a (v + of_bool carry) = ground arith in
    (
      f',
      simp flag_upd_lem (ap (λ (t : ℕ). ok (t, with_af s s.reg.a f')) low),
      simp flag_laws (λ i. record {
        zero = low i == 0;
        subtract = true;
        half_carry = half_carry_sub s.reg.a v (of_bool carry) ha hv bound i;
        carry = negative i;
      }),
    )

-- The carry flag, as a number.
abbrev pub carry_in : Ctx → ℕ
carry_in s = of_bool (flags_of s.reg.f).carry

-- `m` returns with the accumulator `a` and the flags `flags`, and changes nothing else.
abbrev pub Gives : M (Unit {0}) → Ctx → ℕ → Flags → Type 0
Gives m s a flags = (f' : ℕ) × (m s ≡ ok (tt, with_af s a f')) × (flags_of f' ≡ flags)

-- `alu_add` puts the sum of the accumulator and the operand modulo 256 into the accumulator, and
-- `alu_adc` the sum with the carry flag too. Z tells that the result is zero, N is cleared, H is the
-- carry out of the low halves and C the carry out of the byte; nothing else changes.
pub alu_add-alu_adc :
    (v : ℕ) (s : Ctx)
    → Gives (alu_add v) s ((s.reg.a + v) % 256) (add_flags s.reg.a v 0)
      × Gives (alu_adc v) s ((s.reg.a + v + carry_in s) % 256) (add_flags s.reg.a v (carry_in s))
unfolding alu_add alu_adc
alu_add-alu_adc v s =
    let (f₀, p₀, q₀) = alu_add_op_lem v false s in
    let (f₁, p₁, q₁) = alu_add_op_lem v (flags_of s.reg.f).carry s in
    let plain : s.reg.a + v + 0 ≡ s.reg.a + v = omega arith in
    (
      (f₀, p₀ ∙ ap (λ (t : ℕ). ok (tt, with_af s (t % 256) f₀)) plain, q₀),
      (f₁, rw (test_carry s.reg.f) p₁, q₁),
    )

module _ (v : ℕ) (s : Ctx) (ha : s.reg.a < 256) (hv : v < 256) where
  sub_twice :
      (x : Bool)
      → u8 ((s.reg.a + 256 - v - of_bool x) % 256) ≡ (s.reg.a + 256 - v - of_bool x) % 256
  sub_twice x = omega arith

  -- For byte values, `alu_sub` puts the difference of the accumulator and the operand modulo 256 into
  -- the accumulator, `alu_sbc` takes the carry flag off too, and `alu_cp` leaves the accumulator as it
  -- is and sets the flags of `alu_sub`. Z tells that the result is zero, N is set, H is the borrow into
  -- the high halves and C the borrow into the byte; nothing else changes.
  pub alu_sub-alu_sbc-alu_cp :
      Gives (alu_sub v) s ((s.reg.a + 256 - v) % 256) (sub_flags s.reg.a v 0)
      × Gives
          (alu_sbc v)
          s
          ((s.reg.a + 256 - v - carry_in s) % 256)
          (sub_flags s.reg.a v (carry_in s))
      × Gives (alu_cp v) s s.reg.a (sub_flags s.reg.a v 0)
  unfolding alu_sub alu_sbc alu_cp
  alu_sub-alu_sbc-alu_cp =
      let (f₀, p₀, q₀) = alu_sub_op_lem v false s ha hv in
      let (f₁, p₁, q₁) = alu_sub_op_lem v (flags_of s.reg.f).carry s ha hv in
      let plain : (s.reg.a + 256 - v - 0) % 256 ≡ (s.reg.a + 256 - v) % 256 = omega arith in
      (
        (f₀, rw p₀ (ap (λ (t : ℕ). ok (tt, with_af s t f₀)) (sub_twice false ∙ plain)), q₀),
        (
          f₁,
          rw (test_carry s.reg.f, p₁) (ap (λ (t : ℕ). ok (tt, with_af s t f₁)) (sub_twice _)),
          q₁,
        ),
        (f₀, rw p₀ refl, q₀),
      )
