-- ===== src/Cpu/Daa.antt =====
-- `op_daa` of core/src/cpu.c: decimal adjustment after an addition or subtraction of two-digit
-- decimal numbers.
use agoge.Prelude.{
  ℕ, ◌+◌, ◌-◌, ◌*◌, ◌/◌, ◌%◌, ◌<◌, ◌≡◌, refl, ap, ◌∙◌, Bool, true, false, ltb, leb, ◌==◌, nonzero,
  if◌then◌else◌, bit_and, arith, u8,
}
use agoge.Prelude.Bits.{bit_and-low_half}
use agoge.Ctx.{Ctx}
use agoge.Step.{ok, M, ◌>>◌}
use agoge.Cpu.Flags.{
  Flags, flags_of, upd, flag_upd_lem, flag_laws, test_carry, test_half_carry, test_subtract,
}
use agoge.Cpu.Arith.{daa_val, op_daa, alu_adc, alu_sbc}
use agoge.Cpu.AddSub.{
  Gives, with_af, carry_in, add_flags, sub_flags, alu_add-alu_adc, alu_sub-alu_sbc-alu_cp,
}

-- Two decimal digits in the two halves of a byte.
abbrev pub bcd : ℕ → ℕ
bcd x = x / 10 * 16 + x % 10

-- The accumulator after the adjustment, by what it adds or takes off.
abbrev adjusted : Bool → ℕ → ℕ → ℕ
adjusted subtract a val = u8 (if subtract then a + 256 - val else a + val)

abbrev daa_flags : Flags → ℕ → Flags
daa_flags fl a =
    let val = daa_val fl.subtract fl.half_carry fl.carry a in
    record {
      zero = adjusted fl.subtract a val == 0;
      subtract = fl.subtract;
      half_carry = false;
      carry = nonzero (bit_and val 0x60);
    }

op_daa_lem :
    (s : Ctx) (fl : Flags)
    → flags_of s.reg.f ≡ fl
    → Gives op_daa s
        (adjusted fl.subtract s.reg.a (daa_val fl.subtract fl.half_carry fl.carry s.reg.a))
        (daa_flags fl s.reg.a)
unfolding op_daa upd
op_daa_lem s fl e =
    let val = daa_val fl.subtract fl.half_carry fl.carry s.reg.a in
    let res = adjusted fl.subtract s.reg.a val in
    (
      upd (upd (upd s.reg.f 0x80 (res == 0)) 0x10 (nonzero (bit_and val 0x60))) 0x20 false,
      simp (test_subtract, test_half_carry, test_carry, e, flag_upd_lem),
      simp (flag_laws, e),
    )

-- After an addition of two decimal numbers with a carry `c`, the adjustment makes the sum decimal.
add_adjust :
    (x y c : ℕ)
    → x < 100
    → y < 100
    → c < 2
    → let fl = add_flags (bcd x) (bcd y) c in
      let a = (bcd x + bcd y + c) % 256 in
      let val = daa_val false fl.half_carry fl.carry a in
      ((a + val) % 256 ≡ bcd ((x + y + c) % 100))
      × (nonzero (bit_and val 0x60) ≡ leb 100 (x + y + c))
unfolding daa_val
add_adjust x y c hx hy hc = ground (arith, bit_and-low_half ((bcd x + bcd y + c) % 256))

sub_adjust :
    (x y c : ℕ)
    → x < 100
    → y < 100
    → c < 2
    → let fl = sub_flags (bcd x) (bcd y) c in
      let a = (bcd x + 256 - bcd y - c) % 256 in
      let val = daa_val true fl.half_carry fl.carry a in
      ((a + 256 - val) % 256 ≡ bcd ((x + 100 - y - c) % 100))
      × (nonzero (bit_and val 0x60) ≡ ltb x (y + c))
unfolding daa_val
sub_adjust x y c hx hy hc = ground arith

-- Two actions in turn, the first of which returns.
Gives-then :
    (m k : M (Unit {0})) (s : Ctx) (a a' : ℕ) (fl fl' : Flags)
    → Gives m s a fl
    → ((t : Ctx) → t.reg.a ≡ a → flags_of t.reg.f ≡ fl → Gives k t a' fl')
    → Gives (m >> k) s a' fl'
Gives-then m k s a a' fl fl' (f₁, p, q) g =
    let (f₂, p₂, q₂) = g (with_af s a f₁) refl q in (f₂, rw p p₂, q₂)

-- The flags after an adjusted sum or difference: C tells that it left the range 0 to 99.
abbrev pub decimal_flags : Bool → ℕ → Bool → Flags
decimal_flags subtract res carry = record {
  zero = res == 0;
  subtract = subtract;
  half_carry = false;
  carry = carry;
}

bcd_zero : (x : ℕ) → x < 100 → (bcd x == 0) ≡ (x == 0)
bcd_zero x h = ground arith

carry_in-lt : (s : Ctx) → carry_in s < 2
carry_in-lt s = ground arith

-- From what the adjustment computes to the decimal result.
adjusted-Gives :
    (t : Ctx) (fl : Flags) (a r : ℕ) (carry : Bool)
    → r < 100
    → t.reg.a ≡ a
    → flags_of t.reg.f ≡ fl
    → adjusted fl.subtract a (daa_val fl.subtract fl.half_carry fl.carry a) ≡ bcd r
    → nonzero (bit_and (daa_val fl.subtract fl.half_carry fl.carry a) 0x60) ≡ carry
    → Gives op_daa t (bcd r) (decimal_flags fl.subtract r carry)
adjusted-Gives t fl a r carry lt ea ef sum over =
    let (f', p, q) = op_daa_lem t fl ef in
    let val : ℕ → ℕ = λ x. daa_val fl.subtract fl.half_carry fl.carry x in
    let e : adjusted fl.subtract t.reg.a (val t.reg.a) ≡ bcd r =
      ap (λ x. adjusted fl.subtract x (val x)) ea ∙ sum in
    let z : (adjusted fl.subtract t.reg.a (val t.reg.a) == 0) ≡ (r == 0) =
      ap (λ x. x == 0) e ∙ bcd_zero r lt in
    let k : nonzero (bit_and (val t.reg.a) 0x60) ≡ carry =
      ap (λ x. nonzero (bit_and (val x) 0x60)) ea ∙ over in
    (
      f',
      p ∙ ap (λ x. ok (tt, with_af t x f')) e,
      q ∙ (λ i. record { zero = z i; subtract = fl.subtract; half_carry = false; carry = k i }),
    )

daa_add :
    (x y c : ℕ)
    → x < 100
    → y < 100
    → c < 2
    → (t : Ctx) → t.reg.a ≡ (bcd x + bcd y + c) % 256
    → flags_of t.reg.f ≡ add_flags (bcd x) (bcd y) c
    → Gives op_daa t
        (bcd ((x + y + c) % 100))
        (decimal_flags false ((x + y + c) % 100) (leb 100 (x + y + c)))
daa_add x y c hx hy hc t ea ef =
    let (sum, over) = add_adjust x y c hx hy hc in
    adjusted-Gives t (add_flags (bcd x) (bcd y) c) _ _ _ (omega arith) ea ef sum over

daa_sub :
    (x y c : ℕ)
    → x < 100
    → y < 100
    → c < 2
    → (t : Ctx) → t.reg.a ≡ (bcd x + 256 - bcd y - c) % 256
    → flags_of t.reg.f ≡ sub_flags (bcd x) (bcd y) c
    → Gives op_daa t
        (bcd ((x + 100 - y - c) % 100))
        (decimal_flags true ((x + 100 - y - c) % 100) (ltb x (y + c)))
daa_sub x y c hx hy hc t ea ef =
    let (sum, over) = sub_adjust x y c hx hy hc in
    adjusted-Gives t (sub_flags (bcd x) (bcd y) c) _ _ _ (omega arith) ea ef sum over

module _ (x y : ℕ) (hx : x < 100) (hy : y < 100) (s : Ctx) (ea : s.reg.a ≡ bcd x) where
  -- For two decimal numbers below 100, two digits to a byte, with `x` in the accumulator: `adc y` and
  -- then `daa` leave the decimal sum of `x`, `y` and the carry flag modulo 100, and C tells that the sum
  -- passed 99.
  pub op_daa-alu_adc :
      Gives
        (alu_adc (bcd y) >> op_daa)
        s
        (bcd ((x + y + carry_in s) % 100))
        (decimal_flags false ((x + y + carry_in s) % 100) (leb 100 (x + y + carry_in s)))
  op_daa-alu_adc =
      let c : ℕ = carry_in s in
      let bound : c < 2 = carry_in-lt s in
      Gives-then (alu_adc (bcd y)) op_daa s _ _ _ _ (alu_add-alu_adc (bcd y) s).1 λ t p q.
        daa_add x y c hx hy bound t (p ∙ ap (λ a. (a + bcd y + c) % 256) ea)
          (q ∙ ap (λ a. add_flags a (bcd y) c) ea)

  -- For two decimal numbers below 100, two digits to a byte, with `x` in the accumulator: `sbc y` and
  -- then `daa` leave the decimal difference of `x`, `y` and the carry flag modulo 100, and C tells that
  -- the difference passed below 0.
  pub op_daa-alu_sbc :
      Gives
        (alu_sbc (bcd y) >> op_daa)
        s
        (bcd ((x + 100 - y - carry_in s) % 100))
        (decimal_flags true ((x + 100 - y - carry_in s) % 100) (ltb x (y + carry_in s)))
  op_daa-alu_sbc =
      let c : ℕ = carry_in s in
      let bound : c < 2 = carry_in-lt s in
      let byte : s.reg.a < 256 = omega arith in
      Gives-then (alu_sbc (bcd y)) op_daa s _ _ _ _
        (alu_sub-alu_sbc-alu_cp (bcd y) s byte (omega arith)).1
        λ t p q.
          daa_sub x y c hx hy bound t (p ∙ ap (λ a. (a + 256 - bcd y - c) % 256) ea)
            (q ∙ ap (λ a. sub_flags a (bcd y) c) ea)
