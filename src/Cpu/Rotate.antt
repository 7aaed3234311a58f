-- ===== src/Cpu/Rotate.antt =====
-- The rotations, shifts and swap of core/src/cpu.c against arithmetic.
use agoge.Prelude.{
  ℕ, ◌+◌, ◌*◌, ◌/◌, ◌%◌, ◌<◌, ◌≡◌, refl, ap, ◌∙◌, Bool, true, false, ◌==◌, nonzero, of_bool,
  if◌then◌else◌, bit_and, bit_or, arith, u8, ◌<<<◌, ◌>>>◌, all_below, agree_below,
}
use agoge.Prelude.Bits.{bit_and-two_pow}
use agoge.Ctx.{Ctx}
use agoge.Step.{ok, M}
use agoge.Cpu.Flags.{
  Flags, flags_of, upd, flag_upd_lem, flag_laws, test_carry, flags_of-upd_subtract_half_carry,
}
use agoge.Cpu.Alu.{alu_rlc, alu_rrc, alu_rl, alu_rr, alu_sla, alu_sra, alu_srl, alu_swap}

-- `m` returns `v` with the flags `flags`, and changes nothing else.
abbrev pub Returns : M ℕ → Ctx → ℕ → Flags → Type 0
Returns m s v flags =
    (f' : ℕ) × (m s ≡ ok (v, record s { reg = record s.reg { f = f' } })) × (flags_of f' ≡ flags)

-- The flags after a shift: the result is zero, and the bit that was shifted out.
abbrev pub shift_flags : ℕ → ℕ → Flags
shift_flags res out = record {
  zero = res == 0;
  subtract = false;
  half_carry = false;
  carry = out == 1;
}

Returns-flags :
    (m : M ℕ) (s : Ctx) (raw res out f' : ℕ) (rc : Bool)
    → m s ≡ ok (raw, record s { reg = record s.reg { f = f' } })
    → flags_of f' ≡ record { zero = raw == 0; subtract = false; half_carry = false; carry = rc }
    → raw ≡ res
    → rc ≡ (out == 1)
    → Returns m s res (shift_flags res out)
Returns-flags m s raw res out f' rc p q e k = (
  f',
  p ∙ ap (λ (t : ℕ). ok (t, record s { reg = record s.reg { f = f' } })) e,
  q ∙ (λ i. record { zero = e i == 0; subtract = false; half_carry = false; carry = k i }),
)

-- Bit 7 and bit 0 of a byte.
top_bit : (v : ℕ) → v < 256 → nonzero (bit_and v 0x80) ≡ (v / 128 == 1)
top_bit v h = ground (arith, bit_and-two_pow 7 v)

low_bit : (v : ℕ) → nonzero (bit_and v 1) ≡ (v % 2 == 1)
low_bit v = ground (arith, bit_and-two_pow 0 v)

abbrev cleared : Ctx → ℕ
cleared s = upd s.reg.f 0x60 false

abbrev carry_then_zero : Ctx → Bool → ℕ → ℕ
carry_then_zero s rc raw = upd (upd (cleared s) 0x10 rc) 0x80 (raw == 0)

-- The flags after the updates of C and Z, in either order.
carry_then_zero_flags :
    (s : Ctx) (rc : Bool) (raw : ℕ)
    → flags_of (carry_then_zero s rc raw)
      ≡ record { zero = raw == 0; subtract = false; half_carry = false; carry = rc }
carry_then_zero_flags s rc raw = simp flag_laws

zero_then_carry_flags :
    (s : Ctx) (rc : Bool) (raw : ℕ)
    → flags_of (upd (upd (cleared s) 0x80 (raw == 0)) 0x10 rc)
      ≡ record { zero = raw == 0; subtract = false; half_carry = false; carry = rc }
zero_then_carry_flags s rc raw = simp flag_laws

zero_only_flags :
    (x : Bool)
    → flags_of (u8 (if x then 0x80 else 0x00))
      ≡ record { zero = x; subtract = false; half_carry = false; carry = false }
unfolding flags_of
zero_only_flags true = refl
zero_only_flags false = refl

-- The carry is read behind `f &= ~(N | H)`, which leaves it.
carry_kept : (f : ℕ) → nonzero (bit_and (bit_and f 0x9F) 0x10) ≡ (flags_of f).carry
unfolding upd
carry_kept f =
    test_carry (bit_and f 0x9F) ∙ ap (λ fl. fl.carry) (flags_of-upd_subtract_half_carry f false)

abbrev carry_of : Ctx → Bool
carry_of s = (flags_of s.reg.f).carry

module _ (v : ℕ) (s : Ctx) (hv : v < 256) where
  alu_rlc_raw : u8 (bit_or (v <<< 1) (v >>> 7)) ≡ v % 128 * 2 + v / 128
  unfolding all_below
  alu_rlc_raw =
      agree_below 256 (λ v. u8 (bit_or (v <<< 1) (v >>> 7))) (λ v. v % 128 * 2 + v / 128) v refl hv

  alu_rlc_lem :
      Returns (alu_rlc v) s (v % 128 * 2 + v / 128) (shift_flags (v % 128 * 2 + v / 128) (v / 128))
  unfolding alu_rlc upd
  alu_rlc_lem =
      Returns-flags (alu_rlc v) s (u8 (bit_or (v <<< 1) (v >>> 7))) (v % 128 * 2 + v / 128)
        (v / 128) (carry_then_zero s (nonzero (bit_and v 0x80)) (u8 (bit_or (v <<< 1) (v >>> 7))))
        (nonzero (bit_and v 0x80)) (simp flag_upd_lem)
        (carry_then_zero_flags s (nonzero (bit_and v 0x80)) (u8 (bit_or (v <<< 1) (v >>> 7))))
        alu_rlc_raw (top_bit v hv)

  alu_rrc_raw : u8 (bit_or (v >>> 1) (v <<< 7)) ≡ v / 2 + v % 2 * 128
  unfolding all_below
  alu_rrc_raw =
      agree_below 256 (λ v. u8 (bit_or (v >>> 1) (v <<< 7))) (λ v. v / 2 + v % 2 * 128) v refl hv

  alu_rrc_lem :
      Returns (alu_rrc v) s (v / 2 + v % 2 * 128) (shift_flags (v / 2 + v % 2 * 128) (v % 2))
  unfolding alu_rrc upd
  alu_rrc_lem =
      Returns-flags (alu_rrc v) s (u8 (bit_or (v >>> 1) (v <<< 7))) (v / 2 + v % 2 * 128) (v % 2)
        (carry_then_zero s (nonzero (bit_and v 1)) (u8 (bit_or (v >>> 1) (v <<< 7))))
        (nonzero (bit_and v 1)) (simp flag_upd_lem)
        (carry_then_zero_flags s (nonzero (bit_and v 1)) (u8 (bit_or (v >>> 1) (v <<< 7))))
        alu_rrc_raw (low_bit v)

  alu_sla_raw : u8 (v <<< 1) ≡ v * 2 % 256
  unfolding all_below
  alu_sla_raw = agree_below 256 (λ v. u8 (v <<< 1)) (λ v. v * 2 % 256) v refl hv

  alu_sla_lem : Returns (alu_sla v) s (v * 2 % 256) (shift_flags (v * 2 % 256) (v / 128))
  unfolding alu_sla upd
  alu_sla_lem =
      Returns-flags (alu_sla v) s (u8 (v <<< 1)) (v * 2 % 256) (v / 128)
        (carry_then_zero s (nonzero (bit_and v 0x80)) (u8 (v <<< 1))) (nonzero (bit_and v 0x80))
        (simp flag_upd_lem) (carry_then_zero_flags s (nonzero (bit_and v 0x80)) (u8 (v <<< 1)))
        alu_sla_raw (top_bit v hv)

  alu_sra_raw : u8 (bit_or (v >>> 1) (bit_and v 0x80)) ≡ v / 2 + v / 128 * 128
  unfolding all_below
  alu_sra_raw =
      agree_below 256 (λ v. u8 (bit_or (v >>> 1) (bit_and v 0x80))) (λ v. v / 2 + v / 128 * 128) v
        refl hv

  alu_sra_lem :
      Returns (alu_sra v) s (v / 2 + v / 128 * 128) (shift_flags (v / 2 + v / 128 * 128) (v % 2))
  unfolding alu_sra upd
  alu_sra_lem =
      Returns-flags (alu_sra v) s (u8 (bit_or (v >>> 1) (bit_and v 0x80))) (v / 2 + v / 128 * 128)
        (v % 2) (carry_then_zero s (nonzero (bit_and v 1)) (u8 (bit_or (v >>> 1) (bit_and v 0x80))))
        (nonzero (bit_and v 1)) (simp flag_upd_lem)
        (carry_then_zero_flags s (nonzero (bit_and v 1)) (u8 (bit_or (v >>> 1) (bit_and v 0x80))))
        alu_sra_raw (low_bit v)

  alu_rl_raw : (x : Bool) → u8 (bit_or (v <<< 1) (of_bool x)) ≡ v % 128 * 2 + of_bool x
  unfolding all_below
  alu_rl_raw true = agree_below 256 (λ v. u8 (bit_or (v <<< 1) 1)) (λ v. v % 128 * 2 + 1) v refl hv
  alu_rl_raw false = agree_below 256 (λ v. u8 (bit_or (v <<< 1) 0)) (λ v. v % 128 * 2 + 0) v refl hv

  alu_rl_lem :
      Returns
        (alu_rl v)
        s
        (v % 128 * 2 + of_bool (carry_of s))
        (shift_flags (v % 128 * 2 + of_bool (carry_of s)) (v / 128))
  unfolding alu_rl upd
  alu_rl_lem =
      let raw = u8 (bit_or (v <<< 1) (of_bool (carry_of s))) in
      Returns-flags (alu_rl v) s raw _ _ (carry_then_zero s (nonzero (bit_and v 0x80)) raw)
        (nonzero (bit_and v 0x80)) (simp (carry_kept, flag_upd_lem))
        (carry_then_zero_flags s (nonzero (bit_and v 0x80)) raw) (alu_rl_raw (carry_of s))
        (top_bit v hv)

  alu_rr_raw : (x : Bool) → u8 (bit_or (v >>> 1) (of_bool x <<< 7)) ≡ v / 2 + of_bool x * 128
  unfolding all_below
  alu_rr_raw true =
      agree_below 256 (λ v. u8 (bit_or (v >>> 1) (1 <<< 7))) (λ v. v / 2 + 1 * 128) v refl hv
  alu_rr_raw false =
      agree_below 256 (λ v. u8 (bit_or (v >>> 1) (0 <<< 7))) (λ v. v / 2 + 0 * 128) v refl hv

  alu_rr_lem :
      Returns
        (alu_rr v)
        s
        (v / 2 + of_bool (carry_of s) * 128)
        (shift_flags (v / 2 + of_bool (carry_of s) * 128) (v % 2))
  unfolding alu_rr upd
  alu_rr_lem =
      let raw = u8 (bit_or (v >>> 1) (of_bool (carry_of s) <<< 7)) in
      Returns-flags (alu_rr v) s raw _ _ (carry_then_zero s (nonzero (bit_and v 1)) raw)
        (nonzero (bit_and v 1)) (simp (carry_kept, flag_upd_lem))
        (carry_then_zero_flags s (nonzero (bit_and v 1)) raw) (alu_rr_raw (carry_of s)) (low_bit v)

  alu_srl_lem : Returns (alu_srl v) s (v / 2) (shift_flags (v / 2) (v % 2))
  unfolding alu_srl upd
  alu_srl_lem =
      Returns-flags (alu_srl v) s (v >>> 1) (v / 2) (v % 2)
        (upd (upd (cleared s) 0x80 (v / 2 == 0)) 0x10 (nonzero (bit_and v 1)))
        (nonzero (bit_and v 1)) (simp flag_upd_lem)
        (zero_then_carry_flags s (nonzero (bit_and v 1)) (v / 2)) refl (low_bit v)

  alu_swap_raw : u8 (bit_or (bit_and v 0x0F <<< 4) (v >>> 4)) ≡ v % 16 * 16 + v / 16
  unfolding all_below
  alu_swap_raw =
      agree_below 256 (λ v. u8 (bit_or (bit_and v 0x0F <<< 4) (v >>> 4)))
        (λ v. v % 16 * 16 + v / 16) v refl hv

  alu_swap_lem :
      Returns (alu_swap v) s (v % 16 * 16 + v / 16) (shift_flags (v % 16 * 16 + v / 16) 0)
  unfolding alu_swap
  alu_swap_lem =
      let raw = u8 (bit_or (bit_and v 0x0F <<< 4) (v >>> 4)) in
      Returns-flags (alu_swap v) s raw _ 0 (u8 (if raw == 0 then 0x80 else 0x00)) false refl
        (zero_only_flags (raw == 0)) alu_swap_raw refl

  -- A rotation of a byte gives the byte turned by one place, through the carry flag (`alu_rl`, `alu_rr`)
  -- or past it (`alu_rlc`, `alu_rrc`). Z tells that the result is zero, C is the bit that left the byte,
  -- N and H are cleared; nothing else changes.
  pub rotations :
      Returns (alu_rlc v) s (v % 128 * 2 + v / 128) (shift_flags (v % 128 * 2 + v / 128) (v / 128))
      × Returns (alu_rrc v) s (v / 2 + v % 2 * 128) (shift_flags (v / 2 + v % 2 * 128) (v % 2))
      × Returns
          (alu_rl v)
          s
          (v % 128 * 2 + of_bool (carry_of s))
          (shift_flags (v % 128 * 2 + of_bool (carry_of s)) (v / 128))
      × Returns
          (alu_rr v)
          s
          (v / 2 + of_bool (carry_of s) * 128)
          (shift_flags (v / 2 + of_bool (carry_of s) * 128) (v % 2))
  rotations = (alu_rlc_lem, alu_rrc_lem, alu_rl_lem, alu_rr_lem)

  -- A shift of a byte doubles it modulo 256, or halves it, with the sign kept (`alu_sra`) or not
  -- (`alu_srl`); `alu_swap` exchanges its halves. Z tells that the result is zero, C is the bit that left
  -- the byte, and for `alu_swap` cleared, N and H are cleared; nothing else changes.
  pub shifts :
      Returns (alu_sla v) s (v * 2 % 256) (shift_flags (v * 2 % 256) (v / 128))
      × Returns (alu_sra v) s (v / 2 + v / 128 * 128) (shift_flags (v / 2 + v / 128 * 128) (v % 2))
      × Returns (alu_srl v) s (v / 2) (shift_flags (v / 2) (v % 2))
      × Returns (alu_swap v) s (v % 16 * 16 + v / 16) (shift_flags (v % 16 * 16 + v / 16) 0)
  shifts = (alu_sla_lem, alu_sra_lem, alu_srl_lem, alu_swap_lem)
