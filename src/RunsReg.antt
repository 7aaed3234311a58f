-- ===== src/RunsReg.antt =====
-- Validity of the context under register and flag accesses.
use agoge.Prelude.{
  ℕ, ◌+◌, ◌*◌, ◌/◌, ◌%◌, ◌≡◌, refl, Bool, true, ◌&&◌, ◌==◌, ltb, if◌then◌else◌, arith, bit_and,
  bit_or, bit_xor, not8, nonzero, all_below, holds_below, u8,
}
use agoge.Prelude.Bits.{bit_at-and}
use agoge.Ctx.{Reg}
use agoge.Cpu.Reg.{
  Reg8, reg_b, Reg16, reg_bc, get8, get16, set8, wr8, rd8, rd16, wr16, set16, rd_f, wr_f, rd_af,
  wr_af, flags_set, flags_clear, flag_test, flag_upd, flag_zero_upd, cpu_flag_carry, cpu_flag_zero,
}
use agoge.Step.{◌>>=◌}
use agoge.Valid.{IsReg}
use agoge.Runs.{Runs, Runs-modify_reg, Runs-gets, Runs-if}

pub Runs-rd8 : (n : ℕ) (x : Reg8) → Runs n (rd8 x)
unfolding rd8
Runs-rd8 n x = Runs-gets n (get8 x)

pub Runs-rd16 : (n : ℕ) (x : Reg16) → Runs n (rd16 x)
unfolding rd16
Runs-rd16 n x = Runs-gets n (get16 x)

pub Runs-rd_f : (n : ℕ) → Runs n rd_f
unfolding rd_f
Runs-rd_f n = Runs-gets n (λ r. r.f)

pub Runs-rd_af : (n : ℕ) → Runs n rd_af
unfolding rd_af
Runs-rd_af n = Runs-gets n (λ r. r.a * 256 + r.f)

pub Runs-flag_test : (n flag : ℕ) → Runs n (flag_test flag)
unfolding flag_test
Runs-flag_test n flag = Runs-gets n (λ r. nonzero (bit_and r.f flag))

set8-IsReg : (x : Reg8) (v : ℕ) (r : Reg) → IsReg r → IsReg (set8 x v r)
unfolding set8
set8-IsReg reg_b v r h = omega arith
set8-IsReg _ v r h = omega arith

set16-IsReg : (x : Reg16) (v : ℕ) (r : Reg) → IsReg r → IsReg (set16 x v r)
unfolding set16
set16-IsReg reg_bc v r h = omega arith
set16-IsReg _ v r h = omega arith

pub Runs-wr8 : (n : ℕ) (x : Reg8) (v : ℕ) → Runs n (wr8 x v)
unfolding wr8
Runs-wr8 n x v = Runs-modify_reg n (set8 x v) (set8-IsReg x v)

pub Runs-wr16 : (n : ℕ) (x : Reg16) (v : ℕ) → Runs n (wr16 x v)
unfolding wr16
Runs-wr16 n x v = Runs-modify_reg n (set16 x v) (set16-IsReg x v)

-- A byte whose low half is zero.
abbrev pub is_flags : ℕ → Bool
is_flags f = ltb f 256 && (f % 16 == 0)

abbrev pub flags_closed : ℕ → ℕ → Bool
flags_closed f g = is_flags (bit_or f g) && is_flags (bit_and f (not8 g)) && is_flags (bit_xor f g)

flags_table : all_below 256 (λ x. flags_closed (x / 16 * 16) (x % 16 * 16)) ≡ true
unfolding all_below
flags_table = refl

pub flags_closed_lem : (f g : ℕ) → is_flags f ≡ true → is_flags g ≡ true → flags_closed f g ≡ true
flags_closed_lem f g hf hg =
    let at =
      holds_below (λ x. flags_closed (x / 16 * 16) (x % 16 * 16)) (f + g / 16) 256 (ground arith)
        flags_table in
    let ef : (f + g / 16) / 16 * 16 ≡ f = ground arith in
    let eg : (f + g / 16) % 16 * 16 ≡ g = ground arith in rw (ef, eg) at at

module _ (n : ℕ) where
  pub Runs-flags_set : (g : ℕ) → is_flags g ≡ true → Runs n (flags_set g)
  unfolding flags_set
  Runs-flags_set g hg = Runs-modify_reg n _ (λ r h. ground (arith, flags_closed_lem r.f g))

  pub Runs-flags_clear : (g : ℕ) → is_flags g ≡ true → Runs n (flags_clear g)
  unfolding flags_clear
  Runs-flags_clear g hg = Runs-modify_reg n _ (λ r h. ground (arith, flags_closed_lem r.f g))

  pub Runs-flag_upd : (g : ℕ) (x : Bool) → is_flags g ≡ true → Runs n (flag_upd g x)
  unfolding flag_upd
  Runs-flag_upd g x hg =
      Runs-if n x (flags_set g) (flags_clear g) (Runs-flags_set g hg) (Runs-flags_clear g hg)

  pub Runs-flag_zero_upd : (v : ℕ) → Runs n (flag_zero_upd v)
  unfolding flag_zero_upd
  Runs-flag_zero_upd v = Runs-flag_upd cpu_flag_zero _ refl

  pub Runs-wr_f :
      (x : Bool) (f g : ℕ)
      → is_flags f ≡ true
      → is_flags g ≡ true
      → Runs n (wr_f (if x then f else g))
  unfolding wr_f
  Runs-wr_f x f g hf hg = Runs-modify_reg n _ (λ r h. ground arith)

  -- `f ^= CPU_FLAG_CARRY`
  pub Runs-f_xor_carry : Runs n (do f ← rd_f; wr_f (bit_xor f cpu_flag_carry))
  unfolding rd_f wr_f
  Runs-f_xor_carry =
      Runs-modify_reg n (λ r. record r { f = u8 (bit_xor r.f cpu_flag_carry) })
        (λ r h. ground (arith, flags_closed_lem r.f cpu_flag_carry))

  pub Runs-wr_af_masked : (v : ℕ) → Runs n (wr_af (bit_and v 0xFFF0))
  unfolding wr_af
  Runs-wr_af_masked v = Runs-modify_reg n _ (λ r h. omega (
    arith,
    bit_at-and 0 v 0xFFF0,
    bit_at-and 1 v 0xFFF0,
    bit_at-and 2 v 0xFFF0,
    bit_at-and 3 v 0xFFF0,
  ))
