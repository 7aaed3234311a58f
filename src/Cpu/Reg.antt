-- ===== src/Cpu/Reg.antt =====
-- The register file and the flags. An assignment to a register cuts the value to its width.
use agoge.Prelude.{
  ℕ, ◌+◌, ◌*◌, ◌/◌, Bool, ◌==◌, nonzero, if◌then◌else◌, u8, u16, not8, bit_and, bit_or,
}
use agoge.Ctx.{Reg}
use agoge.Step.{M, gets, modify_reg}

pub data Reg8 : Type 0 where
  reg_b reg_c reg_d reg_e reg_h reg_l reg_a : Reg8

pub data Reg16 : Type 0 where
  reg_bc reg_de reg_hl reg_sp reg_pc : Reg16

unfoldable pub get8 : Reg8 → Reg → ℕ
get8 reg_b r = r.b
get8 reg_c r = r.c
get8 reg_d r = r.d
get8 reg_e r = r.e
get8 reg_h r = r.h
get8 reg_l r = r.l
get8 reg_a r = r.a

unfoldable pub set8 : Reg8 → ℕ → Reg → Reg
set8 reg_b v r = record r { b = u8 v }
set8 reg_c v r = record r { c = u8 v }
set8 reg_d v r = record r { d = u8 v }
set8 reg_e v r = record r { e = u8 v }
set8 reg_h v r = record r { h = u8 v }
set8 reg_l v r = record r { l = u8 v }
set8 reg_a v r = record r { a = u8 v }

-- A pair is a union with its two halves; on a little-endian host the first is the low one.
unfoldable pub get16 : Reg16 → Reg → ℕ
get16 reg_bc r = r.b * 256 + r.c
get16 reg_de r = r.d * 256 + r.e
get16 reg_hl r = r.h * 256 + r.l
get16 reg_sp r = r.sp
get16 reg_pc r = r.pc

unfoldable pub set16 : Reg16 → ℕ → Reg → Reg
set16 reg_bc v r = record r { b = u16 v / 256; c = u8 v }
set16 reg_de v r = record r { d = u16 v / 256; e = u8 v }
set16 reg_hl v r = record r { h = u16 v / 256; l = u8 v }
set16 reg_sp v r = record r { sp = u16 v }
set16 reg_pc v r = record r { pc = u16 v }

unfoldable pub rd8 : Reg8 → M ℕ
unfolding get8
rd8 x = gets (λ s. get8 x s.reg)

unfoldable pub wr8 : Reg8 → ℕ → M (Unit {0})
unfolding set8
wr8 x v = modify_reg (set8 x v)

unfoldable pub rd16 : Reg16 → M ℕ
unfolding get16
rd16 x = gets (λ s. get16 x s.reg)

unfoldable pub wr16 : Reg16 → ℕ → M (Unit {0})
unfolding set16
wr16 x v = modify_reg (set16 x v)

unfoldable pub rd_f : M ℕ
rd_f = gets (λ s. s.reg.f)

unfoldable pub wr_f : ℕ → M (Unit {0})
wr_f v = modify_reg λ r. record r { f = u8 v }

unfoldable pub rd_af : M ℕ
rd_af = gets (λ s. s.reg.a * 256 + s.reg.f)

unfoldable pub wr_af : ℕ → M (Unit {0})
wr_af v = modify_reg λ r. record r { a = u16 v / 256; f = u8 v }

abbrev pub cpu_flag_zero : ℕ
cpu_flag_zero = 0x80

abbrev pub cpu_flag_subtract : ℕ
cpu_flag_subtract = 0x40

abbrev pub cpu_flag_half_carry : ℕ
cpu_flag_half_carry = 0x20

abbrev pub cpu_flag_carry : ℕ
cpu_flag_carry = 0x10

-- `f |= flags`
unfoldable pub flags_set : ℕ → M (Unit {0})
flags_set flags = modify_reg λ r. record r { f = bit_or r.f flags }

-- `f &= ~flags`
unfoldable pub flags_clear : ℕ → M (Unit {0})
flags_clear flags = modify_reg λ r. record r { f = bit_and r.f (not8 flags) }

-- `f & flag`, as a condition
unfoldable pub flag_test : ℕ → M Bool
flag_test flag = gets (λ s. nonzero (bit_and s.reg.f flag))

unfoldable pub flag_upd : ℕ → Bool → M (Unit {0})
unfolding flags_set flags_clear
flag_upd flag cond_met = if cond_met then flags_set flag else flags_clear flag

unfoldable pub flag_zero_upd : ℕ → M (Unit {0})
unfolding flag_upd
flag_zero_upd v = flag_upd cpu_flag_zero (v == 0)
