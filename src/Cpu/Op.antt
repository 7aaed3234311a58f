-- ===== src/Cpu/Op.antt =====
-- The instructions, named after the labels of `agoge_core_cpu_run` in core/src/cpu.c. The labels of
-- the regular blocks 0x40 to 0xBF and of the CB table are a constructor with its operands:
-- `ld (reg reg_b) mem_hl` is `ld_b_mem_hl`, and `bit 3 (reg reg_a)` is `bit_3_a`.
use agoge.Prelude.{ℕ}
use agoge.Cpu.Reg.{Reg8}

-- The last part of such a label.
pub data Operand : Type 0 where
  reg : Reg8 → Operand
  mem_hl : Operand

pub data AluOp : Type 0 where
  add_a adc_a sub_a sbc_a and_a xor_a or_a cp_a : AluOp

pub data ShiftOp : Type 0 where
  rlc rrc rl rr sla sra swap srl : ShiftOp

pub data Op0 : Type 0 where
  nop ld_bc_u16 ld_mem_bc_a inc_bc inc_b dec_b ld_b_u8 rlca ld_mem_u16_sp add_hl_bc ld_a_mem_bc :
      Op0
  dec_bc inc_c dec_c ld_c_u8 rrca : Op0

pub data Op1 : Type 0 where
  ld_de_u16 ld_mem_de_a inc_de inc_d dec_d ld_d_u8 rla jr_s8 add_hl_de ld_a_mem_de dec_de inc_e :
      Op1
  dec_e ld_e_u8 rra : Op1

pub data Op2 : Type 0 where
  jr_nz_s8 ld_hl_u16 ldi_mem_hl_a inc_hl inc_h dec_h ld_h_u8 daa jr_z_s8 add_hl_hl ldi_a_mem_hl :
      Op2
  dec_hl inc_l dec_l ld_l_u8 cpl : Op2

pub data Op3 : Type 0 where
  jr_nc_s8 ld_sp_u16 ldd_mem_hl_a inc_sp inc_mem_hl dec_mem_hl ld_mem_hl_u8 scf jr_c_s8 : Op3
  add_hl_sp ldd_a_mem_hl dec_sp inc_a dec_a ld_a_u8 ccf : Op3

pub data OpC : Type 0 where
  ret_nz pop_bc jp_nz_u16 jp_u16 call_nz_u16 push_bc add_a_u8 rst_00 ret_z ret jp_z_u16 : OpC

pub data OpD : Type 0 where
  call_z_u16 call_u16 adc_a_u8 rst_08 ret_nc pop_de jp_nc_u16 call_nc_u16 push_de sub_a_u8 : OpD
  rst_10 ret_c reti jp_c_u16 call_c_u16 sbc_a_u8 rst_18 : OpD

pub data OpE : Type 0 where
  ld_mem_ff00_u8_a pop_hl ld_mem_ff00_c_a push_hl and_a_u8 rst_20 add_sp_s8 jp_hl ld_mem_u16_a : OpE
  xor_a_u8 rst_28 : OpE

pub data OpF : Type 0 where
  ld_a_mem_ff00_u8 pop_af ld_a_mem_ff00_c di push_af or_a_u8 rst_30 ld_hl_sp_s8 ld_sp_hl : OpF
  ld_a_mem_u16 ei cp_a_u8 rst_38 : OpF

pub data Op : Type 0 where
  row_0 : Op0 → Op
  row_1 : Op1 → Op
  row_2 : Op2 → Op
  row_3 : Op3 → Op
  row_c : OpC → Op
  row_d : OpD → Op
  row_e : OpE → Op
  row_f : OpF → Op
  ld : Operand → Operand → Op
  alu : AluOp → Operand → Op
  prefix_cb : Op

pub data CbOp : Type 0 where
  shift : ShiftOp → Operand → CbOp
  bit : ℕ → Operand → CbOp
  res : ℕ → Operand → CbOp
  set : ℕ → Operand → CbOp
