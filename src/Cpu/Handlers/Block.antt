-- ===== src/Cpu/Handlers/Block.antt =====
-- The handlers of the opcodes 0x40 to 0xBF and of the CB table: `agoge_core_cpu_run` of
-- core/src/cpu.c.
use agoge.Prelude.{ℕ, ◌^◌, not8, bit_and, bit_or}
use agoge.Step.{M, ◌>>=◌}
use agoge.Bus.{bus_read, bus_write}
use agoge.Cpu.Reg.{reg_hl, rd8, wr8, rd16}
use agoge.Cpu.Alu.{
  alu_rr, alu_rlc, alu_rrc, alu_rl, alu_rr, alu_sla, alu_sra, alu_swap, alu_srl, alu_rlc_mem_hl,
  alu_rrc_mem_hl, alu_rl_mem_hl, alu_rr_mem_hl, alu_sla_mem_hl, alu_sra_mem_hl, alu_swap_mem_hl,
  alu_srl_mem_hl,
}
use agoge.Cpu.Arith.{
  alu_add, alu_adc, alu_sub, alu_sbc, alu_and, alu_xor, alu_or, alu_cp, alu_bit, alu_res_hl,
  alu_set_hl,
}
use agoge.Cpu.Op.{
  Operand, AluOp, ShiftOp, CbOp, reg, mem_hl, add_a, adc_a, sub_a, sbc_a, and_a, xor_a, or_a, cp_a,
  rlc, rrc, rl, rr, sla, sra, swap, srl, shift, bit, res, set,
}

unfoldable pub read_operand : Operand → M ℕ
unfolding rd8 rd16 bus_read
read_operand (reg x) = rd8 x
read_operand mem_hl = do from ← rd16 reg_hl; bus_read from

unfoldable pub write_operand : Operand → ℕ → M (Unit {0})
unfolding wr8 rd16 bus_write
write_operand (reg x) v = wr8 x v
write_operand mem_hl v = do to ← rd16 reg_hl; bus_write to v

-- The labels `ld_b_b` to `ld_a_a`.
unfoldable pub exec_ld : Operand → Operand → M (Unit {0})
unfolding read_operand write_operand
exec_ld x y = do v ← read_operand y; write_operand x v

unfoldable pub alu_op : AluOp → ℕ → M (Unit {0})
unfolding alu_add alu_adc alu_sub alu_sbc alu_and alu_xor alu_or alu_cp
alu_op add_a v = alu_add v
alu_op adc_a v = alu_adc v
alu_op sub_a v = alu_sub v
alu_op sbc_a v = alu_sbc v
alu_op and_a v = alu_and v
alu_op xor_a v = alu_xor v
alu_op or_a v = alu_or v
alu_op cp_a v = alu_cp v

-- The labels `add_a_b` to `cp_a_a`.
unfoldable pub exec_alu : AluOp → Operand → M (Unit {0})
unfolding alu_op read_operand
exec_alu op y = do v ← read_operand y; alu_op op v

-- The helper that a label of the shift rows calls with a register, and the one for `(HL)`.
unfoldable pub alu_shift : ShiftOp → ℕ → M ℕ
unfolding alu_rlc alu_rrc alu_rl alu_rr alu_sla alu_sra alu_swap alu_srl
alu_shift rlc v = alu_rlc v
alu_shift rrc v = alu_rrc v
alu_shift rl v = alu_rl v
alu_shift rr v = alu_rr v
alu_shift sla v = alu_sla v
alu_shift sra v = alu_sra v
alu_shift swap v = alu_swap v
alu_shift srl v = alu_srl v

unfoldable pub alu_shift_mem_hl : ShiftOp → M (Unit {0})
unfolding alu_rlc_mem_hl alu_rrc_mem_hl alu_rl_mem_hl alu_rr_mem_hl alu_sla_mem_hl alu_sra_mem_hl
    alu_swap_mem_hl alu_srl_mem_hl
alu_shift_mem_hl rlc = alu_rlc_mem_hl
alu_shift_mem_hl rrc = alu_rrc_mem_hl
alu_shift_mem_hl rl = alu_rl_mem_hl
alu_shift_mem_hl rr = alu_rr_mem_hl
alu_shift_mem_hl sla = alu_sla_mem_hl
alu_shift_mem_hl sra = alu_sra_mem_hl
alu_shift_mem_hl swap = alu_swap_mem_hl
alu_shift_mem_hl srl = alu_srl_mem_hl

-- The labels `rlc_b` to `srl_a`.
unfoldable pub exec_shift : ShiftOp → Operand → M (Unit {0})
unfolding rd8 wr8 alu_shift alu_shift_mem_hl
exec_shift op (reg x) = do v ← rd8 x; new ← alu_shift op v; wr8 x new
exec_shift op mem_hl = alu_shift_mem_hl op

-- The labels `bit_0_b` to `bit_7_a`.
unfoldable pub exec_bit : ℕ → Operand → M (Unit {0})
unfolding read_operand alu_bit
exec_bit n y = do v ← read_operand y; alu_bit n v

-- The labels `res_0_b` to `res_7_a`.
unfoldable pub exec_res : ℕ → Operand → M (Unit {0})
unfolding rd8 wr8 alu_res_hl
exec_res n (reg x) = do v ← rd8 x; wr8 x (bit_and v (not8 (2 ^ n)))
exec_res n mem_hl = alu_res_hl n

-- The labels `set_0_b` to `set_7_a`.
unfoldable pub exec_set : ℕ → Operand → M (Unit {0})
unfolding rd8 wr8 alu_set_hl
exec_set n (reg x) = do v ← rd8 x; wr8 x (bit_or v (2 ^ n))
exec_set n mem_hl = alu_set_hl n

unfoldable pub exec_cb : CbOp → M (Unit {0})
unfolding exec_shift exec_bit exec_res exec_set
exec_cb (shift op y) = exec_shift op y
exec_cb (bit n y) = exec_bit n y
exec_cb (res n y) = exec_res n y
exec_cb (set n y) = exec_set n y
