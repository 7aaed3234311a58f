-- ===== src/Cpu/Handlers/Low.antt =====
-- The handlers of the opcodes 0x00 to 0x3F: `agoge_core_cpu_run` of core/src/cpu.c.
use agoge.Prelude.{◌+◌, true, not, not8, ◌>>>◌, bit_and, bit_or, bit_xor}
use agoge.Step.{M, pure, ◌>>=◌, ◌>>◌}
use agoge.Bus.{bus_read, bus_write}
use agoge.Cpu.Reg.{
  reg_b, reg_c, reg_d, reg_e, reg_h, reg_l, reg_a, reg_bc, reg_de, reg_hl, reg_sp, rd8, wr8, rd16,
  wr16, rd_f, wr_f, flags_set, flags_clear, flag_test, cpu_flag_zero, cpu_flag_subtract,
  cpu_flag_half_carry, cpu_flag_carry,
}
use agoge.Cpu.Alu.{
  read_u8, read_u16, clear_subtract_half_carry, alu_inc, alu_dec, alu_rlc_op, alu_rl_op, alu_rrc_op,
  alu_rr, alu_inc_mem_hl,
}
use agoge.Cpu.Arith.{alu_add_hl, op_daa}
use agoge.Cpu.Flow.{jr_if}
use agoge.Cpu.Op.{
  Op0, Op1, Op2, Op3, nop, ld_bc_u16, ld_mem_bc_a, inc_bc, inc_b, dec_b, ld_b_u8, rlca,
  ld_mem_u16_sp, add_hl_bc, ld_a_mem_bc, dec_bc, inc_c, dec_c, ld_c_u8, rrca, ld_de_u16,
  ld_mem_de_a, inc_de, inc_d, dec_d, ld_d_u8, rla, jr_s8, add_hl_de, ld_a_mem_de, dec_de, inc_e,
  dec_e, ld_e_u8, rra, jr_nz_s8, ld_hl_u16, ldi_mem_hl_a, inc_hl, inc_h, dec_h, ld_h_u8, daa,
  jr_z_s8, add_hl_hl, ldi_a_mem_hl, dec_hl, inc_l, dec_l, ld_l_u8, cpl, jr_nc_s8, ld_sp_u16,
  ldd_mem_hl_a, inc_sp, inc_mem_hl, dec_mem_hl, ld_mem_hl_u8, scf, jr_c_s8, add_hl_sp, ldd_a_mem_hl,
  dec_sp, inc_a, dec_a, ld_a_u8, ccf,
}

unfoldable pub exec_row_0 : Op0 → M (Unit {0})
unfolding alu_add_hl alu_dec alu_inc alu_rlc_op alu_rrc_op bus_read bus_write flags_clear rd16 rd8
    read_u16 read_u8 wr16 wr8
exec_row_0 nop = pure tt
exec_row_0 ld_bc_u16 = do v ← read_u16; wr16 reg_bc v
exec_row_0 ld_mem_bc_a = do to ← rd16 reg_bc; v ← rd8 reg_a; bus_write to v
exec_row_0 inc_bc = do v ← rd16 reg_bc; wr16 reg_bc (v + 1)
exec_row_0 inc_b = do v ← rd8 reg_b; res ← alu_inc v; wr8 reg_b res
exec_row_0 dec_b = do v ← rd8 reg_b; res ← alu_dec v; wr8 reg_b res
exec_row_0 ld_b_u8 = do v ← read_u8; wr8 reg_b v
exec_row_0 rlca = do v ← rd8 reg_a; res ← alu_rlc_op v; wr8 reg_a res; flags_clear cpu_flag_zero
exec_row_0 ld_mem_u16_sp = do
  addr ← read_u16
  sp ← rd16 reg_sp
  bus_write (addr + 0) (bit_and sp 0xFF)
  sp ← rd16 reg_sp
  bus_write (addr + 1) (sp >>> 8)
exec_row_0 add_hl_bc = do v ← rd16 reg_bc; alu_add_hl v
exec_row_0 ld_a_mem_bc = do from ← rd16 reg_bc; v ← bus_read from; wr8 reg_a v
exec_row_0 dec_bc = do v ← rd16 reg_bc; wr16 reg_bc (v + 65535)
exec_row_0 inc_c = do v ← rd8 reg_c; res ← alu_inc v; wr8 reg_c res
exec_row_0 dec_c = do v ← rd8 reg_c; res ← alu_dec v; wr8 reg_c res
exec_row_0 ld_c_u8 = do v ← read_u8; wr8 reg_c v
exec_row_0 rrca = do v ← rd8 reg_a; res ← alu_rrc_op v; wr8 reg_a res; flags_clear cpu_flag_zero

unfoldable pub exec_row_1 : Op1 → M (Unit {0})
unfolding alu_add_hl alu_dec alu_inc alu_rl_op alu_rr bus_read bus_write flags_clear jr_if rd16 rd8
    read_u16 read_u8 wr16 wr8
exec_row_1 ld_de_u16 = do v ← read_u16; wr16 reg_de v
exec_row_1 ld_mem_de_a = do to ← rd16 reg_de; v ← rd8 reg_a; bus_write to v
exec_row_1 inc_de = do v ← rd16 reg_de; wr16 reg_de (v + 1)
exec_row_1 inc_d = do v ← rd8 reg_d; res ← alu_inc v; wr8 reg_d res
exec_row_1 dec_d = do v ← rd8 reg_d; res ← alu_dec v; wr8 reg_d res
exec_row_1 ld_d_u8 = do v ← read_u8; wr8 reg_d v
exec_row_1 rla = do v ← rd8 reg_a; res ← alu_rl_op v; wr8 reg_a res; flags_clear cpu_flag_zero
exec_row_1 jr_s8 = jr_if true
exec_row_1 add_hl_de = do v ← rd16 reg_de; alu_add_hl v
exec_row_1 ld_a_mem_de = do from ← rd16 reg_de; v ← bus_read from; wr8 reg_a v
exec_row_1 dec_de = do v ← rd16 reg_de; wr16 reg_de (v + 65535)
exec_row_1 inc_e = do v ← rd8 reg_e; res ← alu_inc v; wr8 reg_e res
exec_row_1 dec_e = do v ← rd8 reg_e; res ← alu_dec v; wr8 reg_e res
exec_row_1 ld_e_u8 = do v ← read_u8; wr8 reg_e v
exec_row_1 rra = do v ← rd8 reg_a; res ← alu_rr v; wr8 reg_a res; flags_clear cpu_flag_zero

unfoldable pub exec_row_2 : Op2 → M (Unit {0})
unfolding alu_add_hl alu_dec alu_inc bus_read bus_write flag_test flags_set jr_if op_daa rd16 rd8
    read_u16 read_u8 wr16 wr8
exec_row_2 jr_nz_s8 = do flag ← flag_test cpu_flag_zero; jr_if (not flag)
exec_row_2 ld_hl_u16 = do v ← read_u16; wr16 reg_hl v
exec_row_2 ldi_mem_hl_a = do to ← rd16 reg_hl; wr16 reg_hl (to + 1); v ← rd8 reg_a; bus_write to v
exec_row_2 inc_hl = do v ← rd16 reg_hl; wr16 reg_hl (v + 1)
exec_row_2 inc_h = do v ← rd8 reg_h; res ← alu_inc v; wr8 reg_h res
exec_row_2 dec_h = do v ← rd8 reg_h; res ← alu_dec v; wr8 reg_h res
exec_row_2 ld_h_u8 = do v ← read_u8; wr8 reg_h v
exec_row_2 daa = op_daa
exec_row_2 jr_z_s8 = do cond_met ← flag_test cpu_flag_zero; jr_if cond_met
exec_row_2 add_hl_hl = do v ← rd16 reg_hl; alu_add_hl v
exec_row_2 ldi_a_mem_hl = do
  from ← rd16 reg_hl
  wr16 reg_hl (from + 1)
  v ← bus_read from
  wr8 reg_a v
exec_row_2 dec_hl = do v ← rd16 reg_hl; wr16 reg_hl (v + 65535)
exec_row_2 inc_l = do v ← rd8 reg_l; res ← alu_inc v; wr8 reg_l res
exec_row_2 dec_l = do v ← rd8 reg_l; res ← alu_dec v; wr8 reg_l res
exec_row_2 ld_l_u8 = do v ← read_u8; wr8 reg_l v
exec_row_2 cpl = do
  v ← rd8 reg_a
  wr8 reg_a (not8 v)
  flags_set (bit_or cpu_flag_subtract cpu_flag_half_carry)

unfoldable pub exec_row_3 : Op3 → M (Unit {0})
unfolding alu_add_hl alu_dec alu_inc alu_inc_mem_hl bus_read bus_write flag_test flags_clear
    flags_set jr_if rd16 rd8 rd_f read_u16 read_u8 wr16 wr8 wr_f
exec_row_3 jr_nc_s8 = do flag ← flag_test cpu_flag_carry; jr_if (not flag)
exec_row_3 ld_sp_u16 = do v ← read_u16; wr16 reg_sp v
exec_row_3 ldd_mem_hl_a = do
  to ← rd16 reg_hl
  wr16 reg_hl (to + 65535)
  v ← rd8 reg_a
  bus_write to v
exec_row_3 inc_sp = do v ← rd16 reg_sp; wr16 reg_sp (v + 1)
exec_row_3 inc_mem_hl = alu_inc_mem_hl
exec_row_3 dec_mem_hl = do
  from ← rd16 reg_hl
  old ← bus_read from
  new ← alu_dec old
  to ← rd16 reg_hl
  bus_write to new
exec_row_3 ld_mem_hl_u8 = do to ← rd16 reg_hl; v ← read_u8; bus_write to v
exec_row_3 scf = do clear_subtract_half_carry; flags_set cpu_flag_carry
exec_row_3 jr_c_s8 = do cond_met ← flag_test cpu_flag_carry; jr_if cond_met
exec_row_3 add_hl_sp = do v ← rd16 reg_sp; alu_add_hl v
exec_row_3 ldd_a_mem_hl = do
  from ← rd16 reg_hl
  wr16 reg_hl (from + 65535)
  v ← bus_read from
  wr8 reg_a v
exec_row_3 dec_sp = do v ← rd16 reg_sp; wr16 reg_sp (v + 65535)
exec_row_3 inc_a = do v ← rd8 reg_a; res ← alu_inc v; wr8 reg_a res
exec_row_3 dec_a = do v ← rd8 reg_a; res ← alu_dec v; wr8 reg_a res
exec_row_3 ld_a_u8 = do v ← read_u8; wr8 reg_a v
exec_row_3 ccf = do clear_subtract_half_carry; f ← rd_f; wr_f (bit_xor f cpu_flag_carry)
