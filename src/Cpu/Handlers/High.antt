-- ===== src/Cpu/Handlers/High.antt =====
-- The handlers of the opcodes 0xC0 to 0xFF, without the prefix 0xCB: `agoge_core_cpu_run` of core/src/cpu.c.
use agoge.Prelude.{◌+◌, true, not, bit_and}
use agoge.Step.{M, pure, ◌>>=◌}
use agoge.Bus.{bus_read, bus_write}
use agoge.Cpu.Reg.{
  reg_c, reg_a, reg_bc, reg_de, reg_hl, reg_sp, reg_pc, rd8, wr8, rd16, wr16, rd_af, wr_af,
  flag_test, cpu_flag_zero, cpu_flag_carry,
}
use agoge.Cpu.Alu.{read_u8, read_u16}
use agoge.Cpu.Arith.{
  alu_add_sp, alu_add, alu_adc, alu_sub, alu_sbc, alu_and, alu_xor, alu_or, alu_cp,
}
use agoge.Cpu.Flow.{stack_push, stack_pop, jp_if, ret_if, call_if, rst}
use agoge.Cpu.Op.{
  OpC, OpD, OpE, OpF, ret_nz, pop_bc, jp_nz_u16, jp_u16, call_nz_u16, push_bc, add_a_u8, rst_00,
  ret_z, ret, jp_z_u16, call_z_u16, call_u16, adc_a_u8, rst_08, ret_nc, pop_de, jp_nc_u16,
  call_nc_u16, push_de, sub_a_u8, rst_10, ret_c, reti, jp_c_u16, call_c_u16, sbc_a_u8, rst_18,
  ld_mem_ff00_u8_a, pop_hl, ld_mem_ff00_c_a, push_hl, and_a_u8, rst_20, add_sp_s8, jp_hl,
  ld_mem_u16_a, xor_a_u8, rst_28, ld_a_mem_ff00_u8, pop_af, ld_a_mem_ff00_c, di, push_af, or_a_u8,
  rst_30, ld_hl_sp_s8, ld_sp_hl, ld_a_mem_u16, ei, cp_a_u8, rst_38,
}

unfoldable pub exec_row_c : OpC → M (Unit {0})
unfolding alu_add call_if flag_test jp_if rd16 read_u8 ret_if rst stack_pop stack_push wr16
exec_row_c ret_nz = do flag ← flag_test cpu_flag_zero; ret_if (not flag)
exec_row_c pop_bc = do v ← stack_pop; wr16 reg_bc v
exec_row_c jp_nz_u16 = do flag ← flag_test cpu_flag_zero; jp_if (not flag)
exec_row_c jp_u16 = jp_if true
exec_row_c call_nz_u16 = do flag ← flag_test cpu_flag_zero; call_if (not flag)
exec_row_c push_bc = do v ← rd16 reg_bc; stack_push v
exec_row_c add_a_u8 = do v ← read_u8; alu_add v
exec_row_c rst_00 = rst 0x0000
exec_row_c ret_z = do cond_met ← flag_test cpu_flag_zero; ret_if cond_met
exec_row_c ret = ret_if true
exec_row_c jp_z_u16 = do cond_met ← flag_test cpu_flag_zero; jp_if cond_met

unfoldable pub exec_row_d : OpD → M (Unit {0})
unfolding alu_adc alu_sbc alu_sub call_if flag_test jp_if rd16 read_u8 ret_if rst stack_pop
    stack_push wr16
exec_row_d call_z_u16 = do cond_met ← flag_test cpu_flag_zero; call_if cond_met
exec_row_d call_u16 = call_if true
exec_row_d adc_a_u8 = do v ← read_u8; alu_adc v
exec_row_d rst_08 = rst 0x0008
exec_row_d ret_nc = do flag ← flag_test cpu_flag_carry; ret_if (not flag)
exec_row_d pop_de = do v ← stack_pop; wr16 reg_de v
exec_row_d jp_nc_u16 = do flag ← flag_test cpu_flag_carry; jp_if (not flag)
exec_row_d call_nc_u16 = do flag ← flag_test cpu_flag_carry; call_if (not flag)
exec_row_d push_de = do v ← rd16 reg_de; stack_push v
exec_row_d sub_a_u8 = do v ← read_u8; alu_sub v
exec_row_d rst_10 = rst 0x0010
exec_row_d ret_c = do cond_met ← flag_test cpu_flag_carry; ret_if cond_met
exec_row_d reti = ret_if true
exec_row_d jp_c_u16 = do cond_met ← flag_test cpu_flag_carry; jp_if cond_met
exec_row_d call_c_u16 = do cond_met ← flag_test cpu_flag_carry; call_if cond_met
exec_row_d sbc_a_u8 = do v ← read_u8; alu_sbc v
exec_row_d rst_18 = rst 0x0018

unfoldable pub exec_row_e : OpE → M (Unit {0})
unfolding alu_add_sp alu_and alu_xor bus_write rd16 rd8 read_u16 read_u8 rst stack_pop stack_push
    wr16
exec_row_e ld_mem_ff00_u8_a = do off ← read_u8; v ← rd8 reg_a; bus_write (0xFF00 + off) v
exec_row_e pop_hl = do v ← stack_pop; wr16 reg_hl v
exec_row_e ld_mem_ff00_c_a = do off ← rd8 reg_c; v ← rd8 reg_a; bus_write (0xFF00 + off) v
exec_row_e push_hl = do v ← rd16 reg_hl; stack_push v
exec_row_e and_a_u8 = do v ← read_u8; alu_and v
exec_row_e rst_20 = rst 0x0020
exec_row_e add_sp_s8 = do v ← alu_add_sp; wr16 reg_sp v
exec_row_e jp_hl = do v ← rd16 reg_hl; wr16 reg_pc v
exec_row_e ld_mem_u16_a = do addr ← read_u16; v ← rd8 reg_a; bus_write addr v
exec_row_e xor_a_u8 = do v ← read_u8; alu_xor v
exec_row_e rst_28 = rst 0x0028

unfoldable pub exec_row_f : OpF → M (Unit {0})
unfolding alu_add_sp alu_cp alu_or bus_read rd16 rd8 rd_af read_u16 read_u8 rst stack_pop stack_push
    wr16 wr8 wr_af
exec_row_f ld_a_mem_ff00_u8 = do off ← read_u8; v ← bus_read (0xFF00 + off); wr8 reg_a v
exec_row_f pop_af = do v ← stack_pop; wr_af (bit_and v 0xFFF0)
exec_row_f ld_a_mem_ff00_c = do off ← rd8 reg_c; v ← bus_read (0xFF00 + off); wr8 reg_a v
exec_row_f di = pure tt
exec_row_f push_af = do v ← rd_af; stack_push v
exec_row_f or_a_u8 = do v ← read_u8; alu_or v
exec_row_f rst_30 = rst 0x0030
exec_row_f ld_hl_sp_s8 = do v ← alu_add_sp; wr16 reg_hl v
exec_row_f ld_sp_hl = do v ← rd16 reg_hl; wr16 reg_sp v
exec_row_f ld_a_mem_u16 = do addr ← read_u16; v ← bus_read addr; wr8 reg_a v
exec_row_f ei = pure tt
exec_row_f cp_a_u8 = do v ← read_u8; alu_cp v
exec_row_f rst_38 = rst 0x0038
