-- ===== src/Cpu/Tables/Ops.antt =====
-- The jump table `op_tbl` of core/src/cpu.c, in four parts of 64 entries. An entry stands at the
-- number that core/src/cpu-defs.h gives its index; `none` is an index that no line sets.
use agoge.Prelude.{List, Option, none, some, [], ◌∷◌, ◌++◌}
use agoge.Cpu.Reg.{reg_b, reg_c, reg_d, reg_e, reg_h, reg_l, reg_a}
use agoge.Cpu.Op.{
  Op, row_0, row_1, row_2, row_3, row_c, row_d, row_e, row_f, nop, ld_bc_u16, ld_mem_bc_a, inc_bc,
  inc_b, dec_b, ld_b_u8, rlca, ld_mem_u16_sp, add_hl_bc, ld_a_mem_bc, dec_bc, inc_c, dec_c, ld_c_u8,
  rrca, ld_de_u16, ld_mem_de_a, inc_de, inc_d, dec_d, ld_d_u8, rla, jr_s8, add_hl_de, ld_a_mem_de,
  dec_de, inc_e, dec_e, ld_e_u8, rra, jr_nz_s8, ld_hl_u16, ldi_mem_hl_a, inc_hl, inc_h, dec_h,
  ld_h_u8, daa, jr_z_s8, add_hl_hl, ldi_a_mem_hl, dec_hl, inc_l, dec_l, ld_l_u8, cpl, jr_nc_s8,
  ld_sp_u16, ldd_mem_hl_a, inc_sp, inc_mem_hl, dec_mem_hl, ld_mem_hl_u8, scf, jr_c_s8, add_hl_sp,
  ldd_a_mem_hl, dec_sp, inc_a, dec_a, ld_a_u8, ccf, ret_nz, pop_bc, jp_nz_u16, jp_u16, call_nz_u16,
  push_bc, add_a_u8, rst_00, ret_z, ret, jp_z_u16, call_z_u16, call_u16, adc_a_u8, rst_08, ret_nc,
  pop_de, jp_nc_u16, call_nc_u16, push_de, sub_a_u8, rst_10, ret_c, reti, jp_c_u16, call_c_u16,
  sbc_a_u8, rst_18, ld_mem_ff00_u8_a, pop_hl, ld_mem_ff00_c_a, push_hl, and_a_u8, rst_20, add_sp_s8,
  jp_hl, ld_mem_u16_a, xor_a_u8, rst_28, ld_a_mem_ff00_u8, pop_af, ld_a_mem_ff00_c, di, push_af,
  or_a_u8, rst_30, ld_hl_sp_s8, ld_sp_hl, ld_a_mem_u16, ei, cp_a_u8, rst_38, ld, alu, prefix_cb,
  reg, mem_hl, add_a, adc_a, sub_a, sbc_a, and_a, xor_a, or_a, cp_a,
}

unfoldable pub op_tbl_00 : List (Option Op)
op_tbl_00 =
    some (row_0 nop)
    ∷ some (row_0 ld_bc_u16)
    ∷ some (row_0 ld_mem_bc_a)
    ∷ some (row_0 inc_bc)
    ∷ some (row_0 inc_b)
    ∷ some (row_0 dec_b)
    ∷ some (row_0 ld_b_u8)
    ∷ some (row_0 rlca)
    ∷ some (row_0 ld_mem_u16_sp)
    ∷ some (row_0 add_hl_bc)
    ∷ some (row_0 ld_a_mem_bc)
    ∷ some (row_0 dec_bc)
    ∷ some (row_0 inc_c)
    ∷ some (row_0 dec_c)
    ∷ some (row_0 ld_c_u8)
    ∷ some (row_0 rrca)
    ∷ none
    ∷ some (row_1 ld_de_u16)
    ∷ some (row_1 ld_mem_de_a)
    ∷ some (row_1 inc_de)
    ∷ some (row_1 inc_d)
    ∷ some (row_1 dec_d)
    ∷ some (row_1 ld_d_u8)
    ∷ some (row_1 rla)
    ∷ some (row_1 jr_s8)
    ∷ some (row_1 add_hl_de)
    ∷ some (row_1 ld_a_mem_de)
    ∷ some (row_1 dec_de)
    ∷ some (row_1 inc_e)
    ∷ some (row_1 dec_e)
    ∷ some (row_1 ld_e_u8)
    ∷ some (row_1 rra)
    ∷ some (row_2 jr_nz_s8)
    ∷ some (row_2 ld_hl_u16)
    ∷ some (row_2 ldi_mem_hl_a)
    ∷ some (row_2 inc_hl)
    ∷ some (row_2 inc_h)
    ∷ some (row_2 dec_h)
    ∷ some (row_2 ld_h_u8)
    ∷ some (row_2 daa)
    ∷ some (row_2 jr_z_s8)
    ∷ some (row_2 add_hl_hl)
    ∷ some (row_2 ldi_a_mem_hl)
    ∷ some (row_2 dec_hl)
    ∷ some (row_2 inc_l)
    ∷ some (row_2 dec_l)
    ∷ some (row_2 ld_l_u8)
    ∷ some (row_2 cpl)
    ∷ some (row_3 jr_nc_s8)
    ∷ some (row_3 ld_sp_u16)
    ∷ some (row_3 ldd_mem_hl_a)
    ∷ some (row_3 inc_sp)
    ∷ some (row_3 inc_mem_hl)
    ∷ some (row_3 dec_mem_hl)
    ∷ some (row_3 ld_mem_hl_u8)
    ∷ some (row_3 scf)
    ∷ some (row_3 jr_c_s8)
    ∷ some (row_3 add_hl_sp)
    ∷ some (row_3 ldd_a_mem_hl)
    ∷ some (row_3 dec_sp)
    ∷ some (row_3 inc_a)
    ∷ some (row_3 dec_a)
    ∷ some (row_3 ld_a_u8)
    ∷ some (row_3 ccf)
    ∷ []

unfoldable pub op_tbl_40 : List (Option Op)
op_tbl_40 =
    some (ld (reg reg_b) (reg reg_b))
    ∷ some (ld (reg reg_b) (reg reg_c))
    ∷ some (ld (reg reg_b) (reg reg_d))
    ∷ some (ld (reg reg_b) (reg reg_e))
    ∷ some (ld (reg reg_b) (reg reg_h))
    ∷ some (ld (reg reg_b) (reg reg_l))
    ∷ some (ld (reg reg_b) mem_hl)
    ∷ some (ld (reg reg_b) (reg reg_a))
    ∷ some (ld (reg reg_c) (reg reg_b))
    ∷ some (ld (reg reg_c) (reg reg_c))
    ∷ some (ld (reg reg_c) (reg reg_d))
    ∷ some (ld (reg reg_c) (reg reg_e))
    ∷ some (ld (reg reg_c) (reg reg_h))
    ∷ some (ld (reg reg_c) (reg reg_l))
    ∷ some (ld (reg reg_c) mem_hl)
    ∷ some (ld (reg reg_c) (reg reg_a))
    ∷ some (ld (reg reg_d) (reg reg_b))
    ∷ some (ld (reg reg_d) (reg reg_c))
    ∷ some (ld (reg reg_d) (reg reg_d))
    ∷ some (ld (reg reg_d) (reg reg_e))
    ∷ some (ld (reg reg_d) (reg reg_h))
    ∷ some (ld (reg reg_d) (reg reg_l))
    ∷ some (ld (reg reg_d) mem_hl)
    ∷ some (ld (reg reg_d) (reg reg_a))
    ∷ some (ld (reg reg_e) (reg reg_b))
    ∷ some (ld (reg reg_e) (reg reg_c))
    ∷ some (ld (reg reg_e) (reg reg_d))
    ∷ some (ld (reg reg_e) (reg reg_e))
    ∷ some (ld (reg reg_e) (reg reg_h))
    ∷ some (ld (reg reg_e) (reg reg_l))
    ∷ some (ld (reg reg_e) mem_hl)
    ∷ some (ld (reg reg_e) (reg reg_a))
    ∷ some (ld (reg reg_h) (reg reg_b))
    ∷ some (ld (reg reg_h) (reg reg_c))
    ∷ some (ld (reg reg_h) (reg reg_d))
    ∷ some (ld (reg reg_h) (reg reg_e))
    ∷ some (ld (reg reg_h) (reg reg_h))
    ∷ some (ld (reg reg_h) (reg reg_l))
    ∷ some (ld (reg reg_h) mem_hl)
    ∷ some (ld (reg reg_h) (reg reg_a))
    ∷ some (ld (reg reg_l) (reg reg_b))
    ∷ some (ld (reg reg_l) (reg reg_c))
    ∷ some (ld (reg reg_l) (reg reg_d))
    ∷ some (ld (reg reg_l) (reg reg_e))
    ∷ some (ld (reg reg_l) (reg reg_h))
    ∷ some (ld (reg reg_l) (reg reg_l))
    ∷ some (ld (reg reg_l) mem_hl)
    ∷ some (ld (reg reg_l) (reg reg_a))
    ∷ some (ld mem_hl (reg reg_b))
    ∷ some (ld mem_hl (reg reg_c))
    ∷ some (ld mem_hl (reg reg_d))
    ∷ some (ld mem_hl (reg reg_e))
    ∷ some (ld mem_hl (reg reg_h))
    ∷ some (ld mem_hl (reg reg_l))
    ∷ none
    ∷ some (ld mem_hl (reg reg_a))
    ∷ some (ld (reg reg_a) (reg reg_b))
    ∷ some (ld (reg reg_a) (reg reg_c))
    ∷ some (ld (reg reg_a) (reg reg_d))
    ∷ some (ld (reg reg_a) (reg reg_e))
    ∷ some (ld (reg reg_a) (reg reg_h))
    ∷ some (ld (reg reg_a) (reg reg_l))
    ∷ some (ld (reg reg_a) mem_hl)
    ∷ some (ld (reg reg_a) (reg reg_a))
    ∷ []

unfoldable pub op_tbl_80 : List (Option Op)
op_tbl_80 =
    some (alu add_a (reg reg_b))
    ∷ some (alu add_a (reg reg_c))
    ∷ some (alu add_a (reg reg_d))
    ∷ some (alu add_a (reg reg_e))
    ∷ some (alu add_a (reg reg_h))
    ∷ some (alu add_a (reg reg_l))
    ∷ some (alu add_a mem_hl)
    ∷ some (alu add_a (reg reg_a))
    ∷ some (alu adc_a (reg reg_b))
    ∷ some (alu adc_a (reg reg_c))
    ∷ some (alu adc_a (reg reg_d))
    ∷ some (alu adc_a (reg reg_e))
    ∷ some (alu adc_a (reg reg_h))
    ∷ some (alu adc_a (reg reg_l))
    ∷ some (alu adc_a mem_hl)
    ∷ some (alu adc_a (reg reg_a))
    ∷ some (alu sub_a (reg reg_b))
    ∷ some (alu sub_a (reg reg_c))
    ∷ some (alu sub_a (reg reg_d))
    ∷ some (alu sub_a (reg reg_e))
    ∷ some (alu sub_a (reg reg_h))
    ∷ some (alu sub_a (reg reg_l))
    ∷ some (alu sub_a mem_hl)
    ∷ some (alu sub_a (reg reg_a))
    ∷ some (alu sbc_a (reg reg_b))
    ∷ some (alu sbc_a (reg reg_c))
    ∷ some (alu sbc_a (reg reg_d))
    ∷ some (alu sbc_a (reg reg_e))
    ∷ some (alu sbc_a (reg reg_h))
    ∷ some (alu sbc_a (reg reg_l))
    ∷ some (alu sbc_a mem_hl)
    ∷ some (alu sbc_a (reg reg_a))
    ∷ some (alu and_a (reg reg_b))
    ∷ some (alu and_a (reg reg_c))
    ∷ some (alu and_a (reg reg_d))
    ∷ some (alu and_a (reg reg_e))
    ∷ some (alu and_a (reg reg_h))
    ∷ some (alu and_a (reg reg_l))
    ∷ some (alu and_a mem_hl)
    ∷ some (alu and_a (reg reg_a))
    ∷ some (alu xor_a (reg reg_b))
    ∷ some (alu xor_a (reg reg_c))
    ∷ some (alu xor_a (reg reg_d))
    ∷ some (alu xor_a (reg reg_e))
    ∷ some (alu xor_a (reg reg_h))
    ∷ some (alu xor_a (reg reg_l))
    ∷ some (alu xor_a mem_hl)
    ∷ some (alu xor_a (reg reg_a))
    ∷ some (alu or_a (reg reg_b))
    ∷ some (alu or_a (reg reg_c))
    ∷ some (alu or_a (reg reg_d))
    ∷ some (alu or_a (reg reg_e))
    ∷ some (alu or_a (reg reg_h))
    ∷ some (alu or_a (reg reg_l))
    ∷ some (alu or_a mem_hl)
    ∷ some (alu or_a (reg reg_a))
    ∷ some (alu cp_a (reg reg_b))
    ∷ some (alu cp_a (reg reg_c))
    ∷ some (alu cp_a (reg reg_d))
    ∷ some (alu cp_a (reg reg_e))
    ∷ some (alu cp_a (reg reg_h))
    ∷ some (alu cp_a (reg reg_l))
    ∷ some (alu cp_a mem_hl)
    ∷ some (alu cp_a (reg reg_a))
    ∷ []

unfoldable pub op_tbl_c0 : List (Option Op)
op_tbl_c0 =
    some (row_c ret_nz)
    ∷ some (row_c pop_bc)
    ∷ some (row_c jp_nz_u16)
    ∷ some (row_c jp_u16)
    ∷ some (row_c call_nz_u16)
    ∷ some (row_c push_bc)
    ∷ some (row_c add_a_u8)
    ∷ some (row_c rst_00)
    ∷ some (row_c ret_z)
    ∷ some (row_c ret)
    ∷ some (row_c jp_z_u16)
    ∷ some prefix_cb
    ∷ some (row_d call_z_u16)
    ∷ some (row_d call_u16)
    ∷ some (row_d adc_a_u8)
    ∷ some (row_d rst_08)
    ∷ some (row_d ret_nc)
    ∷ some (row_d pop_de)
    ∷ some (row_d jp_nc_u16)
    ∷ none
    ∷ some (row_d call_nc_u16)
    ∷ some (row_d push_de)
    ∷ some (row_d sub_a_u8)
    ∷ some (row_d rst_10)
    ∷ some (row_d ret_c)
    ∷ some (row_d reti)
    ∷ some (row_d jp_c_u16)
    ∷ none
    ∷ some (row_d call_c_u16)
    ∷ none
    ∷ some (row_d sbc_a_u8)
    ∷ some (row_d rst_18)
    ∷ some (row_e ld_mem_ff00_u8_a)
    ∷ some (row_e pop_hl)
    ∷ some (row_e ld_mem_ff00_c_a)
    ∷ none
    ∷ none
    ∷ some (row_e push_hl)
    ∷ some (row_e and_a_u8)
    ∷ some (row_e rst_20)
    ∷ some (row_e add_sp_s8)
    ∷ some (row_e jp_hl)
    ∷ some (row_e ld_mem_u16_a)
    ∷ none
    ∷ none
    ∷ none
    ∷ some (row_e xor_a_u8)
    ∷ some (row_e rst_28)
    ∷ some (row_f ld_a_mem_ff00_u8)
    ∷ some (row_f pop_af)
    ∷ some (row_f ld_a_mem_ff00_c)
    ∷ some (row_f di)
    ∷ none
    ∷ some (row_f push_af)
    ∷ some (row_f or_a_u8)
    ∷ some (row_f rst_30)
    ∷ some (row_f ld_hl_sp_s8)
    ∷ some (row_f ld_sp_hl)
    ∷ some (row_f ld_a_mem_u16)
    ∷ some (row_f ei)
    ∷ none
    ∷ none
    ∷ some (row_f cp_a_u8)
    ∷ some (row_f rst_38)
    ∷ []

unfoldable pub op_tbl : List (Option Op)
unfolding op_tbl_00 op_tbl_40 op_tbl_80 op_tbl_c0
op_tbl = op_tbl_00 ++ (op_tbl_40 ++ (op_tbl_80 ++ op_tbl_c0))
