-- ===== src/Disasm/Tables/Sets.antt =====
-- Lines of `cb_tbl` of core/src/disasm.c, sixteen instructions at a time, each at the number that
-- core/src/cpu-defs.h gives its index.
use agoge.Prelude.{List, [], ◌∷◌}
use agoge.Ctx.{
  DisasmEntry, trace_reg_b, trace_reg_c, trace_reg_d, trace_reg_e, trace_reg_h, trace_reg_l,
  trace_reg_a, trace_mem_hl,
}
use agoge.Disasm.Tables.Entry.{cb_instr_res_set}

unfoldable pub disasm_cb_row_c : List DisasmEntry
disasm_cb_row_c =
    cb_instr_res_set "SET 0, B" trace_reg_b
    ∷ cb_instr_res_set "SET 0, C" trace_reg_c
    ∷ cb_instr_res_set "SET 0, D" trace_reg_d
    ∷ cb_instr_res_set "SET 0, E" trace_reg_e
    ∷ cb_instr_res_set "SET 0, H" trace_reg_h
    ∷ cb_instr_res_set "SET 0, L" trace_reg_l
    ∷ cb_instr_res_set "SET 0, (HL)" trace_mem_hl
    ∷ cb_instr_res_set "SET 0, A" trace_reg_a
    ∷ cb_instr_res_set "SET 1, B" trace_reg_b
    ∷ cb_instr_res_set "SET 1, C" trace_reg_c
    ∷ cb_instr_res_set "SET 1, D" trace_reg_d
    ∷ cb_instr_res_set "SET 1, E" trace_reg_e
    ∷ cb_instr_res_set "SET 1, H" trace_reg_h
    ∷ cb_instr_res_set "SET 1, L" trace_reg_l
    ∷ cb_instr_res_set "SET 1, (HL)" trace_mem_hl
    ∷ cb_instr_res_set "SET 1, A" trace_reg_a
    ∷ []

unfoldable pub disasm_cb_row_d : List DisasmEntry
disasm_cb_row_d =
    cb_instr_res_set "SET 2, B" trace_reg_b
    ∷ cb_instr_res_set "SET 2, C" trace_reg_c
    ∷ cb_instr_res_set "SET 2, D" trace_reg_d
    ∷ cb_instr_res_set "SET 2, E" trace_reg_e
    ∷ cb_instr_res_set "SET 2, H" trace_reg_h
    ∷ cb_instr_res_set "SET 2, L" trace_reg_l
    ∷ cb_instr_res_set "SET 2, (HL)" trace_mem_hl
    ∷ cb_instr_res_set "SET 2, A" trace_reg_a
    ∷ cb_instr_res_set "SET 3, B" trace_reg_b
    ∷ cb_instr_res_set "SET 3, C" trace_reg_c
    ∷ cb_instr_res_set "SET 3, D" trace_reg_d
    ∷ cb_instr_res_set "SET 3, E" trace_reg_e
    ∷ cb_instr_res_set "SET 3, H" trace_reg_h
    ∷ cb_instr_res_set "SET 3, L" trace_reg_l
    ∷ cb_instr_res_set "SET 3, (HL)" trace_mem_hl
    ∷ cb_instr_res_set "SET 3, A" trace_reg_a
    ∷ []

unfoldable pub disasm_cb_row_e : List DisasmEntry
disasm_cb_row_e =
    cb_instr_res_set "SET 4, B" trace_reg_b
    ∷ cb_instr_res_set "SET 4, C" trace_reg_c
    ∷ cb_instr_res_set "SET 4, D" trace_reg_d
    ∷ cb_instr_res_set "SET 4, E" trace_reg_e
    ∷ cb_instr_res_set "SET 4, H" trace_reg_h
    ∷ cb_instr_res_set "SET 4, L" trace_reg_l
    ∷ cb_instr_res_set "SET 4, (HL)" trace_mem_hl
    ∷ cb_instr_res_set "SET 4, A" trace_reg_a
    ∷ cb_instr_res_set "SET 5, B" trace_reg_b
    ∷ cb_instr_res_set "SET 5, C" trace_reg_c
    ∷ cb_instr_res_set "SET 5, D" trace_reg_d
    ∷ cb_instr_res_set "SET 5, E" trace_reg_e
    ∷ cb_instr_res_set "SET 5, H" trace_reg_h
    ∷ cb_instr_res_set "SET 5, L" trace_reg_l
    ∷ cb_instr_res_set "SET 5, (HL)" trace_mem_hl
    ∷ cb_instr_res_set "SET 5, A" trace_reg_a
    ∷ []

unfoldable pub disasm_cb_row_f : List DisasmEntry
disasm_cb_row_f =
    cb_instr_res_set "SET 6, B" trace_reg_b
    ∷ cb_instr_res_set "SET 6, C" trace_reg_c
    ∷ cb_instr_res_set "SET 6, D" trace_reg_d
    ∷ cb_instr_res_set "SET 6, E" trace_reg_e
    ∷ cb_instr_res_set "SET 6, H" trace_reg_h
    ∷ cb_instr_res_set "SET 6, L" trace_reg_l
    ∷ cb_instr_res_set "SET 6, (HL)" trace_mem_hl
    ∷ cb_instr_res_set "SET 6, A" trace_reg_a
    ∷ cb_instr_res_set "SET 7, B" trace_reg_b
    ∷ cb_instr_res_set "SET 7, C" trace_reg_c
    ∷ cb_instr_res_set "SET 7, D" trace_reg_d
    ∷ cb_instr_res_set "SET 7, E" trace_reg_e
    ∷ cb_instr_res_set "SET 7, H" trace_reg_h
    ∷ cb_instr_res_set "SET 7, L" trace_reg_l
    ∷ cb_instr_res_set "SET 7, (HL)" trace_mem_hl
    ∷ cb_instr_res_set "SET 7, A" trace_reg_a
    ∷ []
