-- ===== src/Disasm/Tables/Shifts.antt =====
-- Lines of `cb_tbl` of core/src/disasm.c, sixteen instructions at a time, each at the number that
-- core/src/cpu-defs.h gives its index.
use agoge.Prelude.{List, [], ◌∷◌}
use agoge.Ctx.{
  DisasmEntry, trace_reg_b, trace_reg_c, trace_reg_d, trace_reg_e, trace_reg_h, trace_reg_l,
  trace_reg_a, trace_mem_hl,
}
use agoge.Disasm.Tables.Entry.{cb_instr}

unfoldable pub disasm_cb_row_0 : List DisasmEntry
disasm_cb_row_0 =
    cb_instr "RLC B" trace_reg_b
    ∷ cb_instr "RLC C" trace_reg_c
    ∷ cb_instr "RLC D" trace_reg_d
    ∷ cb_instr "RLC E" trace_reg_e
    ∷ cb_instr "RLC H" trace_reg_h
    ∷ cb_instr "RLC L" trace_reg_l
    ∷ cb_instr "RLC (HL)" trace_mem_hl
    ∷ cb_instr "RLC A" trace_reg_a
    ∷ cb_instr "RRC B" trace_reg_b
    ∷ cb_instr "RRC C" trace_reg_c
    ∷ cb_instr "RRC D" trace_reg_d
    ∷ cb_instr "RRC E" trace_reg_e
    ∷ cb_instr "RRC H" trace_reg_h
    ∷ cb_instr "RRC L" trace_reg_l
    ∷ cb_instr "RRC (HL)" trace_mem_hl
    ∷ cb_instr "RRC A" trace_reg_a
    ∷ []

unfoldable pub disasm_cb_row_1 : List DisasmEntry
disasm_cb_row_1 =
    cb_instr "RL B" trace_reg_b
    ∷ cb_instr "RL C" trace_reg_c
    ∷ cb_instr "RL D" trace_reg_d
    ∷ cb_instr "RL E" trace_reg_e
    ∷ cb_instr "RL H" trace_reg_h
    ∷ cb_instr "RL L" trace_reg_l
    ∷ cb_instr "RL (HL)" trace_mem_hl
    ∷ cb_instr "RL A" trace_reg_a
    ∷ cb_instr "RR B" trace_reg_b
    ∷ cb_instr "RR C" trace_reg_c
    ∷ cb_instr "RR D" trace_reg_d
    ∷ cb_instr "RR E" trace_reg_e
    ∷ cb_instr "RR H" trace_reg_h
    ∷ cb_instr "RR L" trace_reg_l
    ∷ cb_instr "RR (HL)" trace_mem_hl
    ∷ cb_instr "RR A" trace_reg_a
    ∷ []

unfoldable pub disasm_cb_row_2 : List DisasmEntry
disasm_cb_row_2 =
    cb_instr "SLA B" trace_reg_b
    ∷ cb_instr "SLA C" trace_reg_c
    ∷ cb_instr "SLA D" trace_reg_d
    ∷ cb_instr "SLA E" trace_reg_e
    ∷ cb_instr "SLA H" trace_reg_h
    ∷ cb_instr "SLA L" trace_reg_l
    ∷ cb_instr "SLA (HL)" trace_mem_hl
    ∷ cb_instr "SLA A" trace_reg_a
    ∷ cb_instr "SRA B" trace_reg_b
    ∷ cb_instr "SRA C" trace_reg_c
    ∷ cb_instr "SRA D" trace_reg_d
    ∷ cb_instr "SRA E" trace_reg_e
    ∷ cb_instr "SRA H" trace_reg_h
    ∷ cb_instr "SRA L" trace_reg_l
    ∷ cb_instr "SRA (HL)" trace_mem_hl
    ∷ cb_instr "SRA A" trace_reg_a
    ∷ []

unfoldable pub disasm_cb_row_3 : List DisasmEntry
disasm_cb_row_3 =
    cb_instr "SWAP B" trace_reg_b
    ∷ cb_instr "SWAP C" trace_reg_c
    ∷ cb_instr "SWAP D" trace_reg_d
    ∷ cb_instr "SWAP E" trace_reg_e
    ∷ cb_instr "SWAP H" trace_reg_h
    ∷ cb_instr "SWAP L" trace_reg_l
    ∷ cb_instr "SWAP (HL)" trace_mem_hl
    ∷ cb_instr "SWAP A" trace_reg_a
    ∷ cb_instr "SRL B" trace_reg_b
    ∷ cb_instr "SRL C" trace_reg_c
    ∷ cb_instr "SRL D" trace_reg_d
    ∷ cb_instr "SRL E" trace_reg_e
    ∷ cb_instr "SRL H" trace_reg_h
    ∷ cb_instr "SRL L" trace_reg_l
    ∷ cb_instr "SRL (HL)" trace_mem_hl
    ∷ cb_instr "SRL A" trace_reg_a
    ∷ []
