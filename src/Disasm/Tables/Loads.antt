-- ===== src/Disasm/Tables/Loads.antt =====
-- Lines of `op_tbl` of core/src/disasm.c, sixteen instructions at a time, each at the number that
-- core/src/cpu-defs.h gives its index; `unset` is an index that no line sets.
use agoge.Prelude.{List, [], ◌∷◌}
use agoge.Ctx.{
  DisasmEntry, op_none, trace_none, trace_reg_b, trace_reg_c, trace_reg_d, trace_reg_e, trace_reg_h,
  trace_reg_l, trace_reg_a,
}
use agoge.Disasm.Tables.Entry.{entry, unset}

unfoldable pub disasm_row_4 : List DisasmEntry
disasm_row_4 =
    entry "LD B, B" op_none trace_reg_b trace_none 1
    ∷ entry "LD B, C" op_none trace_reg_b trace_none 1
    ∷ entry "LD B, D" op_none trace_reg_b trace_none 1
    ∷ entry "LD B, E" op_none trace_reg_b trace_none 1
    ∷ entry "LD B, H" op_none trace_reg_b trace_none 1
    ∷ entry "LD B, L" op_none trace_reg_b trace_none 1
    ∷ entry "LD B, (HL)" op_none trace_reg_b trace_none 1
    ∷ entry "LD B, A" op_none trace_reg_b trace_none 1
    ∷ entry "LD C, B" op_none trace_reg_c trace_none 1
    ∷ entry "LD C, C" op_none trace_reg_c trace_none 1
    ∷ entry "LD C, D" op_none trace_reg_c trace_none 1
    ∷ entry "LD C, E" op_none trace_reg_c trace_none 1
    ∷ entry "LD C, H" op_none trace_reg_c trace_none 1
    ∷ entry "LD C, L" op_none trace_reg_c trace_none 1
    ∷ entry "LD C, (HL)" op_none trace_reg_c trace_none 1
    ∷ entry "LD C, A" op_none trace_reg_c trace_none 1
    ∷ []

unfoldable pub disasm_row_5 : List DisasmEntry
disasm_row_5 =
    entry "LD D, B" op_none trace_reg_d trace_none 1
    ∷ entry "LD D, C" op_none trace_reg_d trace_none 1
    ∷ entry "LD D, D" op_none trace_reg_d trace_none 1
    ∷ entry "LD D, E" op_none trace_reg_d trace_none 1
    ∷ entry "LD D, H" op_none trace_reg_d trace_none 1
    ∷ entry "LD D, L" op_none trace_reg_d trace_none 1
    ∷ entry "LD D, (HL)" op_none trace_reg_d trace_none 1
    ∷ entry "LD D, A" op_none trace_reg_d trace_none 1
    ∷ entry "LD E, B" op_none trace_reg_e trace_none 1
    ∷ entry "LD E, C" op_none trace_reg_e trace_none 1
    ∷ entry "LD E, D" op_none trace_reg_e trace_none 1
    ∷ entry "LD E, E" op_none trace_reg_e trace_none 1
    ∷ entry "LD E, H" op_none trace_reg_e trace_none 1
    ∷ entry "LD E, L" op_none trace_reg_e trace_none 1
    ∷ entry "LD E, (HL)" op_none trace_reg_e trace_none 1
    ∷ entry "LD E, A" op_none trace_reg_e trace_none 1
    ∷ []

unfoldable pub disasm_row_6 : List DisasmEntry
disasm_row_6 =
    entry "LD H, B" op_none trace_reg_h trace_none 1
    ∷ entry "LD H, C" op_none trace_reg_h trace_none 1
    ∷ entry "LD H, D" op_none trace_reg_h trace_none 1
    ∷ entry "LD H, E" op_none trace_reg_h trace_none 1
    ∷ entry "LD H, H" op_none trace_reg_h trace_none 1
    ∷ entry "LD H, L" op_none trace_reg_h trace_none 1
    ∷ entry "LD H, (HL)" op_none trace_reg_h trace_none 1
    ∷ entry "LD H, A" op_none trace_reg_h trace_none 1
    ∷ entry "LD L, B" op_none trace_reg_l trace_none 1
    ∷ entry "LD L, C" op_none trace_reg_l trace_none 1
    ∷ entry "LD L, D" op_none trace_reg_l trace_none 1
    ∷ entry "LD L, E" op_none trace_reg_l trace_none 1
    ∷ entry "LD L, H" op_none trace_reg_l trace_none 1
    ∷ entry "LD L, L" op_none trace_reg_l trace_none 1
    ∷ entry "LD L, (HL)" op_none trace_reg_l trace_none 1
    ∷ entry "LD L, A" op_none trace_reg_l trace_none 1
    ∷ []

unfoldable pub disasm_row_7 : List DisasmEntry
disasm_row_7 =
    entry "LD (HL), B" op_none trace_none trace_none 0
    ∷ entry "LD (HL), C" op_none trace_none trace_none 0
    ∷ entry "LD (HL), D" op_none trace_none trace_none 0
    ∷ entry "LD (HL), E" op_none trace_none trace_none 0
    ∷ entry "LD (HL), H" op_none trace_none trace_none 0
    ∷ entry "LD (HL), L" op_none trace_none trace_none 0
    ∷ unset
    ∷ entry "LD (HL), A" op_none trace_none trace_none 0
    ∷ entry "LD A, B" op_none trace_reg_a trace_none 1
    ∷ entry "LD A, C" op_none trace_reg_a trace_none 1
    ∷ entry "LD A, D" op_none trace_reg_a trace_none 1
    ∷ entry "LD A, E" op_none trace_reg_a trace_none 1
    ∷ entry "LD A, H" op_none trace_reg_a trace_none 1
    ∷ entry "LD A, L" op_none trace_reg_a trace_none 1
    ∷ entry "LD A, (HL)" op_none trace_reg_a trace_none 1
    ∷ entry "LD A, A" op_none trace_reg_a trace_none 1
    ∷ []
