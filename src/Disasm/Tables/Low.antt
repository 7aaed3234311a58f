-- ===== src/Disasm/Tables/Low.antt =====
-- Lines of `op_tbl` of core/src/disasm.c, sixteen instructions at a time, each at the number that
-- core/src/cpu-defs.h gives its index; `unset` is an index that no line sets.
use agoge.Prelude.{List, [], ◌∷◌}
use agoge.Ctx.{
  DisasmEntry, op_none, op_u8, op_u16, op_branch, trace_none, trace_reg_b, trace_reg_c, trace_reg_d,
  trace_reg_e, trace_reg_f, trace_reg_h, trace_reg_l, trace_reg_a, trace_reg_bc, trace_reg_de,
  trace_reg_hl, trace_reg_sp,
}
use agoge.Disasm.Tables.Entry.{entry, unset}

unfoldable pub disasm_row_0 : List DisasmEntry
disasm_row_0 =
    entry "NOP" op_none trace_none trace_none 0
    ∷ entry "LD BC, $%04X" op_u16 trace_reg_bc trace_none 1
    ∷ entry "LD (BC), A" op_none trace_none trace_none 0
    ∷ entry "INC BC" op_none trace_reg_bc trace_none 1
    ∷ entry "INC B" op_none trace_reg_b trace_reg_f 2
    ∷ entry "DEC B" op_none trace_reg_b trace_reg_f 2
    ∷ entry "LD B, $%02X" op_u8 trace_reg_b trace_none 1
    ∷ entry "RLCA" op_none trace_reg_a trace_reg_f 2
    ∷ entry "LD ($%04X), SP" op_u16 trace_none trace_none 1
    ∷ entry "ADD HL, BC" op_none trace_reg_hl trace_reg_f 2
    ∷ entry "LD A, (BC)" op_none trace_reg_a trace_none 1
    ∷ entry "DEC BC" op_none trace_reg_bc trace_none 1
    ∷ entry "INC C" op_none trace_reg_c trace_reg_f 2
    ∷ entry "DEC C" op_none trace_reg_c trace_reg_f 2
    ∷ entry "LD C, $%02X" op_u8 trace_reg_c trace_none 1
    ∷ entry "RRCA" op_none trace_reg_a trace_reg_f 2
    ∷ []

unfoldable pub disasm_row_1 : List DisasmEntry
disasm_row_1 =
    unset
    ∷ entry "LD DE, $%04X" op_u16 trace_reg_de trace_none 1
    ∷ entry "LD (DE), A" op_none trace_none trace_none 0
    ∷ entry "INC DE" op_none trace_reg_de trace_none 1
    ∷ entry "INC D" op_none trace_reg_d trace_reg_f 2
    ∷ entry "DEC D" op_none trace_reg_d trace_reg_f 2
    ∷ entry "LD D, $%02X" op_u8 trace_reg_d trace_none 1
    ∷ entry "RLA" op_none trace_reg_a trace_reg_f 2
    ∷ entry "JR $%04X" op_branch trace_none trace_none 0
    ∷ entry "ADD HL, DE" op_none trace_reg_hl trace_reg_f 2
    ∷ entry "LD A, (DE)" op_none trace_reg_a trace_none 1
    ∷ entry "DEC DE" op_none trace_reg_de trace_none 1
    ∷ entry "INC E" op_none trace_reg_e trace_reg_f 2
    ∷ entry "DEC E" op_none trace_reg_e trace_reg_f 2
    ∷ entry "LD E, $%02X" op_u8 trace_reg_e trace_none 1
    ∷ entry "RRA" op_none trace_reg_a trace_reg_f 2
    ∷ []

unfoldable pub disasm_row_2 : List DisasmEntry
disasm_row_2 =
    entry "JR NZ, $%04X" op_branch trace_none trace_none 0
    ∷ entry "LD HL, $%04X" op_u16 trace_reg_hl trace_none 1
    ∷ entry "LDI (HL), A" op_none trace_none trace_none 0
    ∷ entry "INC HL" op_none trace_reg_hl trace_none 1
    ∷ entry "INC H" op_none trace_reg_h trace_reg_f 2
    ∷ entry "DEC H" op_none trace_reg_h trace_reg_f 2
    ∷ entry "LD H, $%02X" op_u8 trace_reg_h trace_none 1
    ∷ entry "DAA" op_none trace_none trace_none 0
    ∷ entry "JR Z, $%04X" op_branch trace_none trace_none 0
    ∷ entry "ADD HL, HL" op_none trace_reg_hl trace_reg_f 2
    ∷ entry "LDI A, (HL)" op_none trace_reg_a trace_none 1
    ∷ entry "DEC HL" op_none trace_reg_hl trace_none 1
    ∷ entry "INC L" op_none trace_reg_l trace_reg_f 2
    ∷ entry "DEC L" op_none trace_reg_l trace_reg_f 2
    ∷ entry "LD L, $%02X" op_u8 trace_reg_l trace_none 1
    ∷ entry "CPL" op_none trace_reg_a trace_reg_f 2
    ∷ []

unfoldable pub disasm_row_3 : List DisasmEntry
disasm_row_3 =
    entry "JR NC, $%04X" op_branch trace_none trace_none 0
    ∷ entry "LD SP, $%04X" op_u16 trace_reg_sp trace_none 1
    ∷ entry "LDD (HL), A" op_none trace_reg_hl trace_none 1
    ∷ entry "INC SP" op_none trace_reg_sp trace_none 1
    ∷ entry "INC (HL)" op_none trace_none trace_none 0
    ∷ entry "DEC (HL)" op_none trace_none trace_none 0
    ∷ entry "LD (HL), $%02X" op_none trace_none trace_none 0
    ∷ entry "SCF" op_none trace_reg_f trace_none 1
    ∷ entry "JR C, $%04X" op_branch trace_none trace_none 0
    ∷ entry "ADD HL, SP" op_none trace_reg_hl trace_reg_f 2
    ∷ entry "LDD A, (HL)" op_none trace_reg_a trace_none 1
    ∷ entry "DEC SP" op_none trace_reg_sp trace_none 1
    ∷ entry "INC A" op_none trace_reg_a trace_reg_f 2
    ∷ entry "DEC A" op_none trace_reg_a trace_reg_f 2
    ∷ entry "LD A, $%02X" op_none trace_reg_a trace_none 1
    ∷ entry "CCF" op_none trace_reg_f trace_none 1
    ∷ []
