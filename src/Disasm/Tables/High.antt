-- ===== src/Disasm/Tables/High.antt =====
-- Lines of `op_tbl` of core/src/disasm.c, sixteen instructions at a time, each at the number that
-- core/src/cpu-defs.h gives its index; `unset` is an index that no line sets.
use agoge.Prelude.{List, [], ◌∷◌}
use agoge.Ctx.{
  DisasmEntry, op_none, op_u8, op_u16, op_s8, trace_none, trace_reg_f, trace_reg_a, trace_reg_bc,
  trace_reg_de, trace_reg_hl, trace_reg_af, trace_reg_sp,
}
use agoge.Disasm.Tables.Entry.{entry, unset}

unfoldable pub disasm_row_c : List DisasmEntry
disasm_row_c =
    entry "RET NZ" op_none trace_none trace_none 0
    ∷ entry "POP BC" op_none trace_reg_bc trace_reg_sp 2
    ∷ entry "JP NZ, $%04X" op_u16 trace_none trace_none 0
    ∷ entry "JP $%04X" op_u16 trace_none trace_none 0
    ∷ entry "CALL NZ, $%04X" op_u16 trace_reg_sp trace_none 1
    ∷ entry "PUSH BC" op_none trace_reg_sp trace_none 1
    ∷ entry "ADD A, $%02X" op_none trace_reg_a trace_reg_f 2
    ∷ entry "RST $00" op_none trace_reg_sp trace_none 1
    ∷ entry "RET Z" op_none trace_reg_sp trace_none 1
    ∷ entry "RET" op_none trace_reg_sp trace_none 1
    ∷ entry "JP Z, $%04X" op_u16 trace_none trace_none 0
    ∷ unset
    ∷ entry "CALL Z, $%04X" op_u16 trace_reg_sp trace_none 1
    ∷ entry "CALL $%04X" op_u16 trace_reg_sp trace_none 1
    ∷ entry "RST $00" op_none trace_reg_sp trace_none 1
    ∷ entry "RST $08" op_none trace_reg_sp trace_none 1
    ∷ []

unfoldable pub disasm_row_d : List DisasmEntry
disasm_row_d =
    entry "RET NC" op_none trace_reg_sp trace_none 1
    ∷ entry "POP DE" op_none trace_reg_de trace_reg_sp 2
    ∷ entry "JP NC, $%04X" op_u16 trace_none trace_none 0
    ∷ unset
    ∷ entry "CALL NC, $%04X" op_u16 trace_none trace_none 0
    ∷ entry "PUSH DE" op_none trace_reg_sp trace_none 1
    ∷ entry "SUB A, $%02X" op_u8 trace_reg_a trace_reg_f 2
    ∷ entry "RST $10" op_none trace_reg_sp trace_none 1
    ∷ entry "RET C" op_none trace_reg_sp trace_none 1
    ∷ entry "RETI" op_none trace_reg_sp trace_none 1
    ∷ entry "JP C, $%04X" op_none trace_none trace_none 0
    ∷ unset
    ∷ entry "CALL C, $%04X" op_u16 trace_reg_sp trace_none 1
    ∷ unset
    ∷ entry "SBC A, $%02X" op_u8 trace_reg_a trace_reg_f 2
    ∷ entry "RST $18" op_none trace_reg_sp trace_none 1
    ∷ []

unfoldable pub disasm_row_e : List DisasmEntry
disasm_row_e =
    entry "LD (FF00+$%02X), A" op_u8 trace_none trace_none 0
    ∷ entry "POP HL" op_none trace_reg_hl trace_reg_sp 2
    ∷ entry "LD (FF00+C), A" op_none trace_none trace_none 0
    ∷ unset
    ∷ unset
    ∷ entry "PUSH HL" op_none trace_reg_sp trace_none 1
    ∷ entry "AND A, $%02X" op_u8 trace_reg_a trace_reg_f 2
    ∷ entry "RST $20" op_none trace_reg_sp trace_none 1
    ∷ entry "ADD SP, %d" op_none trace_reg_sp trace_reg_f 2
    ∷ entry "JP (HL)" op_none trace_none trace_none 0
    ∷ entry "LD ($%04X), A" op_u16 trace_none trace_none 0
    ∷ unset
    ∷ unset
    ∷ unset
    ∷ entry "XOR A, $%02X" op_u8 trace_reg_a trace_reg_f 2
    ∷ entry "RST $28" op_none trace_reg_f trace_none 1
    ∷ []

unfoldable pub disasm_row_f : List DisasmEntry
disasm_row_f =
    entry "LD A, (FF00+$%02X)" op_u8 trace_reg_a trace_none 1
    ∷ entry "POP AF" op_none trace_reg_af trace_reg_sp 2
    ∷ entry "LD A, (FF00+C)" op_none trace_reg_a trace_none 1
    ∷ entry "DI" op_none trace_none trace_none 0
    ∷ unset
    ∷ entry "PUSH AF" op_none trace_reg_sp trace_none 1
    ∷ entry "OR A, $%02X" op_u8 trace_reg_a trace_reg_f 2
    ∷ entry "RST $30" op_none trace_reg_sp trace_none 1
    ∷ entry "LD HL, SP+%d" op_s8 trace_reg_hl trace_none 1
    ∷ entry "LD SP, HL" op_none trace_reg_sp trace_none 1
    ∷ entry "LD A, ($%04X)" op_u16 trace_reg_a trace_none 1
    ∷ entry "EI" op_none trace_none trace_none 0
    ∷ unset
    ∷ unset
    ∷ entry "CP A, $%02X" op_u8 trace_reg_f trace_none 1
    ∷ entry "RST $38" op_none trace_reg_f trace_none 1
    ∷ []
