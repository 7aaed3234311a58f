-- ===== src/Disasm/Tables/Alus.antt =====
-- Lines of `op_tbl` of core/src/disasm.c, sixteen instructions at a time, each at the number that
-- core/src/cpu-defs.h gives its index; `unset` is an index that no line sets.
use agoge.Prelude.{List, [], ◌∷◌}
use agoge.Ctx.{DisasmEntry, op_none, trace_reg_f, trace_reg_a}
use agoge.Disasm.Tables.Entry.{entry}

unfoldable pub disasm_row_8 : List DisasmEntry
disasm_row_8 =
    entry "ADD A, B" op_none trace_reg_a trace_reg_f 2
    ∷ entry "ADD A, C" op_none trace_reg_a trace_reg_f 2
    ∷ entry "ADD A, D" op_none trace_reg_a trace_reg_f 2
    ∷ entry "ADD A, E" op_none trace_reg_a trace_reg_f 2
    ∷ entry "ADD A, H" op_none trace_reg_a trace_reg_f 2
    ∷ entry "ADD A, L" op_none trace_reg_a trace_reg_f 2
    ∷ entry "ADD A, (HL)" op_none trace_reg_a trace_reg_f 2
    ∷ entry "ADD A, A" op_none trace_reg_a trace_reg_f 2
    ∷ entry "ADC A, B" op_none trace_reg_a trace_reg_f 2
    ∷ entry "ADC A, C" op_none trace_reg_a trace_reg_f 2
    ∷ entry "ADC A, D" op_none trace_reg_a trace_reg_f 2
    ∷ entry "ADC A, E" op_none trace_reg_a trace_reg_f 2
    ∷ entry "ADC A, H" op_none trace_reg_a trace_reg_f 2
    ∷ entry "ADC A, L" op_none trace_reg_a trace_reg_f 2
    ∷ entry "ADC A, (HL)" op_none trace_reg_a trace_reg_f 2
    ∷ entry "ADC A, A" op_none trace_reg_a trace_reg_f 2
    ∷ []

unfoldable pub disasm_row_9 : List DisasmEntry
disasm_row_9 =
    entry "SUB A, B" op_none trace_reg_a trace_reg_f 2
    ∷ entry "SUB A, C" op_none trace_reg_a trace_reg_f 2
    ∷ entry "SUB A, D" op_none trace_reg_a trace_reg_f 2
    ∷ entry "SUB A, E" op_none trace_reg_a trace_reg_f 2
    ∷ entry "SUB A, H" op_none trace_reg_a trace_reg_f 2
    ∷ entry "SUB A, L" op_none trace_reg_a trace_reg_f 2
    ∷ entry "SUB A, (HL)" op_none trace_reg_a trace_reg_f 2
    ∷ entry "SUB A, A" op_none trace_reg_a trace_reg_f 2
    ∷ entry "SBC A, B" op_none trace_reg_a trace_reg_f 2
    ∷ entry "SBC A, C" op_none trace_reg_a trace_reg_f 2
    ∷ entry "SBC A, D" op_none trace_reg_a trace_reg_f 2
    ∷ entry "SBC A, E" op_none trace_reg_a trace_reg_f 2
    ∷ entry "SBC A, H" op_none trace_reg_a trace_reg_f 2
    ∷ entry "SBC A, L" op_none trace_reg_a trace_reg_f 2
    ∷ entry "SBC A, (HL)" op_none trace_reg_a trace_reg_f 2
    ∷ entry "SBC A, A" op_none trace_reg_a trace_reg_f 2
    ∷ []

unfoldable pub disasm_row_a : List DisasmEntry
disasm_row_a =
    entry "AND A, B" op_none trace_reg_a trace_reg_f 2
    ∷ entry "AND A, C" op_none trace_reg_a trace_reg_f 2
    ∷ entry "AND A, D" op_none trace_reg_a trace_reg_f 2
    ∷ entry "AND A, E" op_none trace_reg_a trace_reg_f 2
    ∷ entry "AND A, H" op_none trace_reg_a trace_reg_f 2
    ∷ entry "AND A, L" op_none trace_reg_a trace_reg_f 2
    ∷ entry "AND A, (HL)" op_none trace_reg_a trace_reg_f 2
    ∷ entry "AND A, A" op_none trace_reg_a trace_reg_f 2
    ∷ entry "XOR A, B" op_none trace_reg_a trace_reg_f 2
    ∷ entry "XOR A, C" op_none trace_reg_a trace_reg_f 2
    ∷ entry "XOR A, D" op_none trace_reg_a trace_reg_f 2
    ∷ entry "XOR A, E" op_none trace_reg_a trace_reg_f 2
    ∷ entry "XOR A, H" op_none trace_reg_a trace_reg_f 2
    ∷ entry "XOR A, L" op_none trace_reg_a trace_reg_f 2
    ∷ entry "XOR A, (HL)" op_none trace_reg_a trace_reg_f 2
    ∷ entry "XOR A, A" op_none trace_reg_a trace_reg_f 2
    ∷ []

unfoldable pub disasm_row_b : List DisasmEntry
disasm_row_b =
    entry "OR A, B" op_none trace_reg_a trace_reg_f 2
    ∷ entry "OR A, C" op_none trace_reg_a trace_reg_f 2
    ∷ entry "OR A, D" op_none trace_reg_a trace_reg_f 2
    ∷ entry "OR A, E" op_none trace_reg_a trace_reg_f 2
    ∷ entry "OR A, H" op_none trace_reg_a trace_reg_f 2
    ∷ entry "OR A, L" op_none trace_reg_a trace_reg_f 2
    ∷ entry "OR A, (HL)" op_none trace_reg_a trace_reg_f 2
    ∷ entry "OR A, A" op_none trace_reg_a trace_reg_f 2
    ∷ entry "CP A, B" op_none trace_reg_a trace_reg_f 2
    ∷ entry "CP A, C" op_none trace_reg_a trace_reg_f 2
    ∷ entry "CP A, D" op_none trace_reg_a trace_reg_f 2
    ∷ entry "CP A, E" op_none trace_reg_a trace_reg_f 2
    ∷ entry "CP A, H" op_none trace_reg_a trace_reg_f 2
    ∷ entry "CP A, L" op_none trace_reg_a trace_reg_f 2
    ∷ entry "CP A, (HL)" op_none trace_reg_a trace_reg_f 2
    ∷ entry "CP A, A" op_none trace_reg_a trace_reg_f 2
    ∷ []
