-- ===== src/Disasm/Tables/Bits.antt =====
-- Lines of `cb_tbl` of core/src/disasm.c, sixteen instructions at a time, each at the number that
-- core/src/cpu-defs.h gives its index.
use agoge.Prelude.{List, [], ◌∷◌}
use agoge.Ctx.{DisasmEntry}
use agoge.Disasm.Tables.Entry.{cb_instr_bit}

unfoldable pub disasm_cb_row_4 : List DisasmEntry
disasm_cb_row_4 =
    cb_instr_bit "BIT 0, B"
    ∷ cb_instr_bit "BIT 0, C"
    ∷ cb_instr_bit "BIT 0, D"
    ∷ cb_instr_bit "BIT 0, E"
    ∷ cb_instr_bit "BIT 0, H"
    ∷ cb_instr_bit "BIT 0, L"
    ∷ cb_instr_bit "BIT 0, (HL)"
    ∷ cb_instr_bit "BIT 0, A"
    ∷ cb_instr_bit "BIT 1, B"
    ∷ cb_instr_bit "BIT 1, C"
    ∷ cb_instr_bit "BIT 1, D"
    ∷ cb_instr_bit "BIT 1, E"
    ∷ cb_instr_bit "BIT 1, H"
    ∷ cb_instr_bit "BIT 1, L"
    ∷ cb_instr_bit "BIT 1, (HL)"
    ∷ cb_instr_bit "BIT 1, A"
    ∷ []

unfoldable pub disasm_cb_row_5 : List DisasmEntry
disasm_cb_row_5 =
    cb_instr_bit "BIT 2, B"
    ∷ cb_instr_bit "BIT 2, C"
    ∷ cb_instr_bit "BIT 2, D"
    ∷ cb_instr_bit "BIT 2, E"
    ∷ cb_instr_bit "BIT 2, H"
    ∷ cb_instr_bit "BIT 2, L"
    ∷ cb_instr_bit "BIT 2, (HL)"
    ∷ cb_instr_bit "BIT 2, A"
    ∷ cb_instr_bit "BIT 3, B"
    ∷ cb_instr_bit "BIT 3, C"
    ∷ cb_instr_bit "BIT 3, D"
    ∷ cb_instr_bit "BIT 3, E"
    ∷ cb_instr_bit "BIT 3, H"
    ∷ cb_instr_bit "BIT 3, L"
    ∷ cb_instr_bit "BIT 3, (HL)"
    ∷ cb_instr_bit "BIT 3, A"
    ∷ []

unfoldable pub disasm_cb_row_6 : List DisasmEntry
disasm_cb_row_6 =
    cb_instr_bit "BIT 4, B"
    ∷ cb_instr_bit "BIT 4, C"
    ∷ cb_instr_bit "BIT 4, D"
    ∷ cb_instr_bit "BIT 4, E"
    ∷ cb_instr_bit "BIT 4, H"
    ∷ cb_instr_bit "BIT 4, L"
    ∷ cb_instr_bit "BIT 4, (HL)"
    ∷ cb_instr_bit "BIT 4, A"
    ∷ cb_instr_bit "BIT 5, B"
    ∷ cb_instr_bit "BIT 5, C"
    ∷ cb_instr_bit "BIT 5, D"
    ∷ cb_instr_bit "BIT 5, E"
    ∷ cb_instr_bit "BIT 5, H"
    ∷ cb_instr_bit "BIT 5, L"
    ∷ cb_instr_bit "BIT 5, (HL)"
    ∷ cb_instr_bit "BIT 5, A"
    ∷ []

unfoldable pub disasm_cb_row_7 : List DisasmEntry
disasm_cb_row_7 =
    cb_instr_bit "BIT 6, B"
    ∷ cb_instr_bit "BIT 6, C"
    ∷ cb_instr_bit "BIT 6, D"
    ∷ cb_instr_bit "BIT 6, E"
    ∷ cb_instr_bit "BIT 6, H"
    ∷ cb_instr_bit "BIT 6, L"
    ∷ cb_instr_bit "BIT 6, (HL)"
    ∷ cb_instr_bit "BIT 6, A"
    ∷ cb_instr_bit "BIT 7, B"
    ∷ cb_instr_bit "BIT 7, C"
    ∷ cb_instr_bit "BIT 7, D"
    ∷ cb_instr_bit "BIT 7, E"
    ∷ cb_instr_bit "BIT 7, H"
    ∷ cb_instr_bit "BIT 7, L"
    ∷ cb_instr_bit "BIT 7, (HL)"
    ∷ cb_instr_bit "BIT 7, A"
    ∷ []
