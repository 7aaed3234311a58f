-- ===== src/Disasm/Tables.antt =====
-- The two tables of core/src/disasm.c.
pub mod Entry
pub mod Low
pub mod Loads
pub mod Alus
pub mod High
pub mod Shifts
pub mod Bits
pub mod Resets
pub mod Sets
use agoge.Prelude.{List, ◌++◌}
use agoge.Ctx.{DisasmEntry}
use agoge.Disasm.Tables.Low.{disasm_row_0, disasm_row_1, disasm_row_2, disasm_row_3}
use agoge.Disasm.Tables.Loads.{disasm_row_4, disasm_row_5, disasm_row_6, disasm_row_7}
use agoge.Disasm.Tables.Alus.{disasm_row_8, disasm_row_9, disasm_row_a, disasm_row_b}
use agoge.Disasm.Tables.High.{disasm_row_c, disasm_row_d, disasm_row_e, disasm_row_f}
use agoge.Disasm.Tables.Shifts.{disasm_cb_row_0, disasm_cb_row_1, disasm_cb_row_2, disasm_cb_row_3}
use agoge.Disasm.Tables.Bits.{disasm_cb_row_4, disasm_cb_row_5, disasm_cb_row_6, disasm_cb_row_7}
use agoge.Disasm.Tables.Resets.{disasm_cb_row_8, disasm_cb_row_9, disasm_cb_row_a, disasm_cb_row_b}
use agoge.Disasm.Tables.Sets.{disasm_cb_row_c, disasm_cb_row_d, disasm_cb_row_e, disasm_cb_row_f}

-- `op_tbl` of core/src/disasm.c.
unfoldable pub disasm_op_tbl : List DisasmEntry
unfolding disasm_row_0 disasm_row_1 disasm_row_2 disasm_row_3 disasm_row_4 disasm_row_5 disasm_row_6
    disasm_row_7 disasm_row_8 disasm_row_9 disasm_row_a disasm_row_b disasm_row_c disasm_row_d
    disasm_row_e disasm_row_f
disasm_op_tbl =
    disasm_row_0
    ++ (disasm_row_1
        ++ (disasm_row_2
            ++ (disasm_row_3
                ++ (disasm_row_4
                    ++ (disasm_row_5
                        ++ (disasm_row_6
                            ++ (disasm_row_7
                                ++ (disasm_row_8
                                    ++ (disasm_row_9
                                        ++ (disasm_row_a
                                            ++ (disasm_row_b
                                                ++ (disasm_row_c
                                                    ++ (disasm_row_d
                                                        ++ (disasm_row_e
                                                            ++ disasm_row_f))))))))))))))

-- `cb_tbl` of core/src/disasm.c.
unfoldable pub disasm_cb_tbl : List DisasmEntry
unfolding disasm_cb_row_0 disasm_cb_row_1 disasm_cb_row_2 disasm_cb_row_3 disasm_cb_row_4
    disasm_cb_row_5 disasm_cb_row_6 disasm_cb_row_7 disasm_cb_row_8 disasm_cb_row_9 disasm_cb_row_a
    disasm_cb_row_b disasm_cb_row_c disasm_cb_row_d disasm_cb_row_e disasm_cb_row_f
disasm_cb_tbl =
    disasm_cb_row_0
    ++ (disasm_cb_row_1
        ++ (disasm_cb_row_2
            ++ (disasm_cb_row_3
                ++ (disasm_cb_row_4
                    ++ (disasm_cb_row_5
                        ++ (disasm_cb_row_6
                            ++ (disasm_cb_row_7
                                ++ (disasm_cb_row_8
                                    ++ (disasm_cb_row_9
                                        ++ (disasm_cb_row_a
                                            ++ (disasm_cb_row_b
                                                ++ (disasm_cb_row_c
                                                    ++ (disasm_cb_row_d
                                                        ++ (disasm_cb_row_e
                                                            ++ disasm_cb_row_f))))))))))))))
