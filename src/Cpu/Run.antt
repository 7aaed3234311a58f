-- ===== src/Cpu/Run.antt =====
-- Dispatch: `agoge_core_cpu_run` and `agoge_core_cpu_reset` of core/src/cpu.c, and the entry points
-- of core/src/ctx.c.
use agoge.Prelude.{ℕ, zero, suc, u32, not, ◌==◌, Option, none, some, get_elem?}
use agoge.Step.{fault, null_jump, out_of_bounds, M, pure, ◌>>=◌, ◌>>◌, assert}
use agoge.Cpu.Reg.{reg_pc, wr16}
use agoge.Cpu.Alu.{read_u8}
use agoge.Cpu.Op.{
  Op, CbOp, row_0, row_1, row_2, row_3, row_c, row_d, row_e, row_f, ld, alu, prefix_cb,
}
use agoge.Cpu.Handlers.Low.{exec_row_0, exec_row_1, exec_row_2, exec_row_3}
use agoge.Cpu.Handlers.High.{exec_row_c, exec_row_d, exec_row_e, exec_row_f}
use agoge.Cpu.Handlers.Block.{exec_ld, exec_alu, exec_cb}
use agoge.Cpu.Tables.Ops.{op_tbl}
use agoge.Cpu.Tables.Cbs.{cb_tbl}

abbrev pub cpu_pwrup_reg_pc : ℕ
cpu_pwrup_reg_pc = 0x0100

-- `goto *cb_tbl[instr]`, up to the next `DISPATCH()`.
unfoldable pub goto_cb : Option CbOp → M (Unit {0})
unfolding exec_cb
goto_cb none = λ _. fault out_of_bounds
goto_cb (some op) = exec_cb op

-- The label `prefix_cb`.
unfoldable pub exec_prefix_cb : M (Unit {0})
unfolding read_u8 cb_tbl goto_cb
exec_prefix_cb = do instr ← read_u8; goto_cb (get_elem? cb_tbl instr)

unfoldable pub exec_op : Op → M (Unit {0})
unfolding exec_row_0 exec_row_1 exec_row_2 exec_row_3 exec_row_c exec_row_d exec_row_e exec_row_f
    exec_ld exec_alu exec_prefix_cb
exec_op (row_0 op) = exec_row_0 op
exec_op (row_1 op) = exec_row_1 op
exec_op (row_2 op) = exec_row_2 op
exec_op (row_3 op) = exec_row_3 op
exec_op (row_c op) = exec_row_c op
exec_op (row_d op) = exec_row_d op
exec_op (row_e op) = exec_row_e op
exec_op (row_f op) = exec_row_f op
exec_op (ld x y) = exec_ld x y
exec_op (alu op y) = exec_alu op y
exec_op prefix_cb = exec_prefix_cb

-- `goto *op_tbl[instr]`, up to the next `DISPATCH()`.
unfoldable pub goto_op : Option (Option Op) → M (Unit {0})
unfolding exec_op
goto_op none = λ _. fault out_of_bounds
goto_op (some none) = λ _. fault null_jump
goto_op (some (some op)) = exec_op op

-- One instruction.
unfoldable pub cpu_step : M (Unit {0})
unfolding read_u8 op_tbl goto_op
cpu_step = do instr ← read_u8; goto_op (get_elem? op_tbl instr)

-- `DISPATCH()`, until `run_cycles` is used up.
unfoldable pub dispatch : ℕ → M (Unit {0})
unfolding cpu_step
dispatch zero = pure tt
dispatch (suc run_cycles) = do cpu_step; dispatch run_cycles

-- `agoge_core_cpu_run`, whose count is an unsigned int. Control enters at the label `nop`, which is a bare `DISPATCH()`.
unfoldable pub cpu_run : ℕ → M (Unit {0})
unfolding assert dispatch
cpu_run run_cycles = do assert (not (u32 run_cycles == 0)); dispatch (u32 run_cycles)

unfoldable pub cpu_reset : M (Unit {0})
unfolding wr16
cpu_reset = wr16 reg_pc cpu_pwrup_reg_pc

-- `agoge_core_ctx_reset` and `agoge_core_ctx_step`, whose count is an unsigned int too.
unfoldable pub ctx_reset : M (Unit {0})
unfolding cpu_reset
ctx_reset = cpu_reset

unfoldable pub ctx_step : ℕ → M (Unit {0})
unfolding assert cpu_run
ctx_step num_cycles = do assert (not (u32 num_cycles == 0)); cpu_run (u32 num_cycles)
