-- ===== src/Disasm/Tables/Entry.antt =====
-- The entries of the tables of core/src/disasm.c, and the macros that write them.
use Prim.Native.String.{String}
use agoge.Prelude.{ℕ, none, some}
use agoge.Ctx.{DisasmEntry, DisasmOp, DisasmTrace, op_none, trace_none, trace_reg_f}

abbrev pub entry : String → DisasmOp → DisasmTrace → DisasmTrace → ℕ → DisasmEntry
entry fmt op trace_0 trace_1 num_traces = record {
  fmt = some fmt;
  op = op;
  trace_0 = trace_0;
  trace_1 = trace_1;
  num_traces = num_traces;
}

-- All zero.
abbrev pub unset : DisasmEntry
unset = record {
  fmt = none;
  op = op_none;
  trace_0 = trace_none;
  trace_1 = trace_none;
  num_traces = 0;
}

abbrev pub cb_instr : String → DisasmTrace → DisasmEntry
cb_instr x trace = entry x op_none trace trace_reg_f 2

abbrev pub cb_instr_bit : String → DisasmEntry
cb_instr_bit x = entry x op_none trace_reg_f trace_none 1

abbrev pub cb_instr_res_set : String → DisasmTrace → DisasmEntry
cb_instr_res_set x trace = entry x op_none trace trace_none 1
