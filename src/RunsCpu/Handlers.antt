-- ===== src/RunsCpu/Handlers.antt =====
-- Validity of the context under every handler of `agoge_core_cpu_run`, with two bytes of room at the
-- serial port.
use agoge.Prelude.{ℕ, suc, refl, Bool, bit_or}
use agoge.Cpu.Alu.{alu_inc_mem_hl, clear_subtract_half_carry}
use agoge.Cpu.Op.{
  Op0, Op1, Op2, Op3, ccf, OpC, OpD, OpE, OpF, nop, ld_de_u16, jr_nz_s8, jr_nc_s8, ret_nz,
  call_z_u16, pop_hl, pop_af, ld_a_mem_ff00_u8,
}
use agoge.Cpu.Handlers.Low.{exec_row_0, exec_row_1, exec_row_2, exec_row_3}
use agoge.Cpu.Handlers.High.{exec_row_c, exec_row_d, exec_row_e, exec_row_f}
use agoge.Runs.{Runs, Runs-bind}
use agoge.Cpu.Reg.{cpu_flag_subtract, cpu_flag_half_carry}
use agoge.RunsReg.{Runs-flags_clear, Runs-f_xor_carry, Runs-wr_af_masked}
use agoge.RunsCpu.Helpers.{alu_rules, Runs-on_mem_hl, Runs-alu_inc}
use agoge.Cpu.Flow.{stack_push, call_if, rst}
use agoge.RunsCpu.Flow.{Runs-stack_push, Runs-call_if, Runs-rst, op_rules}

Runs-alu_inc_mem_hl : (n : ℕ) → Runs (suc n) alu_inc_mem_hl
unfolding alu_inc_mem_hl
Runs-alu_inc_mem_hl n = search (Runs-on_mem_hl, Runs-alu_inc) depth 12

-- A push, a call and a restart use up the two bytes.
Runs-stack_push_two : (v : ℕ) → Runs 2 (stack_push v)
Runs-stack_push_two v = Runs-stack_push 0 v

Runs-call_if_two : (x : Bool) → Runs 2 (call_if x)
Runs-call_if_two x = Runs-call_if 0 x

Runs-rst_two : (v : ℕ) → Runs 2 (rst v)
Runs-rst_two v = Runs-rst 0 v

ruleset handler_rules = (op_rules, alu_rules, Runs-stack_push_two, Runs-call_if_two, Runs-rst_two)

pub Runs-exec_row_0 : (op : Op0) → Runs 2 (exec_row_0 op)
unfolding exec_row_0
Runs-exec_row_0 nop = search handler_rules depth 12
Runs-exec_row_0 _ = search handler_rules depth 12

pub Runs-exec_row_1 : (op : Op1) → Runs 2 (exec_row_1 op)
unfolding exec_row_1
Runs-exec_row_1 ld_de_u16 = search handler_rules depth 12
Runs-exec_row_1 _ = search handler_rules depth 12

pub Runs-exec_row_2 : (op : Op2) → Runs 2 (exec_row_2 op)
unfolding exec_row_2
Runs-exec_row_2 jr_nz_s8 = search handler_rules depth 12
Runs-exec_row_2 _ = search handler_rules depth 12

pub Runs-exec_row_3 : (op : Op3) → Runs 2 (exec_row_3 op)
unfolding exec_row_3
Runs-exec_row_3 jr_nc_s8 = search handler_rules depth 12
Runs-exec_row_3 ccf =
    Runs-bind 2 clear_subtract_half_carry _
      (Runs-flags_clear 0 (bit_or cpu_flag_subtract cpu_flag_half_carry) refl)
      (λ _. Runs-f_xor_carry 2)
Runs-exec_row_3 _ = search handler_rules depth 12

pub Runs-exec_row_c : (op : OpC) → Runs 2 (exec_row_c op)
unfolding exec_row_c
Runs-exec_row_c ret_nz = search handler_rules depth 12
Runs-exec_row_c _ = search handler_rules depth 12

pub Runs-exec_row_d : (op : OpD) → Runs 2 (exec_row_d op)
unfolding exec_row_d
Runs-exec_row_d call_z_u16 = search handler_rules depth 12
Runs-exec_row_d _ = search handler_rules depth 12

pub Runs-exec_row_e : (op : OpE) → Runs 2 (exec_row_e op)
unfolding exec_row_e
Runs-exec_row_e pop_hl = search handler_rules depth 12
Runs-exec_row_e _ = search handler_rules depth 12

pub Runs-exec_row_f : (op : OpF) → Runs 2 (exec_row_f op)
unfolding exec_row_f
Runs-exec_row_f ld_a_mem_ff00_u8 = search handler_rules depth 12
Runs-exec_row_f pop_af = search (op_rules, Runs-wr_af_masked) depth 12
Runs-exec_row_f _ = search handler_rules depth 12
