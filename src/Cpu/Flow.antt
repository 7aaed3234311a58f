-- ===== src/Cpu/Flow.antt =====
-- The stack, and jumps, calls and returns: core/src/cpu.c.
use agoge.Prelude.{ℕ, ◌+◌, Bool, if◌then◌else◌, s8, ◌<<<◌, ◌>>>◌, bit_and, bit_or}
use agoge.Step.{M, pure, ◌>>=◌, ◌>>◌}
use agoge.Bus.{bus_read, bus_write}
use agoge.Cpu.Reg.{reg_sp, reg_pc, rd16, wr16}
use agoge.Cpu.Alu.{read_u8, read_u16}

-- `--sp` and a write at the new `sp`.
unfoldable pub push_u8 : ℕ → M (Unit {0})
unfolding rd16 wr16 bus_write
push_u8 v = do sp ← rd16 reg_sp; wr16 reg_sp (sp + 65535); sp' ← rd16 reg_sp; bus_write sp' v

unfoldable pub stack_push : ℕ → M (Unit {0})
unfolding push_u8
stack_push val = do push_u8 (val >>> 8); push_u8 (bit_and val 0xFF)

-- A read at `sp++`.
unfoldable pub pop_u8 : M ℕ
unfolding rd16 wr16 bus_read
pop_u8 = do sp ← rd16 reg_sp; wr16 reg_sp (sp + 1); bus_read sp

unfoldable pub stack_pop : M ℕ
unfolding pop_u8
stack_pop = do lo ← pop_u8; hi ← pop_u8; pure (bit_or (hi <<< 8) lo)

unfoldable pub jp_if : Bool → M (Unit {0})
unfolding read_u16 wr16
jp_if cond_met = do addr ← read_u16; if cond_met then wr16 reg_pc addr else pure tt

unfoldable pub ret_if : Bool → M (Unit {0})
unfolding stack_pop wr16
ret_if cond_met = if cond_met then (do addr ← stack_pop; wr16 reg_pc addr) else pure tt

unfoldable pub call_if : Bool → M (Unit {0})
unfolding read_u16 rd16 stack_push wr16
call_if cond_met = do
  addr ← read_u16
  if cond_met then (do pc ← rd16 reg_pc; stack_push pc; wr16 reg_pc addr) else pure tt

unfoldable pub jr_if : Bool → M (Unit {0})
unfolding read_u8 rd16 wr16
jr_if cond_met = do
  off ← read_u8
  if cond_met then (do pc ← rd16 reg_pc; wr16 reg_pc (pc + s8 off)) else pure tt

unfoldable pub rst : ℕ → M (Unit {0})
unfolding rd16 stack_push wr16
rst vec = do pc ← rd16 reg_pc; stack_push pc; wr16 reg_pc vec
