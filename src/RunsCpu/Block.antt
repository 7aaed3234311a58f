-- ===== src/RunsCpu/Block.antt =====
-- Validity of the context under the handlers of the regular blocks and of the CB table.
use agoge.Prelude.{ℕ, suc, ◌≡◌, Bool, true, leb}
use agoge.Cpu.Op.{Operand, reg, mem_hl, AluOp, add_a, ShiftOp, rlc, CbOp, shift, bit, res, set}
use agoge.Cpu.Handlers.Block.{
  read_operand, write_operand, exec_ld, alu_op, exec_alu, alu_shift, alu_shift_mem_hl, exec_shift,
  exec_bit, exec_res, exec_set, exec_cb,
}
use agoge.Runs.{Runs}
use agoge.RunsCpu.Helpers.{alu_rules, Runs-on_mem_hl}
use agoge.RunsCpu.Flow.{op_rules}

module _ (n : ℕ) where
  Runs-read_operand : (y : Operand) → Runs n (read_operand y)
  unfolding read_operand
  Runs-read_operand (reg x) = search op_rules depth 12
  Runs-read_operand mem_hl = search op_rules depth 12

  Runs-write_operand : (y : Operand) (v : ℕ) → Runs (suc n) (write_operand y v)
  unfolding write_operand
  Runs-write_operand (reg x) v = search op_rules depth 12
  Runs-write_operand mem_hl v = search op_rules depth 12

  Runs-alu_op : (op : AluOp) (v : ℕ) → Runs n (alu_op op v)
  unfolding alu_op
  Runs-alu_op add_a v = search op_rules depth 12
  Runs-alu_op _ v = search op_rules depth 12

  Runs-alu_shift : (op : ShiftOp) (v : ℕ) → Runs n (alu_shift op v)
  unfolding alu_shift
  Runs-alu_shift rlc v = search alu_rules depth 12
  Runs-alu_shift _ v = search alu_rules depth 12

  Runs-alu_shift_mem_hl : (op : ShiftOp) → Runs (suc n) (alu_shift_mem_hl op)
  unfolding alu_shift_mem_hl
  Runs-alu_shift_mem_hl rlc = search (alu_rules, Runs-on_mem_hl) depth 12
  Runs-alu_shift_mem_hl _ = search (alu_rules, Runs-on_mem_hl) depth 12

module _ (n : ℕ) where
  pub Runs-exec_ld : (x y : Operand) → Runs (suc n) (exec_ld x y)
  unfolding exec_ld
  Runs-exec_ld x y = search (op_rules, Runs-read_operand, Runs-write_operand) depth 12

  pub Runs-exec_alu : (op : AluOp) (y : Operand) → Runs n (exec_alu op y)
  unfolding exec_alu
  Runs-exec_alu op y = search (op_rules, Runs-read_operand, Runs-alu_op) depth 12

  Runs-exec_shift : (op : ShiftOp) (y : Operand) → Runs (suc n) (exec_shift op y)
  unfolding exec_shift
  Runs-exec_shift op (reg x) = search (op_rules, Runs-alu_shift) depth 12
  Runs-exec_shift op mem_hl = Runs-alu_shift_mem_hl n op

  Runs-exec_bit : (b : ℕ) (y : Operand) → leb b 7 ≡ true → Runs n (exec_bit b y)
  unfolding exec_bit
  Runs-exec_bit b y e = search (op_rules, Runs-read_operand) depth 12

  Runs-exec_res : (b : ℕ) (y : Operand) → leb b 7 ≡ true → Runs (suc n) (exec_res b y)
  unfolding exec_res
  Runs-exec_res b (reg x) e = search op_rules depth 12
  Runs-exec_res b mem_hl e = search op_rules depth 12

  Runs-exec_set : (b : ℕ) (y : Operand) → leb b 7 ≡ true → Runs (suc n) (exec_set b y)
  unfolding exec_set
  Runs-exec_set b (reg x) e = search op_rules depth 12
  Runs-exec_set b mem_hl e = search op_rules depth 12

-- The bit number of a CB instruction is one of a byte.
abbrev pub bit_number_ok : CbOp → Bool
bit_number_ok (shift op y) = true
bit_number_ok (bit b y) = leb b 7
bit_number_ok (res b y) = leb b 7
bit_number_ok (set b y) = leb b 7

pub Runs-exec_cb : (op : CbOp) → bit_number_ok op ≡ true → Runs 2 (exec_cb op)
unfolding exec_cb
Runs-exec_cb (shift op y) e = Runs-exec_shift 1 op y
Runs-exec_cb (bit b y) e = Runs-exec_bit 2 b y e
Runs-exec_cb (res b y) e = Runs-exec_res 1 b y e
Runs-exec_cb (set b y) e = Runs-exec_set 1 b y e
