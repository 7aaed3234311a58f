-- ===== src/RunsCpu/Flow.antt =====
-- Validity of the context under arithmetic, the stack and the jumps of core/src/cpu.c. A push writes
-- two bytes.
use agoge.Prelude.{ℕ, suc, ◌≡◌, Bool, true, leb}
use agoge.Cpu.Arith.{
  alu_bit, alu_add_sp, alu_add_hl, alu_add_op, alu_sub_op, alu_add, alu_adc, alu_sub, alu_sbc,
  alu_cp, alu_res_hl, alu_set_hl, alu_or, alu_and, alu_xor, op_daa,
}
use agoge.Cpu.Flow.{push_u8, stack_push, pop_u8, stack_pop, jp_if, ret_if, call_if, jr_if, rst}
use agoge.Runs.{Runs}
use agoge.RunsCpu.Helpers.{base_rules, Runs-read_u16, Runs-on_mem_hl}

module _ (n : ℕ) where
  pub Runs-alu_add_sp : Runs n alu_add_sp
  unfolding alu_add_sp
  Runs-alu_add_sp = search base_rules depth 12

  pub Runs-alu_add_hl : (v : ℕ) → Runs n (alu_add_hl v)
  unfolding alu_add_hl
  Runs-alu_add_hl v = search base_rules depth 12

  pub Runs-alu_add_op : (v : ℕ) (carry : Bool) → Runs n (alu_add_op v carry)
  unfolding alu_add_op
  Runs-alu_add_op v carry = search base_rules depth 12

  pub Runs-alu_sub_op : (v : ℕ) (carry : Bool) → Runs n (alu_sub_op v carry)
  unfolding alu_sub_op
  Runs-alu_sub_op v carry = search base_rules depth 12

ruleset arith_rules = (base_rules, Runs-alu_add_op, Runs-alu_sub_op)

module _ (n : ℕ) where
  pub Runs-alu_add : (v : ℕ) → Runs n (alu_add v)
  unfolding alu_add
  Runs-alu_add v = search arith_rules depth 12

  pub Runs-alu_adc : (v : ℕ) → Runs n (alu_adc v)
  unfolding alu_adc
  Runs-alu_adc v = search arith_rules depth 12

  pub Runs-alu_sub : (v : ℕ) → Runs n (alu_sub v)
  unfolding alu_sub
  Runs-alu_sub v = search arith_rules depth 12

  pub Runs-alu_sbc : (v : ℕ) → Runs n (alu_sbc v)
  unfolding alu_sbc
  Runs-alu_sbc v = search arith_rules depth 12

  pub Runs-alu_cp : (v : ℕ) → Runs n (alu_cp v)
  unfolding alu_cp
  Runs-alu_cp v = search arith_rules depth 12

  pub Runs-alu_or : (v : ℕ) → Runs n (alu_or v)
  unfolding alu_or
  Runs-alu_or v = search arith_rules depth 12

  pub Runs-alu_and : (v : ℕ) → Runs n (alu_and v)
  unfolding alu_and
  Runs-alu_and v = search arith_rules depth 12

  pub Runs-alu_xor : (v : ℕ) → Runs n (alu_xor v)
  unfolding alu_xor
  Runs-alu_xor v = search arith_rules depth 12

  pub Runs-op_daa : Runs n op_daa
  unfolding op_daa
  Runs-op_daa = search base_rules depth 12

  pub Runs-alu_bit : (b v : ℕ) → leb b 7 ≡ true → Runs n (alu_bit b v)
  unfolding alu_bit
  Runs-alu_bit b v e = search base_rules depth 12

  pub Runs-alu_res_hl : (b : ℕ) → leb b 7 ≡ true → Runs (suc n) (alu_res_hl b)
  unfolding alu_res_hl
  Runs-alu_res_hl b e = search (base_rules, Runs-on_mem_hl) depth 12

  pub Runs-alu_set_hl : (b : ℕ) → leb b 7 ≡ true → Runs (suc n) (alu_set_hl b)
  unfolding alu_set_hl
  Runs-alu_set_hl b e = search (base_rules, Runs-on_mem_hl) depth 12

  pub Runs-push_u8 : (v : ℕ) → Runs (suc n) (push_u8 v)
  unfolding push_u8
  Runs-push_u8 v = search base_rules depth 12

  pub Runs-pop_u8 : Runs n pop_u8
  unfolding pop_u8
  Runs-pop_u8 = search base_rules depth 12

pub ruleset stack_rules = (base_rules, Runs-push_u8, Runs-pop_u8, Runs-read_u16)

module _ (n : ℕ) where
  pub Runs-stack_push : (v : ℕ) → Runs (suc (suc n)) (stack_push v)
  unfolding stack_push
  Runs-stack_push v = search stack_rules depth 12

  pub Runs-stack_pop : Runs n stack_pop
  unfolding stack_pop
  Runs-stack_pop = search stack_rules depth 12

  pub Runs-jp_if : (x : Bool) → Runs n (jp_if x)
  unfolding jp_if
  Runs-jp_if x = search stack_rules depth 12

  pub Runs-jr_if : (x : Bool) → Runs n (jr_if x)
  unfolding jr_if
  Runs-jr_if x = search stack_rules depth 12

module _ (n : ℕ) where
  pub Runs-ret_if : (x : Bool) → Runs n (ret_if x)
  unfolding ret_if
  Runs-ret_if x = search (stack_rules, Runs-stack_pop) depth 12

  pub Runs-call_if : (x : Bool) → Runs (suc (suc n)) (call_if x)
  unfolding call_if
  Runs-call_if x = search (stack_rules, Runs-stack_push) depth 12

  pub Runs-rst : (v : ℕ) → Runs (suc (suc n)) (rst v)
  unfolding rst
  Runs-rst v = search (stack_rules, Runs-stack_push) depth 12

pub ruleset op_rules = (
  base_rules, Runs-read_u16, Runs-alu_add_sp, Runs-alu_add_hl, Runs-alu_add, Runs-alu_adc,
  Runs-alu_sub, Runs-alu_sbc, Runs-alu_cp, Runs-alu_or, Runs-alu_and, Runs-alu_xor, Runs-op_daa,
  Runs-alu_bit, Runs-alu_res_hl, Runs-alu_set_hl, Runs-stack_push, Runs-stack_pop, Runs-jp_if,
  Runs-jr_if, Runs-ret_if, Runs-call_if, Runs-rst, Runs-on_mem_hl,
)
