-- ===== src/Cpu/Arith.antt =====
-- Addition, subtraction, logic, single bits and decimal adjustment: core/src/cpu.c.
use agoge.Prelude.{
  ℕ, ◌+◌, ◌-◌, ◌^◌, Bool, false, leb, ltb, ◌==◌, nonzero, of_bool, if◌then◌else◌, u8, u16, u32, s8,
  not8, ◌<<<◌, bit_and, bit_or, bit_xor,
}
use agoge.Step.{M, pure, assert, ◌>>=◌, ◌>>◌}
use agoge.Cpu.Reg.{
  reg_a, wr_f, reg_hl, reg_sp, rd8, wr8, rd16, wr16, flags_set, flags_clear, flag_test, flag_upd,
  flag_zero_upd, cpu_flag_zero, cpu_flag_subtract, cpu_flag_half_carry, cpu_flag_carry,
}
use agoge.Cpu.Alu.{read_u8, on_mem_hl}

unfoldable pub alu_bit : ℕ → ℕ → M (Unit {0})
unfolding assert flags_clear flags_set flag_zero_upd
alu_bit b val = do
  assert (leb b 7)
  flags_clear cpu_flag_subtract
  flags_set cpu_flag_half_carry
  flag_zero_upd (bit_and val (1 <<< b))

unfoldable pub alu_add_sp : M ℕ
unfolding flags_clear read_u8 rd16 flag_upd
alu_add_sp = do
  flags_clear (bit_or cpu_flag_zero cpu_flag_subtract)
  v ← read_u8
  let off = s8 v
  sp ← rd16 reg_sp
  let sum = u32 (sp + off)
  flag_upd cpu_flag_half_carry (nonzero (bit_and (bit_xor (bit_xor sp off) sum) 0x10))
  flag_upd cpu_flag_carry (nonzero (bit_and (bit_xor (bit_xor sp off) sum) 0x100))
  pure (u16 sum)

unfoldable pub alu_add_hl : ℕ → M (Unit {0})
unfolding flags_clear rd16 flag_upd wr16
alu_add_hl val = do
  flags_clear cpu_flag_subtract
  hl ← rd16 reg_hl
  let sum = hl + val
  flag_upd cpu_flag_half_carry (nonzero (bit_and (bit_xor (bit_xor hl val) sum) 0x1000))
  flag_upd cpu_flag_carry (ltb 0xFFFF sum)
  wr16 reg_hl sum

unfoldable pub alu_add_op : ℕ → Bool → M (Unit {0})
unfolding flags_clear rd8 flag_upd flag_zero_upd wr8
alu_add_op val carry = do
  flags_clear cpu_flag_subtract
  a ← rd8 reg_a
  let res = a + val + of_bool carry
  let sum = u8 res
  flag_zero_upd sum
  flag_upd cpu_flag_half_carry (nonzero (bit_and (bit_xor (bit_xor a val) res) 0x10))
  flag_upd cpu_flag_carry (ltb 0xFF res)
  wr8 reg_a sum

unfoldable pub alu_sub_op : ℕ → Bool → M ℕ
unfolding flags_set rd8 flag_upd flag_zero_upd
alu_sub_op val carry = do
  flags_set cpu_flag_subtract
  a ← rd8 reg_a
  let res = u32 (a + 2 ^ 32 - val - of_bool carry)
  let diff = u8 res
  flag_zero_upd diff
  flag_upd cpu_flag_half_carry (nonzero (bit_and (bit_xor (bit_xor a val) res) 0x10))
  flag_upd cpu_flag_carry (leb (2 ^ 31) res)
  pure diff

unfoldable pub alu_add : ℕ → M (Unit {0})
unfolding alu_add_op
alu_add val = alu_add_op val false

unfoldable pub alu_adc : ℕ → M (Unit {0})
unfolding flag_test alu_add_op
alu_adc val = do carry ← flag_test cpu_flag_carry; alu_add_op val carry

unfoldable pub alu_sub : ℕ → M (Unit {0})
unfolding alu_sub_op wr8
alu_sub val = do diff ← alu_sub_op val false; wr8 reg_a diff

unfoldable pub alu_sbc : ℕ → M (Unit {0})
unfolding flag_test alu_sub_op wr8
alu_sbc val = do carry ← flag_test cpu_flag_carry; diff ← alu_sub_op val carry; wr8 reg_a diff

unfoldable pub alu_cp : ℕ → M (Unit {0})
unfolding alu_sub_op
alu_cp val = do alu_sub_op val false; pure tt

unfoldable pub alu_res_hl : ℕ → M (Unit {0})
unfolding assert on_mem_hl
alu_res_hl b = do assert (leb b 7); on_mem_hl (λ val. pure (bit_and val (not8 (1 <<< b))))

unfoldable pub alu_set_hl : ℕ → M (Unit {0})
unfolding assert on_mem_hl
alu_set_hl b = do assert (leb b 7); on_mem_hl (λ val. pure (bit_or val (1 <<< b)))

unfoldable pub alu_or : ℕ → M (Unit {0})
unfolding rd8 wr8 wr_f
alu_or val = do
  a ← rd8 reg_a
  wr8 reg_a (bit_or a val)
  res ← rd8 reg_a
  wr_f (if res == 0 then cpu_flag_zero else 0x00)

unfoldable pub alu_and : ℕ → M (Unit {0})
unfolding rd8 wr8 wr_f
alu_and val = do
  a ← rd8 reg_a
  wr8 reg_a (bit_and a val)
  res ← rd8 reg_a
  wr_f (if res == 0 then bit_or cpu_flag_zero cpu_flag_half_carry else cpu_flag_half_carry)

unfoldable pub alu_xor : ℕ → M (Unit {0})
unfolding rd8 wr8 wr_f
alu_xor val = do
  a ← rd8 reg_a
  wr8 reg_a (bit_xor a val)
  res ← rd8 reg_a
  wr_f (if res == 0 then cpu_flag_zero else 0x00)

-- What `op_daa` adds or subtracts, from the flags N, H and C before it and the accumulator.
unfoldable pub daa_val : Bool → Bool → Bool → ℕ → ℕ
daa_val subtract half_carry carry a =
    let val₁ : ℕ = if half_carry then 0x06 else 0 in
    let val₂ = if carry then bit_or val₁ 0x60 else val₁ in
    if subtract
    then val₂
    else let val₃ = if ltb 0x09 (bit_and a 0x0F) then bit_or val₂ 0x06 else val₂ in
      if ltb 0x99 a then bit_or val₃ 0x60 else val₃

unfoldable pub op_daa : M (Unit {0})
unfolding flag_test rd8 wr8 daa_val flag_upd flag_zero_upd flags_clear
op_daa = do
  half_carry ← flag_test cpu_flag_half_carry
  carry ← flag_test cpu_flag_carry
  subtract ← flag_test cpu_flag_subtract
  a ← rd8 reg_a
  let val = daa_val subtract half_carry carry a
  wr8 reg_a (if subtract then a + 256 - val else a + val)
  res ← rd8 reg_a
  flag_zero_upd res
  flag_upd cpu_flag_carry (nonzero (bit_and val 0x60))
  flags_clear cpu_flag_half_carry
