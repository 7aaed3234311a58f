-- ===== src/Cpu/Alu.antt =====
-- The arithmetic and logic helpers of core/src/cpu.c. An `int` that may be negative is its 32-bit
-- two's complement pattern.
use agoge.Prelude.{ℕ, ◌+◌, ◌==◌, nonzero, of_bool, if◌then◌else◌, u8, ◌<<<◌, ◌>>>◌, bit_and, bit_or}
use agoge.Step.{M, pure, ◌>>=◌, ◌>>◌}
use agoge.Bus.{bus_read, bus_write}
use agoge.Cpu.Reg.{
  wr_f, reg_hl, reg_pc, rd16, wr16, flags_set, flags_clear, flag_test, flag_upd, flag_zero_upd,
  cpu_flag_zero, cpu_flag_subtract, cpu_flag_half_carry, cpu_flag_carry,
}

unfoldable pub read_u8 : M ℕ
unfolding bus_read rd16 wr16
read_u8 = do pc ← rd16 reg_pc; wr16 reg_pc (pc + 1); bus_read pc

unfoldable pub read_u16 : M ℕ
unfolding read_u8
read_u16 = do lo ← read_u8; hi ← read_u8; pure (bit_or (hi <<< 8) lo)

-- `val = bus_read(hl); val = op(val); bus_write(hl, val);`
unfoldable pub on_mem_hl : (ℕ → M ℕ) → M (Unit {0})
unfolding bus_read bus_write rd16
on_mem_hl op = do
  from ← rd16 reg_hl
  old ← bus_read from
  new ← op old
  to ← rd16 reg_hl
  bus_write to new

unfoldable pub alu_inc : ℕ → M ℕ
unfolding flags_clear flag_upd flag_zero_upd
alu_inc val = do
  flags_clear cpu_flag_subtract
  flag_upd cpu_flag_half_carry (bit_and val 0x0F == 0x0F)
  flag_zero_upd (u8 (val + 1))
  pure (u8 (val + 1))

unfoldable pub alu_dec : ℕ → M ℕ
unfolding flags_set flag_upd flag_zero_upd
alu_dec val = do
  flags_set cpu_flag_subtract
  flag_upd cpu_flag_half_carry (bit_and val 0x0F == 0)
  flag_zero_upd (u8 (val + 255))
  pure (u8 (val + 255))

abbrev pub clear_subtract_half_carry : M (Unit {0})
clear_subtract_half_carry = flags_clear (bit_or cpu_flag_subtract cpu_flag_half_carry)

unfoldable pub alu_rlc_op : ℕ → M ℕ
unfolding flags_clear flag_upd
alu_rlc_op val = do
  clear_subtract_half_carry
  flag_upd cpu_flag_carry (nonzero (bit_and val 0x80))
  pure (u8 (bit_or (val <<< 1) (val >>> 7)))

unfoldable pub alu_rl_op : ℕ → M ℕ
unfolding flags_clear flag_upd flag_test
alu_rl_op val = do
  clear_subtract_half_carry
  carry ← flag_test cpu_flag_carry
  flag_upd cpu_flag_carry (nonzero (bit_and val 0x80))
  pure (u8 (bit_or (val <<< 1) (of_bool carry)))

unfoldable pub alu_rl : ℕ → M ℕ
unfolding alu_rl_op flag_zero_upd
alu_rl val = do res ← alu_rl_op val; flag_zero_upd res; pure res

unfoldable pub alu_rlc : ℕ → M ℕ
unfolding alu_rlc_op flag_zero_upd
alu_rlc val = do res ← alu_rlc_op val; flag_zero_upd res; pure res

unfoldable pub alu_rrc_op : ℕ → M ℕ
unfolding flags_clear flag_upd
alu_rrc_op val = do
  clear_subtract_half_carry
  flag_upd cpu_flag_carry (nonzero (bit_and val 1))
  pure (u8 (bit_or (val >>> 1) (val <<< 7)))

unfoldable pub alu_rrc : ℕ → M ℕ
unfolding alu_rrc_op flag_zero_upd
alu_rrc val = do res ← alu_rrc_op val; flag_zero_upd res; pure res

unfoldable pub alu_rr_op : ℕ → M ℕ
unfolding flags_clear flag_upd flag_test
alu_rr_op val = do
  clear_subtract_half_carry
  let old_carry = nonzero (bit_and val 1)
  carry ← flag_test cpu_flag_carry
  let res = u8 (bit_or (val >>> 1) (of_bool carry <<< 7))
  flag_upd cpu_flag_carry old_carry
  pure res

unfoldable pub alu_rr : ℕ → M ℕ
unfolding alu_rr_op flag_zero_upd
alu_rr val = do res ← alu_rr_op val; flag_zero_upd res; pure res

unfoldable pub alu_sla : ℕ → M ℕ
unfolding flags_clear flag_upd flag_zero_upd
alu_sla val = do
  clear_subtract_half_carry
  flag_upd cpu_flag_carry (nonzero (bit_and val 0x80))
  let res = u8 (val <<< 1)
  flag_zero_upd res
  pure res

unfoldable pub alu_sra : ℕ → M ℕ
unfolding flags_clear flag_upd flag_zero_upd
alu_sra val = do
  clear_subtract_half_carry
  flag_upd cpu_flag_carry (nonzero (bit_and val 1))
  let res = u8 (bit_or (val >>> 1) (bit_and val 0x80))
  flag_zero_upd res
  pure res

unfoldable pub alu_swap : ℕ → M ℕ
unfolding wr_f
alu_swap val = do
  let res = u8 (bit_or (bit_and val 0x0F <<< 4) (val >>> 4))
  wr_f (if res == 0 then cpu_flag_zero else 0x00)
  pure res

unfoldable pub alu_srl : ℕ → M ℕ
unfolding flags_clear flag_upd flag_zero_upd
alu_srl val = do
  clear_subtract_half_carry
  let carry = nonzero (bit_and val 1)
  let res = val >>> 1
  flag_zero_upd res
  flag_upd cpu_flag_carry carry
  pure res

unfoldable pub alu_inc_mem_hl : M (Unit {0})
unfolding on_mem_hl alu_inc
alu_inc_mem_hl = on_mem_hl alu_inc

unfoldable pub alu_rl_mem_hl : M (Unit {0})
unfolding on_mem_hl alu_rl
alu_rl_mem_hl = on_mem_hl alu_rl

unfoldable pub alu_rlc_mem_hl : M (Unit {0})
unfolding on_mem_hl alu_rlc
alu_rlc_mem_hl = on_mem_hl alu_rlc

unfoldable pub alu_rrc_mem_hl : M (Unit {0})
unfolding on_mem_hl alu_rrc
alu_rrc_mem_hl = on_mem_hl alu_rrc

unfoldable pub alu_rr_mem_hl : M (Unit {0})
unfolding on_mem_hl alu_rr
alu_rr_mem_hl = on_mem_hl alu_rr

unfoldable pub alu_sla_mem_hl : M (Unit {0})
unfolding on_mem_hl alu_sla
alu_sla_mem_hl = on_mem_hl alu_sla

unfoldable pub alu_sra_mem_hl : M (Unit {0})
unfolding on_mem_hl alu_sra
alu_sra_mem_hl = on_mem_hl alu_sra

unfoldable pub alu_swap_mem_hl : M (Unit {0})
unfolding on_mem_hl alu_swap
alu_swap_mem_hl = on_mem_hl alu_swap

unfoldable pub alu_srl_mem_hl : M (Unit {0})
unfolding on_mem_hl alu_srl
alu_srl_mem_hl = on_mem_hl alu_srl
