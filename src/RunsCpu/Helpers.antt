-- ===== src/RunsCpu/Helpers.antt =====
-- Validity of the context under the helpers of core/src/cpu.c on single values.
use agoge.Prelude.{ℕ, suc}
use agoge.Step.{M}
use agoge.Cpu.Alu.{
  read_u16, on_mem_hl, alu_inc, alu_dec, alu_rlc_op, alu_rl_op, alu_rl, alu_rlc, alu_rrc_op,
  alu_rrc, alu_rr_op, alu_rr, alu_sla, alu_sra, alu_swap, alu_srl,
}
use agoge.Runs.{Runs, run_rules, Runs-assert, Runs-pure}
use agoge.RunsReg.{
  Runs-rd8, Runs-rd16, Runs-rd_f, Runs-rd_af, Runs-flag_test, Runs-wr8, Runs-wr16, Runs-flags_set,
  Runs-flags_clear, Runs-flag_upd, Runs-flag_zero_upd, Runs-wr_f,
}
use agoge.RunsBus.{Runs-bus_read, Runs-bus_write}
use agoge.RunsFetch.{Runs-read_u8}

pub ruleset base_rules = (
  run_rules, Runs-rd8, Runs-rd16, Runs-rd_f, Runs-rd_af, Runs-flag_test, Runs-wr8, Runs-wr16,
  Runs-flags_set, Runs-flags_clear, Runs-flag_upd, Runs-flag_zero_upd, Runs-wr_f, Runs-bus_read,
  Runs-bus_write, Runs-read_u8,
)

module _ (n : ℕ) where
  pub Runs-read_u16 : Runs n read_u16
  unfolding read_u16
  Runs-read_u16 = search base_rules

  pub Runs-on_mem_hl : (op : ℕ → M ℕ) → ((v : ℕ) → Runs 0 (op v)) → Runs (suc n) (on_mem_hl op)
  unfolding on_mem_hl
  Runs-on_mem_hl op k = search base_rules

  pub Runs-alu_inc : (v : ℕ) → Runs n (alu_inc v)
  unfolding alu_inc
  Runs-alu_inc v = search base_rules

  pub Runs-alu_dec : (v : ℕ) → Runs n (alu_dec v)
  unfolding alu_dec
  Runs-alu_dec v = search base_rules

  pub Runs-alu_rlc_op : (v : ℕ) → Runs n (alu_rlc_op v)
  unfolding alu_rlc_op
  Runs-alu_rlc_op v = search base_rules

  pub Runs-alu_rl_op : (v : ℕ) → Runs n (alu_rl_op v)
  unfolding alu_rl_op
  Runs-alu_rl_op v = search base_rules

  pub Runs-alu_rl : (v : ℕ) → Runs n (alu_rl v)
  unfolding alu_rl
  Runs-alu_rl v = search base_rules

  pub Runs-alu_rlc : (v : ℕ) → Runs n (alu_rlc v)
  unfolding alu_rlc
  Runs-alu_rlc v = search base_rules

  pub Runs-alu_rrc_op : (v : ℕ) → Runs n (alu_rrc_op v)
  unfolding alu_rrc_op
  Runs-alu_rrc_op v = search base_rules

  pub Runs-alu_rrc : (v : ℕ) → Runs n (alu_rrc v)
  unfolding alu_rrc
  Runs-alu_rrc v = search base_rules

  pub Runs-alu_rr_op : (v : ℕ) → Runs n (alu_rr_op v)
  unfolding alu_rr_op
  Runs-alu_rr_op v = search base_rules

  pub Runs-alu_rr : (v : ℕ) → Runs n (alu_rr v)
  unfolding alu_rr
  Runs-alu_rr v = search base_rules

  pub Runs-alu_sla : (v : ℕ) → Runs n (alu_sla v)
  unfolding alu_sla
  Runs-alu_sla v = search base_rules

  pub Runs-alu_sra : (v : ℕ) → Runs n (alu_sra v)
  unfolding alu_sra
  Runs-alu_sra v = search base_rules

  pub Runs-alu_swap : (v : ℕ) → Runs n (alu_swap v)
  unfolding alu_swap
  Runs-alu_swap v = search base_rules

  pub Runs-alu_srl : (v : ℕ) → Runs n (alu_srl v)
  unfolding alu_srl
  Runs-alu_srl v = search base_rules

pub ruleset alu_rules = (
  Runs-alu_inc, Runs-alu_dec, Runs-alu_rlc_op, Runs-alu_rl_op, Runs-alu_rl, Runs-alu_rlc,
  Runs-alu_rrc_op, Runs-alu_rrc, Runs-alu_rr_op, Runs-alu_rr, Runs-alu_sla, Runs-alu_sra,
  Runs-alu_swap, Runs-alu_srl,
)
