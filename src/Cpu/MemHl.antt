-- ===== src/Cpu/MemHl.antt =====
-- The instructions of core/src/cpu.c on the byte that HL points to, where that is in one of the RAMs.
use agoge.Prelude.{ℕ, ◌<◌, ◌≡◌, refl, true, u8, ◌==◌, arith}
use agoge.Ctx.{Ctx}
use agoge.Step.{ok, M, ◌>>◌}
use agoge.Bus.Ram.{
  in_ram, ram_read, ram_write, with_bus, bus_read_ram, bus_write_ram, ram_read-write,
}
use agoge.Cpu.Reg.{Reg8, reg_hl, get8, set8, get16, rd8, wr8, rd16}
use agoge.Cpu.Alu.{
  on_mem_hl, alu_rlc_mem_hl, alu_rrc_mem_hl, alu_rl_mem_hl, alu_rr_mem_hl, alu_sla_mem_hl,
  alu_sra_mem_hl, alu_swap_mem_hl, alu_srl_mem_hl,
}
use agoge.Cpu.Op.{ShiftOp, reg, mem_hl, rlc, rrc, rl, rr, sla, sra, swap, srl}
use agoge.Cpu.Rotate.{rotations, shifts}
use agoge.Cpu.Handlers.Block.{
  read_operand, write_operand, exec_ld, alu_shift, alu_shift_mem_hl, exec_shift,
}

abbrev pub with_flags : Ctx → ℕ → Ctx
with_flags s f = record s { reg = record s.reg { f = f } }

module _ (s : Ctx) (ram : in_ram (get16 reg_hl s.reg) ≡ true) where
  abbrev hl : ℕ
  hl = get16 reg_hl s.reg

  -- What is loaded to the byte at HL, which is in RAM, is loaded back from it to any register; only that
  -- byte and that register change.
  pub exec_ld-exec_ld :
      (x y : Reg8)
      → get8 x s.reg < 256
      → (do exec_ld mem_hl (reg x); exec_ld (reg y) mem_hl) s
        ≡ ok (
          tt,
          record s { bus = ram_write s.bus hl (get8 x s.reg); reg = set8 y (get8 x s.reg) s.reg },
        )
  unfolding exec_ld read_operand write_operand rd8 wr8 rd16
  exec_ld-exec_ld x y byte =
      let v = get8 x s.reg in
      let low : u8 v ≡ v = omega arith in
      let same : (hl == hl) ≡ true = ground arith in
      rw
        (
          bus_write_ram hl s ram v,
          low,
          bus_read_ram hl (with_bus s (ram_write s.bus hl v)) ram,
          ram_read-write s.bus hl hl v ram ram,
          same,
        )
        refl

  on_mem_hl-lem :
      (op : ℕ → M ℕ) (new f : ℕ)
      → op (ram_read s.bus hl) s ≡ ok (new, with_flags s f)
      → on_mem_hl op s ≡ ok (tt, with_bus (with_flags s f) (ram_write s.bus hl (u8 new)))
  unfolding on_mem_hl rd16 get16
  on_mem_hl-lem op new f e =
      rw (bus_read_ram hl s ram, e, bus_write_ram hl (with_flags s f) ram new) refl

  abbrev pub Shifts : ShiftOp → Type 0
  Shifts op =
      (new : ℕ) × (f : ℕ) × (alu_shift op (ram_read s.bus hl) s ≡ ok (new, with_flags s f))
      × (exec_shift op mem_hl s ≡ ok (tt, with_bus (with_flags s f) (ram_write s.bus hl (u8 new))))

  -- A rotation or shift of the byte at HL, which is in RAM, stores there what the operation gives for a
  -- register that holds that byte, with the same flags; nothing else changes.
  pub exec_shift-alu_shift : ram_read s.bus hl < 256 → (op : ShiftOp) → Shifts op
  unfolding exec_shift alu_shift alu_shift_mem_hl alu_rlc_mem_hl alu_rrc_mem_hl alu_rl_mem_hl
      alu_rr_mem_hl alu_sla_mem_hl alu_sra_mem_hl alu_swap_mem_hl alu_srl_mem_hl
  exec_shift-alu_shift byte op =
      let v = ram_read s.bus hl in
      let ((f₀, e₀, _), (f₁, e₁, _), (f₂, e₂, _), (f₃, e₃, _)) = rotations v s byte in
      let ((f₄, e₄, _), (f₅, e₅, _), (f₆, e₆, _), (f₇, e₇, _)) = shifts v s byte in
      elim op as (λ k. Shifts k) [
        | rlc ↦ (_, f₀, e₀, on_mem_hl-lem (alu_shift rlc) _ f₀ e₀)
        | rrc ↦ (_, f₁, e₁, on_mem_hl-lem (alu_shift rrc) _ f₁ e₁)
        | rl ↦ (_, f₂, e₂, on_mem_hl-lem (alu_shift rl) _ f₂ e₂)
        | rr ↦ (_, f₃, e₃, on_mem_hl-lem (alu_shift rr) _ f₃ e₃)
        | sla ↦ (_, f₄, e₄, on_mem_hl-lem (alu_shift sla) _ f₄ e₄)
        | sra ↦ (_, f₅, e₅, on_mem_hl-lem (alu_shift sra) _ f₅ e₅)
        | srl ↦ (_, f₆, e₆, on_mem_hl-lem (alu_shift srl) _ f₆ e₆)
        | swap ↦ (_, f₇, e₇, on_mem_hl-lem (alu_shift swap) _ f₇ e₇)
      ]
