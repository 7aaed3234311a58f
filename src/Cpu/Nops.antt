-- ===== src/Cpu/Nops.antt =====
-- What the count of `agoge_core_ctx_step` in core/src/ctx.c and `agoge_core_cpu_run` in core/src/cpu.c
-- stands for, on a row of NOPs.
use agoge.Prelude.{
  ℕ, zero, suc, ◌+◌, ◌<◌, ◌≡◌, refl, sym, ap, ◌∙◌, ◌==◌, ◌⊎◌, inl, inr, Bool-cases, u16, u32, arith,
}
use agoge.Ctx.{Ctx, Log}
use agoge.Step.{ok, fault, assertion}
use agoge.Bus.Memory.{memory}
use agoge.Valid.{IsReady}
use agoge.Boot.{ctx_step-dispatch, ctx_step-zero}
use agoge.Cpu.Op.{row_0, nop}
use agoge.Cpu.Jump.{fetched, fetched-IsReady}
use agoge.Cpu.Handlers.Low.{exec_row_0}
use agoge.Cpu.Tables.Ops.{op_tbl}
use agoge.Cpu.Delay.{step_at}
use agoge.Cpu.Run.{exec_op, cpu_step, dispatch, ctx_step}

-- The `n` bytes from the program counter on are NOPs, behind the last address from the first on again.
abbrev pub IsNops : {room : ℕ} {s : Ctx} → IsReady room s → ℕ → Type 0
IsNops {s = s} h n =
    (i : ℕ) → i < n → memory h.bus_ok.cart_ok.inserted s.bus (u16 (s.reg.pc + i)) ≡ 0

-- The context at another program counter, with another log.
abbrev pub moved : Ctx → ℕ → Log → Ctx
moved s pc log = record s { reg = record s.reg { pc = pc }; log = log }

nop_lem :
    {room : ℕ} {s : Ctx} (h : IsReady room s) (n : ℕ)
    → IsNops h (suc n)
    → cpu_step s ≡ ok (tt, fetched s)
unfolding exec_op exec_row_0 op_tbl
nop_lem {s = s} h n nops =
    let here : u16 (s.reg.pc + 0) ≡ s.reg.pc = omega arith in
    let byte = ap (λ (a : ℕ). memory h.bus_ok.cart_ok.inserted s.bus a) (sym here) in
    step_at h 0x00 (row_0 nop) (byte ∙ nops 0 (omega arith)) refl

dispatch-nop :
    (n room : ℕ) (s : Ctx) (h : IsReady room s)
    → IsNops h n
    → (log : Log) × (dispatch n s ≡ ok (tt, moved s (u16 (s.reg.pc + n)) log))
unfolding dispatch fetched-IsReady
dispatch-nop zero room s h nops =
    let here : s.reg.pc ≡ u16 (s.reg.pc + 0) = omega arith in
    (s.log, ap (λ (pc : ℕ). ok (tt, moved s pc s.log)) here)
dispatch-nop (suc n) room s h nops =
    let next : (i : ℕ) → u16 (u16 (s.reg.pc + 1) + i) ≡ u16 (s.reg.pc + (i + 1)) =
      λ i. omega arith in
    let rest : IsNops (fetched-IsReady h) n = λ i lt.
      ap (λ (a : ℕ). memory h.bus_ok.cart_ok.inserted s.bus a) (next i)
      ∙ nops (i + 1) (omega arith) in
    let (log, ran) = dispatch-nop n room (fetched s) (fetched-IsReady h) rest in
    let there : u16 (u16 (s.reg.pc + 1) + n) ≡ u16 (s.reg.pc + suc n) = omega arith in
    (log, rw (nop_lem h n nops) (ran ∙ ap (λ (pc : ℕ). ok (tt, moved s pc log)) there))

-- In a valid context, for any number, where as many bytes as its remainder modulo 2 ^ 32 are NOPs, from
-- the program counter on and modulo 65536: `agoge_core_ctx_step` by that number runs exactly so many
-- instructions, since its count is an unsigned int, and the program counter has moved on by as many
-- bytes; but for a log of the fetches nothing else changes. Where the remainder is zero its assertion
-- fails.
pub ctx_step-nop :
    (num_cycles : ℕ) {room : ℕ} {s : Ctx} (h : IsReady room s)
    → IsNops h (u32 num_cycles)
    → ((u32 num_cycles ≡ 0) × (ctx_step num_cycles s ≡ fault assertion))
      ⊎ ((0 < u32 num_cycles)
          × (log : Log) × (ctx_step num_cycles s
              ≡ ok (tt, moved s (u16 (s.reg.pc + u32 num_cycles)) log)))
ctx_step-nop num_cycles {room} {s} h nops = elim (Bool-cases (u32 num_cycles == 0)) [
  | inl none_left ↦ inl (ground arith, ctx_step-zero num_cycles s (ground arith))
  | inr some_left ↦
      let (log, ran) = dispatch-nop (u32 num_cycles) room s h nops in
      inr (ground arith, log, ctx_step-dispatch num_cycles s (ground arith) ∙ ran)
]
