-- ===== src/App/Untraced.antt =====
-- The loop of app/main.c beside a plain run of core/src/ctx.c: what its traces leave alone.
use agoge.Prelude.{
  ℕ, zero, suc, u32, ◌^◌, ◌-◌, leb, ◌<◌, ◌≡◌, refl, sym, ap, ◌∙◌, subst, Bool-cases, inl, inr, ◌⊎◌,
  arith,
}
use agoge.Ctx.{Ctx, Log, Disasm}
use agoge.Step.{ok}
use agoge.Cpu.Run.{ctx_step, dispatch}
use agoge.Valid.{IsReady}
use agoge.Runs.{twin}
use agoge.RunsCrowded.{IsCrowded, IsCrowded-now, IsCrowded-later}
use agoge.RunsBus.{twin-IsReady}
use agoge.Disasm.Instr.{byte_at}
use agoge.Boot.{rounds, ctx_step-dispatch, rounds-dispatch}
use agoge.App.{main_loop}
use agoge.App.Turn.{shows}
use agoge.App.Round.{turn_lem, traced_round-fault}
use agoge.App.Loop.{IsStop, IsStop-now, later}

-- The same processor and bus.
abbrev pub SameMachine : Ctx → Ctx → Type 0
SameMachine s t = (s.reg ≡ t.reg) × (s.bus ≡ t.bus)

-- `n` turns of the loop from a twin of `s`, and `n` steps of one instruction from `s`.
loop_beside :
    (n room : ℕ) (s : Ctx) (log : Log) (d : Disasm)
    → IsReady room s
    → ((s' t : Ctx) × (main_loop n (twin log d s) ≡ ok (tt, s'))
        × (rounds n s ≡ ok (tt, t))
        × SameMachine s' t)
      ⊎ (IsStop n (twin log d s) ⊎ IsCrowded main_loop n room (twin log d s))
unfolding main_loop rounds
loop_beside zero room s log d h = inl (twin log d s, s, refl, refl, (refl, refl))
loop_beside (suc n) room s log d h = elim (Bool-cases (leb 126 s.bus.serial.data_size)) [
  | inl full ↦ inr (inr (IsCrowded-now main_loop n (twin-IsReady log d h) (ground arith) refl))
  | inr few ↦
      let h₂ : IsReady room (twin log d s) = twin-IsReady log d h in
      elim (Bool-cases (shows (byte_at h₂) s.reg.pc)) [
        | inr cannot ↦ elim (traced_round-fault room h₂ cannot) [
          | inl ended ↦ inr (inl (IsStop-now n room (twin log d s) h₂ cannot ended))
          | inr (many, over) ↦ inr (inr (IsCrowded-now main_loop n h₂ many refl))
        ]
        | inl can ↦
            let (s₁, u, log₁, turned, ready₁, alone, same) =
              turn_lem room h₂ (ground arith) can s.log s.disasm in
            let t : Ctx = twin log₁ s.disasm u in
            let h₃ : IsReady (room - 2) t =
              twin-IsReady log₁ s.disasm (subst (IsReady (room - 2)) same ready₁) in
            elim (loop_beside n (room - 2) t s₁.log s₁.disasm h₃) [
              | inl (s', t', looped, stepped, machine) ↦
                  inl
                    (s', t', rw turned (ap (main_loop n) same ∙ looped), rw alone stepped, machine)
              | inr (inl stop) ↦
                  inr (inl (later n (twin log d s) s₁ turned (subst (IsStop n) (sym same) stop)))
              | inr (inr c) ↦ inr (
                  inr (
                    IsCrowded-later main_loop n (room - 2) s₁ (omega arith) (λ k. rw turned refl)
                      (subst (IsCrowded main_loop n (room - 2)) (sym same) c)))
            ]
      ]
]

-- From a valid context with room for `room` bytes at the serial port, for `n` above zero and below
-- 2 ^ 32: the loop makes
-- `n` turns, `agoge_core_ctx_step` by `n` returns too, and both leave the same registers and the same bus,
-- so that the traces disturb neither. Or the loop comes to an instruction that cannot be shown, and ends
-- there; or, after fewer turns, to a valid context where the port holds 126 bytes or more.
pub main_loop-ctx_step :
    (n room : ℕ) (s : Ctx)
    → IsReady room s
    → 0 < n
    → n < 2 ^ 32
    → ((s' t : Ctx) × (main_loop n s ≡ ok (tt, s'))
        × (ctx_step n s ≡ ok (tt, t))
        × SameMachine s' t)
      ⊎ (IsStop n s ⊎ IsCrowded main_loop n room s)
main_loop-ctx_step n room s h lt small = elim (loop_beside n room s s.log s.disasm h) [
  | inl (s', t, looped, stepped, machine) ↦
      let whole : u32 n ≡ n = omega arith in
      let run : ctx_step n s ≡ dispatch n s =
        ctx_step-dispatch n s (omega arith) ∙ ap (λ (k : ℕ). dispatch k s) whole in
      inl (s', t, looped, run ∙ (sym (rounds-dispatch n s) ∙ stepped), machine)
  | inr other ↦ inr other
]
