-- ===== src/Examples/Alu.antt =====
-- The theorems on single operations, jumps and calls at concrete inputs.
use agoge.Prelude.{ℕ, ◌≡◌, refl, true, false, arith}
use agoge.Step.{ok, ◌>>◌}
use agoge.Bus.Ram.{with_bus}
use agoge.Cpu.Alu.{alu_inc, alu_dec}
use agoge.Cpu.Arith.{alu_and, alu_or, alu_xor, alu_add_hl, alu_add_sp}
use agoge.Cpu.Flow.{jr_if, jp_if, call_if, ret_if}
use agoge.Cpu.Flags.{flags_of}
use agoge.Cpu.AddSub.{Gives}
use agoge.Cpu.Rotate.{Returns}
use agoge.Cpu.Stack.{pushed, with_pc}
use agoge.Cpu.Logic.{
  count_flags, logic_flags, add_hl_flags, alu_inc-alu_dec, alu_and-alu_or-alu_xor, alu_add_hl_lem,
}
use agoge.Cpu.AddSp.{add_sp_flags, alu_add_sp_lem}
use agoge.Cpu.Jump.{fetched, jr_if-jp_if, ret_if-call_if}
use agoge.Examples.{ctx, ctx-IsReady}

alu_inc-alu_dec_example :
    Returns (alu_inc 0xFF) (ctx 0) 0x00 (count_flags (flags_of 0x10) false 0x00 true)
    × Returns (alu_dec 0xFF) (ctx 0) 0xFE (count_flags (flags_of 0x10) true 0xFE false)
alu_inc-alu_dec_example = alu_inc-alu_dec 0xFF (ctx 0) (omega arith)

alu_and-alu_or-alu_xor_example :
    Gives (alu_and 0x0F) (ctx 0) 0x05 (logic_flags 0x05 true)
    × Gives (alu_or 0x0F) (ctx 0) 0x4F (logic_flags 0x4F false)
    × Gives (alu_xor 0x0F) (ctx 0) 0x4A (logic_flags 0x4A false)
alu_and-alu_or-alu_xor_example = alu_and-alu_or-alu_xor 0x0F (ctx 0) (omega arith) (omega arith)

-- HL is 0x0506.
alu_add_hl_lem_example :
    (f' : ℕ) × (alu_add_hl 0xFFFF (ctx 0)
      ≡ ok (tt, record (ctx 0) { reg = record (ctx 0).reg { h = 0x05; l = 0x05; f = f' } }))
    × (flags_of f' ≡ add_hl_flags (flags_of 0x10) 0x0506 0xFFFF)
alu_add_hl_lem_example = alu_add_hl_lem 0xFFFF (ctx 0)

-- 0xFE is two back.
jr_if-jp_if_example :
    (jr_if true (ctx 0xFE) ≡ ok (tt, with_pc (fetched (ctx 0xFE)) 0x00FF))
    × (jp_if true (ctx 0xFE) ≡ ok (tt, with_pc (fetched (fetched (ctx 0xFE))) 0xFEFE))
unfolding ctx-IsReady
jr_if-jp_if_example = jr_if-jp_if (ctx-IsReady 0xFE (omega arith)) true

ret_if-call_if_example :
    (call_if true (ctx 0x02)
      ≡ ok (tt, with_pc (pushed (fetched (fetched (ctx 0x02))) 0x0102) 0x0202))
    × ((do call_if true; ret_if true) (ctx 0x02)
        ≡ ok (
          tt,
          with_bus
              (with_pc (fetched (fetched (ctx 0x02))) 0x0102)
              (pushed (fetched (fetched (ctx 0x02))) 0x0102).bus,
        ))
unfolding ctx-IsReady
ret_if-call_if_example = ret_if-call_if (ctx-IsReady 0x02 (omega arith)) refl

alu_add_sp_lem_example :
    (f' : ℕ) × (alu_add_sp (ctx 0xFE)
      ≡ ok (
        0xFFFC,
        record (fetched (ctx 0xFE)) { reg = record (fetched (ctx 0xFE)).reg { f = f' } },
      ))
    × (flags_of f' ≡ add_sp_flags 0xFFFE 0xFE)
unfolding ctx-IsReady
alu_add_sp_lem_example = alu_add_sp_lem (ctx-IsReady 0xFE (omega arith))
