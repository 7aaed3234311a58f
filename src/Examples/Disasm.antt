-- ===== src/Examples/Disasm.antt =====
-- The theorems on the disassembler, the log and the loop of app/main.c at concrete inputs: programs of
-- one byte over and over, `LD B, u8` of 0x06, ADD A, u8 of 0xC6 and `LD (u16), SP` of 0x08.
use agoge.Prelude.{ℕ, ◌≡◌, refl, ◌⊎◌, if◌then◌else◌, ◌==◌, List, [], ◌∷◌, length, ◌≤◌, none, arith}
use agoge.Ctx.{Ctx, Reg, trace_reg_f, lvl_trace, lvl_warn, lvl_err, ch_bus, ch_cart}
use agoge.Step.{ok, fault, missing_argument, null_jump, out_of_bounds}
use agoge.Printf.{codes, num, text, vsprintf}
use agoge.Printf.Prints.{HasNoNul}
use agoge.Log.{log_message}
use agoge.Log.Fits.{logged, with_log}
use agoge.Log.Texts.{read_text, write_text, line_text, size_text, log_message-fits}
use agoge.Valid.{IsReady}
use agoge.Log.Sends.{Sends}
use agoge.Disasm.Tables.{disasm_op_tbl}
use agoge.Disasm.Line.{shown}
use agoge.Disasm.Single.{text_at, disasm_single-prints, disasm_single-fault}
use agoge.Disasm.Entries.{lookup}
use agoge.Disasm.Traces.{trace_text}
use agoge.Disasm.{disasm_single}
use agoge.App.{traced_round, main_loop}
use agoge.App.Turn.{full_text}
use agoge.App.Round.{IsTurn, traced_round-shows, traced_round-fault, Overflows}
use agoge.RunsCrowded.{IsCrowded}
use agoge.App.Loop.{IsStop, main_loop_lem}
use agoge.Examples.{log, ctx, ctx-IsReady}

disasm_single-prints_example :
    (t : List ℕ) × (text_at (λ _. 6) 0x0100 ≡ ok t)
    × (length t ≤ 35)
    × HasNoNul t
    × (disasm_single 0x0100 (ctx 6) ≡ ok (tt, shown (ctx 6) 0x0100 none t))
unfolding ctx-IsReady disasm_op_tbl
disasm_single-prints_example = disasm_single-prints (ctx-IsReady 6 (omega arith)) 0x0100 refl

disasm_single-fault_example : disasm_single 0x0100 (ctx 0xC6) ≡ fault missing_argument
unfolding ctx-IsReady
disasm_single-fault_example = disasm_single-fault (ctx-IsReady 0xC6 (omega arith)) 0x0100 refl

log_message-fits_example :
    (log_message lvl_warn ch_bus "Unknown memory read: $%04X, returning $FF"
        (num 0xA000 ∷ [])
        (ctx 0)
      ≡ ok (tt, with_log (ctx 0) (logged lvl_warn ch_bus (read_text 0xA000) log)))
    × (log_message lvl_warn ch_bus "Unknown memory write: $%04X <- $%02X; ignoring"
          (num 0xA000 ∷ num 0x12 ∷ [])
          (ctx 0)
        ≡ ok (tt, with_log (ctx 0) (logged lvl_warn ch_bus (write_text 0xA000 0x12) log)))
    × (log_message lvl_trace ch_bus "Serial output: %s" (text (codes "ok") ∷ []) (ctx 0)
        ≡ ok (tt, with_log (ctx 0) (logged lvl_trace ch_bus (line_text (codes "ok")) log)))
    × (log_message lvl_err ch_cart "failed to set cart: bad size - got size %zu"
          (num 7 ∷ [])
          (ctx 0)
        ≡ ok (tt, with_log (ctx 0) (logged lvl_err ch_cart (size_text 7) log)))
log_message-fits_example = log_message-fits 0xA000 0x12 7 (codes "ok") (ctx 0) (omega arith)

traced_round-fault_example :
    (traced_round (ctx 8) ≡ fault null_jump) ⊎ Overflows 127 (ctx-IsReady 8 (omega arith))
unfolding ctx-IsReady
traced_round-fault_example = traced_round-fault 127 (ctx-IsReady 8 (omega arith)) refl

main_loop_lem_example :
    ((s' : Ctx) × (main_loop 3 (ctx 6) ≡ ok (tt, s')) × IsReady 121 s' × Sends (ctx 6).log s'.log)
    ⊎ (IsStop 3 (ctx 6)
        ⊎ ((main_loop 3 (ctx 6) ≡ fault out_of_bounds) × IsCrowded main_loop 3 127 (ctx 6)))
main_loop_lem_example = main_loop_lem 3 127 (ctx 6) (ctx-IsReady 6 (omega arith))

abbrev loads : IsReady 127 (ctx 6)
loads = ctx-IsReady 6 (omega arith)

traced_round-shows_example :
    ((final : Ctx) × (traced_round (ctx 6) ≡ ok (tt, final))
      × IsTurn 127 loads final
      × IsReady 125 final)
    ⊎ Overflows 127 loads
unfolding ctx-IsReady
traced_round-shows_example = traced_round-shows 127 loads refl

-- The text of an instruction, and its line with a trace.
abbrev regs : Reg
regs = record {
  b = 6;
  c = 2;
  d = 3;
  e = 4;
  h = 5;
  l = 6;
  a = 0x45;
  f = 0xB0;
  pc = 0x0102;
  sp = 0xFFFE;
}

text_at_test : text_at (λ _. 6) 0x0100 ≡ ok (codes "LD B, $06")
unfolding vsprintf disasm_op_tbl
text_at_test = refl

branch_test : text_at (λ a. if a == 0x0100 then 0x18 else 0xFE) 0x0100 ≡ ok (codes "JR $0100")
unfolding vsprintf disasm_op_tbl
branch_test = refl

full_text_test :
    full_text (lookup disasm_op_tbl 6) (codes "LD B, $06") regs
    ≡ ok (codes "LD B, $06                           ; B=$06")
unfolding trace_text disasm_op_tbl
full_text_test = refl

flags_test : trace_text trace_reg_f regs ≡ ok (codes "F=$B0 (Z !N H C)")
unfolding trace_text
flags_test = refl
