-- ===== src/Disasm/Before.antt =====
-- `agoge_core_disasm_trace_before` of core/src/disasm.c in a valid context.
use agoge.Prelude.{
  Option, ℕ, ◌+◌, u16, ◌≤◌, ◌≡◌, refl, ◌==◌, if◌then◌else◌, none, some, List, length, Bool-cases,
  inl, inr,
}
use agoge.Ctx.{Ctx, Log, DisasmEntry, DisasmOp, op_none, op_u8, op_u16, op_s8, op_branch}
use agoge.Bus.Memory.{read_log}
use agoge.RunsBus.{read_log-Sends}
use agoge.Log.Sends.{Sends, Sends-trans, nothing}
use agoge.Step.{Result, ok, fault, and_then, pure, ◌>>◌}
use agoge.Log.Fits.{with_log}
use agoge.Valid.{IsReady}
use agoge.Cpu.Reg.{rd16, get16}
use agoge.Disasm.Buffer.{modify_disasm}
use agoge.Disasm.Line.{shown}
use agoge.Disasm.Instr.{
  byte_at, with_text, format_instr-lem, instr_entry, code_log, operand_log, get_disasm_entry-lem,
}
use agoge.Disasm.Single.{text_at, instr_log, text_at-fits, text_at-short, byte_at-lt}
use agoge.Disasm.{format_trace_area, disasm_trace_before}
use agoge.Disasm.Trace.{padded, format_trace_area-lem}

-- The context before an instruction: its text alone, or filled up and with the entry of its traces.
abbrev pub pending : DisasmEntry → Option DisasmEntry
pending entry = if entry.num_traces == 0 then none else some entry

abbrev pub prepared_text : DisasmEntry → List ℕ → List ℕ
prepared_text entry t = if entry.num_traces == 0 then t else padded t

abbrev pub prepared : Ctx → ℕ → DisasmEntry → List ℕ → Ctx
prepared s addr entry t = shown s addr (pending entry) (prepared_text entry t)

prepare :
    (s : Ctx) (addr : ℕ) (entry : DisasmEntry) (r : Result (List ℕ))
    → ((t : List ℕ) → r ≡ ok t → length t ≤ 35)
    → and_then (with_text r (shown s addr none)) (λ _.
      if entry.num_traces == 0
      then pure tt
      else (do modify_disasm (λ x. record x { curr_trace_entry = some entry }); format_trace_area))
      ≡ with_text r (prepared s addr entry)
prepare s addr entry (fault x) short = refl
prepare s addr entry (ok t) short = elim (Bool-cases (entry.num_traces == 0)) [
  | inl bare ↦ rw bare refl
  | inr more ↦ rw more (format_trace_area-lem s addr (some entry) t (short t refl))
]

code_log-Sends : (byte : ℕ → ℕ) (addr : ℕ) (log : Log) → Sends log (code_log byte addr log)
code_log-Sends byte addr log = elim (Bool-cases (byte addr == 0xCB)) [
  | inl cb ↦ rw cb (
      Sends-trans (read_log-Sends (u16 addr) log)
        (read_log-Sends (u16 (addr + 1)) (read_log (u16 addr) log)))
  | inr plain ↦ rw plain (read_log-Sends (u16 addr) log)
]

operand_log-Sends : (op : DisasmOp) (addr : ℕ) (log : Log) → Sends log (operand_log op addr log)
operand_log-Sends op_none addr log = nothing
operand_log-Sends op_u16 addr log =
    Sends-trans (read_log-Sends (u16 (addr + 1)) log)
      (read_log-Sends (u16 (addr + 2)) (read_log (u16 (addr + 1)) log))
operand_log-Sends op_u8 addr log = read_log-Sends (u16 (addr + 1)) log
operand_log-Sends op_s8 addr log = read_log-Sends (u16 (addr + 1)) log
operand_log-Sends op_branch addr log = read_log-Sends (u16 (addr + 1)) log

pub instr_log-Sends : (byte : ℕ → ℕ) (addr : ℕ) (log : Log) → Sends log (instr_log byte addr log)
instr_log-Sends byte addr log =
    Sends-trans (code_log-Sends byte addr log)
      (operand_log-Sends (instr_entry byte addr).op addr (code_log byte addr log))

module _ {room : ℕ} {s : Ctx} (h : IsReady room s) where
  abbrev byte : ℕ → ℕ
  byte = byte_at h

  abbrev pub ready : List ℕ → Ctx
  ready = prepared (with_log s (instr_log byte s.reg.pc s.log)) s.reg.pc (instr_entry byte s.reg.pc)

  pub trace_before_lem : disasm_trace_before s ≡ with_text (text_at byte s.reg.pc) ready
  unfolding disasm_trace_before rd16 get16
  trace_before_lem =
      let pc = s.reg.pc in
      let entry = instr_entry byte pc in
      rw
        (
          get_disasm_entry-lem h pc pc,
          format_instr-lem h pc none (code_log byte pc s.log) entry (text_at-fits h pc),
        )
        (prepare (with_log s (instr_log byte pc s.log)) pc entry (text_at byte pc)
          (text_at-short byte (byte_at-lt h) pc))
