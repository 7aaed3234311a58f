-- ===== src/Disasm/Single.antt =====
-- `agoge_core_disasm_single` of core/src/disasm.c in a valid context.
use agoge.Prelude.{
  ℕ, ◌+◌, ◌≤◌, ◌<◌, ◌≡◌, refl, sym, ap, ◌∙◌, Bool, true, false, not, ◌||◌, ◌==◌, ==_iff,
  if◌then◌else◌, u16, none, List, length, arith, Bool-cases, inl, inr,
}
use agoge.Ctx.{Ctx, Log, DisasmOp, op_none, op_u8, op_u16, op_s8, op_branch}
use agoge.Step.{Result, ok, fault, null_pointer, missing_argument}
use agoge.Log.Fits.{with_log}
use agoge.Printf.Prints.{Printed, HasNoNul}
use agoge.Bus.Memory.{memory-lt}
use agoge.Valid.{IsReady}
use agoge.RunsCpu.Tables.{unhandled}
use agoge.Disasm.Tables.{disasm_op_tbl}
use agoge.Disasm.Line.{shown}
use agoge.Disasm.Entries.{
  arity, lookup, no_operand, fits, fits-Printed, lacks-fault, unset-fault, op-check, cb-fits,
}
use agoge.Disasm.Instr.{
  byte_at, operands, operand_log, instr_text, with_text, format_instr-lem, instr_entry, code_log,
  get_disasm_entry-lem,
}
use agoge.Disasm.{disasm_single}

-- The code is the prefix, or one that the processor has a handler for and that is not one of the five
-- whose format asks for an operand that is not given.
abbrev pub printable : ℕ → Bool
printable instr = instr == 0xCB || not (unhandled instr || no_operand instr)

-- The log after the bytes of an instruction are read.
abbrev pub instr_log : (ℕ → ℕ) → ℕ → Log → Log
instr_log byte addr log = operand_log (instr_entry byte addr).op addr (code_log byte addr log)

-- The text of the instruction at an address.
abbrev pub text_at : (ℕ → ℕ) → ℕ → Result (List ℕ)
text_at byte addr = instr_text (instr_entry byte addr) byte addr

operands-length :
    (op : DisasmOp) (byte : ℕ → ℕ) (addr : ℕ) → length (operands op byte addr) ≡ arity op
operands-length op_none byte addr = refl
operands-length op_u8 byte addr = refl
operands-length op_u16 byte addr = refl
operands-length op_s8 byte addr = refl
operands-length op_branch byte addr = refl

module _ (byte : ℕ → ℕ) (bytes : (a : ℕ) → byte a < 256) (addr : ℕ) where
  not_prefix : (x : ℕ → Bool) → x (byte addr) ≡ true → x 0xCB ≡ false → (byte addr == 0xCB) ≡ false
  not_prefix x e off = elim (Bool-cases (byte addr == 0xCB)) [
    | inl cb ↦
        let same : byte addr ≡ 0xCB = (==_iff (byte addr) 0xCB).0 cb in
        absurd (cc (sym e ∙ ap x same ∙ off))
    | inr plain ↦ plain
  ]

  entry-Printed : fits (instr_entry byte addr) ≡ true → Printed 35 (text_at byte addr)
  entry-Printed e =
      fits-Printed (instr_entry byte addr) (operands (instr_entry byte addr).op byte addr)
        (operands-length (instr_entry byte addr).op byte addr) e

  -- A printable code.
  pub printable-Printed : printable (byte addr) ≡ true → Printed 35 (text_at byte addr)
  printable-Printed e = elim (Bool-cases (byte addr == 0xCB)) [
    | inl cb ↦ entry-Printed (rw cb (cb-fits (byte (addr + 1)) (bytes (addr + 1))))
    | inr plain ↦
        let (_, fits_eq, _) = op-check (byte addr) (bytes addr) in
        entry-Printed (rw (plain, fits_eq, plain) (ground (arith, e, plain)))
  ]

  -- A code without a handler.
  pub unhandled-fault : unhandled (byte addr) ≡ true → text_at byte addr ≡ fault null_pointer
  unhandled-fault e =
      let plain = not_prefix unhandled e refl in
      let (set_eq, _, _) = op-check (byte addr) (bytes addr) in
      rw plain (unset-fault (lookup disasm_op_tbl (byte addr)) _ (rw (set_eq, e) refl))

  pub no_operand-fault : no_operand (byte addr) ≡ true → text_at byte addr ≡ fault missing_argument
  no_operand-fault e =
      let plain = not_prefix no_operand e refl in
      let (_, _, lacks_eq) = op-check (byte addr) (bytes addr) in
      let (missing, none_eq) = lacks-fault (lookup disasm_op_tbl (byte addr)) (rw lacks_eq e) in
      rw (plain, none_eq) missing

  -- What is wrong with any other code.
  pub unprintable-fault :
      printable (byte addr) ≡ false
      → text_at byte addr ≡ fault (if unhandled (byte addr) then null_pointer else missing_argument)
  unprintable-fault e = elim (Bool-cases (unhandled (byte addr))) [
    | inl hole ↦ rw hole (unhandled-fault hole)
    | inr handled ↦ rw handled (no_operand-fault (ground (arith, e, handled)))
  ]

  pub text_at-short : (t : List ℕ) → text_at byte addr ≡ ok t → length t ≤ 35
  text_at-short t e = elim (Bool-cases (printable (byte addr))) [
    | inl good ↦
        let (u, p, le, _) = printable-Printed good in
        let same : t ≡ u = cc (sym e ∙ p) in rw same le
    | inr bad ↦ absurd (cc (sym e ∙ unprintable-fault bad))
  ]

module _ {room : ℕ} {s : Ctx} (h : IsReady room s) where
  pub byte_at-lt : (a : ℕ) → byte_at h a < 256
  byte_at-lt a = memory-lt h (u16 a)

  pub text_at-fits : (addr : ℕ) (t : List ℕ) → text_at (byte_at h) addr ≡ ok t → length t ≤ 256
  text_at-fits addr t e = omega (arith, text_at-short (byte_at h) byte_at-lt addr t e)

module _ {room : ℕ} {s : Ctx} (h : IsReady room s) (addr : ℕ) where
  abbrev at : ℕ
  at = u16 addr

  abbrev byte : ℕ → ℕ
  byte = byte_at h

  abbrev done_with : List ℕ → Ctx
  done_with = shown (with_log s (instr_log byte at s.log)) at none

  pub single_lem : disasm_single addr s ≡ with_text (text_at byte at) done_with
  unfolding disasm_single
  single_lem = rw (get_disasm_entry-lem h at at) (
      format_instr-lem h at none (code_log byte at s.log) (instr_entry byte at) (text_at-fits h at))

  -- In a valid context, where the byte at the address is the prefix or a code that the processor handles,
  -- except LD (HL), u8, LD A, u8, ADD A, u8, JP C, u16 and ADD SP, s8, disassembling one instruction
  -- returns. The result is the entry's text with the operand that stands behind the code, at most 35
  -- bytes long and without a NUL, and zeros behind it; nothing else changes but the log, and that only
  -- as the reads of the instruction's bytes change it.
  pub disasm_single-prints :
      printable (byte at) ≡ true
      → (t : List ℕ) × (text_at byte at ≡ ok t)
        × (length t ≤ 35)
        × HasNoNul t
        × (disasm_single addr s ≡ ok (tt, done_with t))
  disasm_single-prints good =
      let (t, e, le, clean) = printable-Printed byte (byte_at-lt h) at good in
      (t, e, le, clean, single_lem ∙ ap (λ r. with_text r done_with) e)

  -- In a valid context, where the byte at the address is a code that the processor does not handle,
  -- disassembling one instruction reads its format through NULL; at the other five codes the format asks
  -- for an operand that it does not get.
  pub disasm_single-fault :
      printable (byte at) ≡ false
      → disasm_single addr s
        ≡ fault (if unhandled (byte at) then null_pointer else missing_argument)
  disasm_single-fault bad =
      single_lem ∙ ap (λ r. with_text r done_with) (unprintable-fault byte (byte_at-lt h) at bad)
