-- ===== src/Disasm/Instr.antt =====
-- What the instruction part of a result of core/src/disasm.c says: `get_disasm_entry` and
-- `format_instr` in a valid context.
use Prim.Native.String.{String}
use agoge.Prelude.{
  ℕ, ◌+◌, ◌*◌, ◌≤◌, ◌≡◌, refl, sym, ◌==◌, if◌then◌else◌, u16, u32, s8, Option, none, List, [], ◌∷◌,
  length, arith, Bool-cases, inl, inr,
}
use agoge.Prelude.Bits.{bit_or_bytes}
use agoge.Ctx.{Ctx, Log, DisasmEntry, DisasmOp, op_none, op_u8, op_u16, op_s8, op_branch}
use agoge.Step.{Result, ok, fault, deref, try_then}
use agoge.Log.Fits.{with_log}
use agoge.Printf.{vsprintf}
use agoge.Printf.Prints.{nums}
use agoge.Bus.{bus_peek}
use agoge.Bus.Memory.{memory, read_log, bus_read_lem, memory-lt}
use agoge.Valid.{IsReady}
use agoge.Disasm.Tables.{disasm_op_tbl, disasm_cb_tbl}
use agoge.Disasm.Buffer.{print_at}
use agoge.Disasm.Line.{held, shown, print_at-line}
use agoge.Disasm.Entries.{entry_text, lookup, op-entry_at, cb-entry_at}
use agoge.Disasm.{operand_u8, operand_u16, print_instr, format_instr, get_disasm_entry}

-- The byte at an address, cut to 16 bits.
abbrev pub byte_at : {room : ℕ} {s : Ctx} → IsReady room s → ℕ → ℕ
byte_at {s = s} h a = memory h.bus_ok.cart_ok.inserted s.bus (u16 a)

-- The numbers that an instruction at `addr` prints.
abbrev pub operands : DisasmOp → (ℕ → ℕ) → ℕ → List ℕ
operands op_none byte addr = []
operands op_u8 byte addr = byte (addr + 1) ∷ []
operands op_u16 byte addr = (byte (addr + 2) * 256 + byte (addr + 1)) ∷ []
operands op_s8 byte addr = s8 (byte (addr + 1)) ∷ []
operands op_branch byte addr = u32 (s8 (byte (addr + 1)) + addr + 2) ∷ []

-- The log after the bytes of the operand are read.
abbrev pub operand_log : DisasmOp → ℕ → Log → Log
operand_log op_none addr log = log
operand_log op_u16 addr log = read_log (u16 (addr + 2)) (read_log (u16 (addr + 1)) log)
operand_log _ addr log = read_log (u16 (addr + 1)) log

abbrev pub instr_text : DisasmEntry → (ℕ → ℕ) → ℕ → Result (List ℕ)
instr_text entry byte addr = entry_text entry (operands entry.op byte addr)

-- The context after a text is there, or its fault.
abbrev pub with_text : Result (List ℕ) → (List ℕ → Ctx) → Result (Unit {0} × Ctx)
with_text (ok t) next = ok (tt, next t)
with_text (fault x) next = fault x

module _ (s : Ctx) (addr : ℕ) (curr : Option DisasmEntry) (entry : DisasmEntry) (vs : List ℕ) where
  abbrev blank : Ctx
  blank = held s addr curr 0 []

  print_instr-fmt :
      (fmt : String) (r : Result (List ℕ))
      → deref entry.fmt ≡ ok fmt
      → vsprintf fmt (nums vs) ≡ r
      → ((t : List ℕ) → r ≡ ok t → length t ≤ 256)
      → print_instr entry (nums vs) blank ≡ with_text r (shown s addr curr)
  unfolding print_instr print_at
  print_instr-fmt fmt (ok t) known e short =
      rw (known, print_at-line s addr curr 0 [] t fmt (nums vs) e (omega (arith, short t refl)))
        refl
  print_instr-fmt fmt (fault x) known e short = rw (known, e) refl

  print_instr-lem :
      (f : Result String) (r : Result (List ℕ))
      → deref entry.fmt ≡ f
      → try_then f (λ fmt. vsprintf fmt (nums vs)) ≡ r
      → ((t : List ℕ) → r ≡ ok t → length t ≤ 256)
      → print_instr entry (nums vs) blank ≡ with_text r (shown s addr curr)
  unfolding print_instr
  print_instr-lem (ok fmt) r known e short = print_instr-fmt fmt r known e short
  print_instr-lem (fault x) r known e short = rw (known, sym e) refl

module _ {room : ℕ} {s : Ctx} (h : IsReady room s) where
  abbrev byte : ℕ → ℕ
  byte = byte_at h

  -- A byte is read while a result is being written.
  peek-held :
      (a addr : ℕ) (curr : Option DisasmEntry) (len : ℕ) (t : List ℕ) (log : Log)
      → bus_peek a (held (with_log s log) addr curr len t)
        ≡ ok (byte a, held (with_log s (read_log (u16 a) log)) addr curr len t)
  unfolding bus_peek
  peek-held a addr curr len t log =
      let h' : IsReady room (held (with_log s log) addr curr len t) = record {
        bus_ok = h.bus_ok;
        reg_ok = h.reg_ok;
      } in
      bus_read_lem h' a

  module _ (addr : ℕ) (curr : Option DisasmEntry) (log : Log) (entry : DisasmEntry)
      (short : (t : List ℕ) → instr_text entry byte addr ≡ ok t → length t ≤ 256) where
    format_instr-op :
        (op : DisasmOp)
        → entry.op ≡ op
        → format_instr entry (held (with_log s log) addr curr 0 [])
          ≡ with_text
              (instr_text entry byte addr)
              (shown (with_log s (operand_log entry.op addr log)) addr curr)
    unfolding format_instr operand_u8 operand_u16
    format_instr-op op_none known =
        rw known
          (print_instr-lem (with_log s log) addr curr entry [] _ _ refl refl (rw known at short))
    format_instr-op op_u8 known =
        rw (known, peek-held (addr + 1) addr curr 0 [] log)
          (print_instr-lem (with_log s (operand_log op_u8 addr log)) addr curr entry
            (operands op_u8 byte addr) _ _ refl refl (rw known at short))
    format_instr-op op_s8 known =
        rw (known, peek-held (addr + 1) addr curr 0 [] log)
          (print_instr-lem (with_log s (operand_log op_s8 addr log)) addr curr entry
            (operands op_s8 byte addr) _ _ refl refl (rw known at short))
    format_instr-op op_branch known =
        rw (known, peek-held (addr + 1) addr curr 0 [] log)
          (print_instr-lem (with_log s (operand_log op_branch addr log)) addr curr entry
            (operands op_branch byte addr) _ _ refl refl (rw known at short))
    format_instr-op op_u16 known =
        rw
          (
            known,
            peek-held (addr + 1) addr curr 0 [] log,
            peek-held (addr + 2) addr curr 0 [] (read_log (u16 (addr + 1)) log),
            bit_or_bytes (byte (addr + 2)) (byte (addr + 1)) (memory-lt h (u16 (addr + 1))),
          )
          (print_instr-lem (with_log s (operand_log op_u16 addr log)) addr curr entry
            (operands op_u16 byte addr) _ _ refl refl (rw known at short))

    -- The text of an instruction, or its fault.
    pub format_instr-lem :
        format_instr entry (held (with_log s log) addr curr 0 [])
        ≡ with_text
            (instr_text entry byte addr)
            (shown (with_log s (operand_log entry.op addr log)) addr curr)
    format_instr-lem = format_instr-op entry.op refl

-- The entry for an instruction at `addr`, and the log after its code is read.
abbrev pub instr_entry : (ℕ → ℕ) → ℕ → DisasmEntry
instr_entry byte addr =
    if byte addr == 0xCB
    then lookup disasm_cb_tbl (byte (addr + 1))
    else lookup disasm_op_tbl (byte addr)

abbrev pub code_log : (ℕ → ℕ) → ℕ → Log → Log
code_log byte addr log =
    if byte addr == 0xCB
    then read_log (u16 (addr + 1)) (read_log (u16 addr) log)
    else read_log (u16 addr) log

module _ {room : ℕ} {s : Ctx} (h : IsReady room s) (at addr : ℕ) where
  pub get_disasm_entry-lem :
      get_disasm_entry at (held s addr none 0 [])
      ≡ ok (
        instr_entry (byte_at h) at,
        held (with_log s (code_log (byte_at h) at s.log)) addr none 0 [],
      )
  unfolding get_disasm_entry
  get_disasm_entry-lem =
      let first = peek-held h at addr none 0 [] s.log in
      elim (Bool-cases (byte_at h at == 0xCB)) [
        | inl cb ↦
            rw
              (
                first,
                cb,
                peek-held h (at + 1) addr none 0 [] (read_log (u16 at) s.log),
                cb-entry_at (byte_at h (at + 1)) (memory-lt h (u16 (at + 1))),
              )
              refl
        | inr plain ↦ rw (first, plain, op-entry_at (byte_at h at) (memory-lt h (u16 at))) refl
      ]
