-- ===== src/App/Turn.antt =====
-- The parts of a turn of the loop of app/main.c: what it shows, and what `agoge_core_disasm_trace_after`
-- of core/src/disasm.c does with a text that was prepared.
use agoge.Prelude.{
  ℕ, ◌+◌, ◌≤◌, ◌≡◌, refl, ap, ◌∙◌, Bool, true, false, not, ◌&&◌, ◌||◌, ◌==◌, ==_iff, if◌then◌else◌,
  none, List, ◌++◌, length, arith, Bool-cases, inl, inr,
}
use agoge.Ctx.{Ctx, Reg, Disasm, DisasmEntry}
use agoge.Step.{
  Result, ok, fault, Fault, null_pointer, missing_argument, null_jump, out_of_bounds, try_then,
}
use agoge.Log.Fits.{with_log}
use agoge.Printf.Prints.{HasNoNul}
use agoge.RunsCpu.Tables.{unhandled}
use agoge.Disasm.Line.{shown}
use agoge.Disasm.Entries.{no_operand}
use agoge.Disasm.Instr.{with_text}
use agoge.Disasm.Single.{printable}
use agoge.Disasm.Trace.{padded, padded-length, padded-HasNoNul, res_log, log_res-lem}
use agoge.Disasm.Before.{pending, prepared_text}
use agoge.Disasm.After.{traces_text, traced, trace_after_lem}
use agoge.Disasm.Shows.{
  no_trace, is_on_mem_hl, traceable, untraceable, beyond, traceable-text, untraceable-fault,
}
use agoge.Disasm.{disasm_trace_after}

-- The instruction at an address has a text, and traces that are known.
abbrev pub shows : (ℕ → ℕ) → ℕ → Bool
shows byte addr = printable (byte addr) && not (no_trace byte addr)

-- What the log gets: the text of an instruction, and the traces behind it where it has any.
abbrev pub full_text : DisasmEntry → List ℕ → Reg → Result (List ℕ)
full_text entry t r =
    if entry.num_traces == 0 then ok t else try_then (traces_text entry r) λ u. ok (padded t ++ u)

-- The context after a turn: its line is the result, and in the log where traces are enabled.
abbrev pub after_turn : ℕ → DisasmEntry → List ℕ → Ctx → Ctx
after_turn addr entry full s =
    shown (with_log s (res_log addr full s.log)) addr (pending entry) full

-- How a turn ends at an instruction that cannot be shown.
abbrev pub turn_fault : (ℕ → ℕ) → ℕ → Fault
turn_fault byte addr =
    if printable (byte addr)
    then (if byte addr == 0x08 then null_jump else out_of_bounds)
    else (if unhandled (byte addr) then null_pointer else missing_argument)

pub which_fault :
    (byte : ℕ → ℕ) (addr : ℕ) {past : Bool}
    → past ≡ (byte addr == 0xCB && is_on_mem_hl (byte (addr + 1)))
    → no_trace byte addr ≡ true
    → Path Fault
        (if past then out_of_bounds else null_jump)
        (if byte addr == 0x08 then null_jump else out_of_bounds)
which_fault byte addr e untraced = elim (Bool-cases (byte addr == 0x08)) [
  | inl at_sp ↦ let plain : (byte addr == 0xCB) ≡ false = ground arith in rw (e, at_sp, plain) refl
  | inr other ↦ let cb = rw other at untraced in rw (e, other, cb) refl
]

neither : (x y : Bool) → not (x || y) ≡ true → x ≡ false
neither true y e = absurd (cc e)
neither false y e = refl

pub negated_lem : (x : Bool) → not x ≡ false → x ≡ true
negated_lem true e = refl
negated_lem false e = absurd (cc e)

pub printable-handled : (c : ℕ) → printable c ≡ true → unhandled c ≡ false
printable-handled c e = elim (Bool-cases (c == 0xCB)) [
  | inl cb ↦ let same : c ≡ 0xCB = (==_iff c 0xCB).0 cb in rw same refl
  | inr plain ↦ neither (unhandled c) (no_operand c) (rw plain at e)
]

-- What `agoge_core_disasm_trace_after` does with a text that was prepared.
module _ (s : Ctx) (addr : ℕ) (entry : DisasmEntry) (t : List ℕ) (short : length t ≤ 35)
    (clean : HasNoNul t) where
  pub after_lem :
      traceable entry ≡ true
      → (full : List ℕ) × (full_text entry t s.reg ≡ ok full)
        × (disasm_trace_after (shown s addr (pending entry) (prepared_text entry t))
            ≡ ok (tt, after_turn addr entry full s))
  unfolding disasm_trace_after
  after_lem e = elim (Bool-cases (entry.num_traces == 0)) [
    | inl bare ↦ (t, rw bare refl, rw bare (log_res-lem s addr none t clean (omega arith)))
    | inr more ↦
        let (counted, texts) = traceable-text entry e more in
        let (u, p) = texts s.reg in
        (
          padded t ++ u,
          rw (more, p) refl,
          rw more (
              trace_after_lem s addr entry (padded t) (padded-HasNoNul t clean)
                (omega (arith, padded-length t short)) counted
              ∙ ap (λ r. with_text r (traced s addr entry (padded t))) p),
        )
  ]

  pub after_fault :
      untraceable entry ≡ true
      → disasm_trace_after (shown s addr (pending entry) (prepared_text entry t))
        ≡ fault (if beyond entry then out_of_bounds else null_jump)
  after_fault e =
      let (counted, faults) = untraceable-fault entry e in
      let more : (entry.num_traces == 0) ≡ false = ground arith in
      rw more (
        trace_after_lem s addr entry (padded t) (padded-HasNoNul t clean)
          (omega (arith, padded-length t short)) counted
        ∙ ap (λ r. with_text r (traced s addr entry (padded t))) (faults s.reg))

-- A context is what it was before, where only the disassembler was left alone.
pub same_disasm : (s : Ctx) (d : Disasm) → s.disasm ≡ d → s ≡ record s { disasm = d }
same_disasm s d e = ap (λ x. record s { disasm = x }) e
