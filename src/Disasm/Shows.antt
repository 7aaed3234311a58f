-- ===== src/Disasm/Shows.antt =====
-- Which entries of the two tables of core/src/disasm.c have traces that `append_trace` knows.
use agoge.Prelude.{
  ℕ, ◌<◌, ◌+◌, ◌≡◌, ◌⊎◌, inl, inr, refl, sym, ap, ◌∙◌, Bool, true, false, not, ◌&&◌, ◌||◌,
  if◌then◌else◌, leb, ltb, ◌==◌, ◌%◌, List, ◌++◌, all_below, holds_below, arith, Bool-cases,
}
use agoge.Ctx.{
  Reg, DisasmEntry, DisasmTrace, trace_none, trace_mem_hl, trace_reg_b, trace_reg_c, trace_reg_d,
  trace_reg_e, trace_reg_f, trace_reg_h, trace_reg_l, trace_reg_a, trace_reg_bc, trace_reg_de,
  trace_reg_hl, trace_reg_af, trace_reg_sp,
}
use agoge.Step.{ok, fault, out_of_bounds, null_jump}
use agoge.Printf.{codes}
use agoge.Printf.Prints.{both}
use agoge.Disasm.Tables.{disasm_op_tbl, disasm_cb_tbl}
use agoge.Disasm.Entries.{lookup, same, same-eq}
use agoge.Disasm.Instr.{instr_entry}
use agoge.Disasm.Traces.{trace_text}
use agoge.Disasm.After.{traces_text}

abbrev is_known : DisasmTrace → Bool
is_known trace_none = false
is_known trace_mem_hl = false
is_known _ = true

-- No trace, or one or two that are known.
abbrev pub traceable : DisasmEntry → Bool
traceable entry =
    entry.num_traces == 0
    || entry.num_traces == 1 && is_known entry.trace_0
    || entry.num_traces == 2 && is_known entry.trace_0 && is_known entry.trace_1

-- One trace or two, the first of which is not known.
abbrev pub untraceable : DisasmEntry → Bool
untraceable entry = (entry.num_traces == 1 || entry.num_traces == 2) && not (is_known entry.trace_0)

abbrev is_beyond : DisasmTrace → Bool
is_beyond trace_mem_hl = true
is_beyond _ = false

-- The first trace has an index past the end of the table of labels.
abbrev pub beyond : DisasmEntry → Bool
beyond entry = untraceable entry && is_beyond entry.trace_0

-- Behind the prefix: an operation on (HL) that is not BIT.
abbrev pub is_on_mem_hl : ℕ → Bool
is_on_mem_hl instr = instr % 8 == 6 && not (leb 0x40 instr && ltb instr 0x80)

-- LD (u16), SP, or an operation on (HL) that changes it, behind the prefix.
abbrev pub no_trace : (ℕ → ℕ) → ℕ → Bool
no_trace byte addr = byte addr == 0x08 || (byte addr == 0xCB && is_on_mem_hl (byte (addr + 1)))

unfoldable op_traces : ℕ → Bool
op_traces i =
    let entry = lookup disasm_op_tbl i in
    same (traceable entry) (not (i == 0x08))
    && (same (untraceable entry) (i == 0x08) && same (beyond entry) false)

unfoldable cb_traces : ℕ → Bool
cb_traces i =
    let entry = lookup disasm_cb_tbl i in
    same (traceable entry) (not (is_on_mem_hl i))
    && (same (untraceable entry) (is_on_mem_hl i) && same (beyond entry) (is_on_mem_hl i))

ops_traced : all_below 256 op_traces ≡ true
unfolding op_traces disasm_op_tbl all_below
ops_traced = refl

cbs_traced : all_below 256 cb_traces ≡ true
unfolding cb_traces disasm_cb_tbl all_below
cbs_traced = refl

module _ (i : ℕ) (lt : i < 256) where
  op-traces :
      (traceable (lookup disasm_op_tbl i) ≡ not (i == 0x08))
      × (untraceable (lookup disasm_op_tbl i) ≡ (i == 0x08))
      × (beyond (lookup disasm_op_tbl i) ≡ false)
  unfolding op_traces
  op-traces =
      let (e₁, rest) = both _ _ (holds_below op_traces i 256 lt ops_traced) in
      let (e₂, e₃) = both _ _ rest in (same-eq _ _ e₁, same-eq _ _ e₂, same-eq _ _ e₃)

  cb-traces :
      (traceable (lookup disasm_cb_tbl i) ≡ not (is_on_mem_hl i))
      × (untraceable (lookup disasm_cb_tbl i) ≡ is_on_mem_hl i)
      × (beyond (lookup disasm_cb_tbl i) ≡ is_on_mem_hl i)
  unfolding cb_traces
  cb-traces =
      let (e₁, rest) = both _ _ (holds_below cb_traces i 256 lt cbs_traced) in
      let (e₂, e₃) = both _ _ rest in (same-eq _ _ e₁, same-eq _ _ e₂, same-eq _ _ e₃)

or_false : (x : Bool) → (x || false) ≡ x
or_false true = refl
or_false false = refl

module _ (byte : ℕ → ℕ) (bytes : (a : ℕ) → byte a < 256) (addr : ℕ) where
  -- An instruction that is not one of these.
  pub entry-traces :
      (traceable (instr_entry byte addr) ≡ not (no_trace byte addr))
      × (untraceable (instr_entry byte addr) ≡ no_trace byte addr)
      × (beyond (instr_entry byte addr) ≡ (byte addr == 0xCB && is_on_mem_hl (byte (addr + 1))))
  entry-traces = elim (Bool-cases (byte addr == 0xCB)) [
    | inl cb ↦
        let plain : (byte addr == 0x08) ≡ false = ground arith in
        rw (cb, plain) (cb-traces (byte (addr + 1)) (bytes (addr + 1)))
    | inr other ↦
        let (e₁, e₂, e₃) = op-traces (byte addr) (bytes addr) in
        rw other (
          e₁ ∙ ap not (sym (or_false (byte addr == 0x08))),
          e₂ ∙ sym (or_false (byte addr == 0x08)),
          e₃,
        )
  ]

trace_text-known :
    (type : DisasmTrace) (r : Reg)
    → is_known type ≡ true
    → (u : List ℕ) × (trace_text type r ≡ ok u)
unfolding trace_text
trace_text-known trace_none r e = absurd (cc e)
trace_text-known trace_mem_hl r e = absurd (cc e)
trace_text-known trace_reg_b r e = (_, refl)
trace_text-known trace_reg_c r e = (_, refl)
trace_text-known trace_reg_d r e = (_, refl)
trace_text-known trace_reg_e r e = (_, refl)
trace_text-known trace_reg_f r e = (_, refl)
trace_text-known trace_reg_h r e = (_, refl)
trace_text-known trace_reg_l r e = (_, refl)
trace_text-known trace_reg_a r e = (_, refl)
trace_text-known trace_reg_bc r e = (_, refl)
trace_text-known trace_reg_de r e = (_, refl)
trace_text-known trace_reg_hl r e = (_, refl)
trace_text-known trace_reg_af r e = (_, refl)
trace_text-known trace_reg_sp r e = (_, refl)

trace_text-unknown :
    (type : DisasmTrace) (r : Reg)
    → is_known type ≡ false
    → trace_text type r ≡ fault (if is_beyond type then out_of_bounds else null_jump)
unfolding trace_text
trace_text-unknown trace_none r e = refl
trace_text-unknown trace_mem_hl r e = refl
trace_text-unknown trace_reg_b r e = absurd (cc e)
trace_text-unknown trace_reg_c r e = absurd (cc e)
trace_text-unknown trace_reg_d r e = absurd (cc e)
trace_text-unknown trace_reg_e r e = absurd (cc e)
trace_text-unknown trace_reg_f r e = absurd (cc e)
trace_text-unknown trace_reg_h r e = absurd (cc e)
trace_text-unknown trace_reg_l r e = absurd (cc e)
trace_text-unknown trace_reg_a r e = absurd (cc e)
trace_text-unknown trace_reg_bc r e = absurd (cc e)
trace_text-unknown trace_reg_de r e = absurd (cc e)
trace_text-unknown trace_reg_hl r e = absurd (cc e)
trace_text-unknown trace_reg_af r e = absurd (cc e)
trace_text-unknown trace_reg_sp r e = absurd (cc e)

-- One trace or two.
abbrev pub HasTraces : DisasmEntry → Type 0
HasTraces entry = (entry.num_traces ≡ 1) ⊎ (entry.num_traces ≡ 2)

module _ (entry : DisasmEntry) where
  one_or_two : (entry.num_traces == 1 || entry.num_traces == 2) ≡ true → HasTraces entry
  one_or_two e = ground arith

  pub traceable-text :
      traceable entry ≡ true
      → (entry.num_traces == 0) ≡ false
      → HasTraces entry × ((r : Reg) → (u : List ℕ) × (traces_text entry r ≡ ok u))
  traceable-text e some_traces = elim (Bool-cases (entry.num_traces == 1)) [
    | inl one ↦
        let known : is_known entry.trace_0 ≡ true = ground (arith, e, some_traces, one) in
        (
          inl (ground arith),
          λ r. let (u, p) = trace_text-known entry.trace_0 r known in (u, rw (p, one) refl),
        )
    | inr more ↦
        let known : (entry.num_traces == 2 && is_known entry.trace_0 && is_known entry.trace_1)
            ≡ true =
          rw (some_traces, more) at e in
        let (known₁, known₂) =
          both (entry.num_traces == 2 && is_known entry.trace_0) (is_known entry.trace_1) known in
        let (two, known₀) = both (entry.num_traces == 2) (is_known entry.trace_0) known₁ in
        (
          inr (ground arith),
          λ r.
              let (u, p) = trace_text-known entry.trace_0 r known₀ in
              let (v, q) = trace_text-known entry.trace_1 r known₂ in
              ((u ++ codes ", ") ++ v, rw (p, more, q) refl),
        )
  ]

  pub untraceable-fault :
      untraceable entry ≡ true
      → HasTraces entry
        × ((r : Reg)
            → traces_text entry r ≡ fault (if beyond entry then out_of_bounds else null_jump))
  untraceable-fault e =
      let (counted, unknown) =
        both (entry.num_traces == 1 || entry.num_traces == 2) (not (is_known entry.trace_0)) e in
      (
        one_or_two counted,
        λ r. let p = trace_text-unknown entry.trace_0 r (ground arith) in rw (p, e) refl,
      )
