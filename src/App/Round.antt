-- ===== src/App/Round.antt =====
-- One turn of the loop of app/main.c, from a valid context.
use agoge.Prelude.{
  ℕ, ◌-◌, ◌≤◌, ◌<◌, ◌⊎◌, ◌≡◌, refl, ap, ◌∙◌, true, false, not, u16, List, length, arith, Bool-cases,
  inl, inr,
}
use agoge.Ctx.{Ctx, Log, Disasm, DisasmEntry, lvl_trace, ch_disasm}
use agoge.Log.Sends.{Sends, Sends-trans, logged-Sends}
use agoge.Runs.{Frame, twin}
use agoge.Step.{ok, fault, out_of_bounds}
use agoge.Printf.Prints.{HasNoNul, both}
use agoge.Bus.Memory.{memory}
use agoge.Valid.{IsReady}
use agoge.RunsCpu.Tables.{unhandled}
use agoge.RunsFetch.{next_byte}
use agoge.RunsCpu.Run.{cpu_step-twin, cpu_step-cases}
use agoge.Cpu.Run.{ctx_step}
use agoge.Boot.{ctx_step_one, ctx_step_fault}
use agoge.Disasm.Instr.{byte_at, instr_entry, with_text}
use agoge.Disasm.Single.{printable, text_at, byte_at-lt, printable-Printed, unprintable-fault}
use agoge.Disasm.Trace.{res_text}
use agoge.Disasm.Before.{instr_log-Sends, ready, trace_before_lem}
use agoge.Disasm.Shows.{no_trace, entry-traces}
use agoge.Disasm.{disasm_trace_before, disasm_trace_after}
use agoge.App.{traced_round}
use agoge.App.Turn.{
  shows, full_text, after_turn, turn_fault, which_fault, negated_lem, printable-handled, after_lem,
  after_fault, same_disasm,
}

module _ (room : ℕ) {s : Ctx} (h : IsReady room s) where
  abbrev byte : ℕ → ℕ
  byte = byte_at h

  abbrev pc : ℕ
  pc = s.reg.pc

  abbrev entry : DisasmEntry
  entry = instr_entry byte pc

  next-byte : next_byte h ≡ byte pc
  next-byte =
      let e : pc ≡ u16 pc = omega arith in
      ap (λ (a : ℕ). memory h.bus_ok.cart_ok.inserted s.bus a) e

  abbrev prepared : (t : List ℕ) → IsReady room (ready h t)
  prepared t = record { bus_ok = h.bus_ok; reg_ok = h.reg_ok }

  handled_lem :
      (t : List ℕ) → printable (byte pc) ≡ true → unhandled (next_byte (prepared t)) ≡ false
  handled_lem t good = ap unhandled next-byte ∙ printable-handled (byte pc) good

  -- The instruction itself runs from the prepared context, or it fills the port.
  step_cases :
      (t : List ℕ)
      → printable (byte pc) ≡ true
      → ((s' : Ctx) × (ctx_step 1 (ready h t) ≡ ok (tt, s'))
          × IsReady (room - 2) s'
          × Frame (ready h t) s')
        ⊎ ((126 ≤ s.bus.serial.data_size) × (ctx_step 1 (ready h t) ≡ fault out_of_bounds))
  step_cases t good = elim (cpu_step-cases room (ready h t) (prepared t) (handled_lem t good)) [
    | inl (s', e, ready', kept) ↦ inl (s', ctx_step_one (ready h t) s' e, ready', kept)
    | inr (many, over) ↦ inr (many, ctx_step_fault (ready h t) out_of_bounds over)
  ]

  -- Where the port holds fewer than 126 bytes it runs, and from any twin of the context as well.
  step_lem :
      s.bus.serial.data_size < 126
      → (t : List ℕ) (log : Log) (d : Disasm) → printable (byte pc) ≡ true
      → (s' : Ctx) × (log' : Log) × (ctx_step 1 (ready h t) ≡ ok (tt, s'))
        × (ctx_step 1 (twin log d s) ≡ ok (tt, twin log' d s'))
        × IsReady (room - 2) s'
        × Frame (ready h t) s'
  step_lem few t log d good =
      let (s', log', e, e', ready', kept) =
        cpu_step-twin room (ready h t) log d (prepared t) (handled_lem t good) few in
      (
        s',
        log',
        ctx_step_one (ready h t) s' e,
        ctx_step_one (twin log d s) (twin log' d s') e',
        ready',
        kept,
      )

  -- What a turn leaves.
  abbrev pub IsTurn : Ctx → Type 0
  IsTurn final =
      (t : List ℕ) × (full : List ℕ) × (s' : Ctx) × (text_at byte pc ≡ ok t)
      × (ctx_step 1 (ready h t) ≡ ok (tt, s'))
      × (full_text entry t s'.reg ≡ ok full)
      × (final ≡ after_turn pc entry full s')

  -- A turn that shows its instruction, where that returns.
  shown_lem :
      (t : List ℕ)
      → text_at byte pc ≡ ok t
      → length t ≤ 35
      → HasNoNul t
      → not (no_trace byte pc) ≡ true
      → (s' : Ctx) → ctx_step 1 (ready h t) ≡ ok (tt, s')
      → IsReady (room - 2) s'
      → Frame (ready h t) s'
      → (final : Ctx) × (traced_round s ≡ ok (tt, final))
        × IsTurn final
        × IsReady (room - 2) final
        × (final ≡ twin final.log final.disasm s')
        × Sends s.log final.log
  unfolding traced_round
  shown_lem t printed short clean quiet s' ran ready' kept =
      let sent = Sends-trans (instr_log-Sends byte pc s.log) kept.sends in
      let (can, _, _) = entry-traces byte (byte_at-lt h) pc in
      let (full, text_eq, after_eq) = after_lem s' pc entry t short clean (can ∙ quiet) in
      let shown_log = logged-Sends lvl_trace ch_disasm (res_text pc full) s'.log refl in
      let before_eq : disasm_trace_before s ≡ ok (tt, ready h t) =
        trace_before_lem h ∙ ap (λ r. with_text r (ready h)) printed in
      let end_eq : disasm_trace_after s' ≡ ok (tt, after_turn pc entry full s') =
        ap disasm_trace_after (same_disasm s' (ready h t).disasm kept.same_disasm) ∙ after_eq in
      (
        after_turn pc entry full s',
        rw (before_eq, ran) end_eq,
        (t, full, s', printed, ran, text_eq, refl),
        record { bus_ok = ready'.bus_ok; reg_ok = ready'.reg_ok },
        refl,
        Sends-trans sent shown_log,
      )

  -- A turn whose instruction fills the port.
  overflow_lem :
      (t : List ℕ)
      → text_at byte pc ≡ ok t
      → ctx_step 1 (ready h t) ≡ fault out_of_bounds
      → traced_round s ≡ fault out_of_bounds
  unfolding traced_round
  overflow_lem t printed over =
      let before_eq : disasm_trace_before s ≡ ok (tt, ready h t) =
        trace_before_lem h ∙ ap (λ r. with_text r (ready h)) printed in
      rw (before_eq, over) refl

  -- The turn ends in a write past the port, which holds 126 bytes or more.
  abbrev pub Overflows : Type 0
  Overflows = (126 ≤ s.bus.serial.data_size) × (traced_round s ≡ fault out_of_bounds)

  pub IsTurn-cases :
      shows byte pc ≡ true
      → ((final : Ctx) × (traced_round s ≡ ok (tt, final))
          × IsTurn final
          × IsReady (room - 2) final
          × Sends s.log final.log)
        ⊎ Overflows
  IsTurn-cases e =
      let (good, quiet) = both (printable (byte pc)) (not (no_trace byte pc)) e in
      let (t, printed, short, clean) = printable-Printed byte (byte_at-lt h) pc good in
      elim (step_cases t good) [
        | inl (s', ran, ready', kept) ↦
            let (final, turned, turn, ready'', _, sent) =
              shown_lem t printed short clean quiet s' ran ready' kept in
            inl (final, turned, turn, ready'', sent)
        | inr (many, over) ↦ inr (many, overflow_lem t printed over)
      ]

  -- The same turn, and the instruction alone from a twin.
  pub turn_lem :
      s.bus.serial.data_size < 126
      → shows byte pc ≡ true
      → (log : Log) (d : Disasm)
      → (final : Ctx) × (s' : Ctx) × (log' : Log) × (traced_round s ≡ ok (tt, final))
        × IsReady (room - 2) final
        × (ctx_step 1 (twin log d s) ≡ ok (tt, twin log' d s'))
        × (final ≡ twin final.log final.disasm s')
  turn_lem few e log d =
      let (good, quiet) = both (printable (byte pc)) (not (no_trace byte pc)) e in
      let (t, printed, short, clean) = printable-Printed byte (byte_at-lt h) pc good in
      let (s', log', ran, alone, ready', kept) = step_lem few t log d good in
      let (final, turned, turn, ready'', same, sent) =
        shown_lem t printed short clean quiet s' ran ready' kept in
      (final, s', log', turned, ready'', alone, same)

  -- From a valid context with room for `room` bytes at the serial port, at a code with a handler, a text
  -- and known traces, a turn of the loop returns; or the port holds 126 bytes or more, and the turn ends
  -- in an access past its end. The line of a turn that returns is the text of the instruction as it stands
  -- before the instruction runs, behind it the traces of the registers as the instruction leaves them;
  -- where traces of the disassembler are enabled the log gets it behind the address of the instruction.
  -- All else is as `agoge_core_ctx_step` leaves it, and the context is valid again, with room for two bytes
  -- less, or for none where `room` is below two.
  pub traced_round-shows :
      shows byte pc ≡ true
      → ((final : Ctx) × (traced_round s ≡ ok (tt, final))
          × IsTurn final
          × IsReady (room - 2) final)
        ⊎ Overflows
  traced_round-shows e = elim (IsTurn-cases e) [
    | inl (final, turned, turn, ready', _) ↦ inl (final, turned, turn, ready')
    | inr over ↦ inr over
  ]

  -- Anywhere else the turn ends in a fault: at an unset code for want of a format, or for want of an
  -- argument that the format takes; where the instruction has a text, for a jump through the unset entry
  -- of the traces at LD (u16), SP, and past their end at an (HL) form behind the prefix; or, where the port
  -- holds 126 bytes or more, in an access past the end of the port.
  pub traced_round-fault :
      shows byte pc ≡ false → (traced_round s ≡ fault (turn_fault byte pc)) ⊎ Overflows
  unfolding traced_round
  traced_round-fault e = elim (Bool-cases (printable (byte pc))) [
    | inr bad ↦
        let before_eq =
          trace_before_lem h
          ∙ ap (λ r. with_text r (ready h)) (unprintable-fault byte (byte_at-lt h) pc bad) in
        inl (rw (before_eq, bad) refl)
    | inl good ↦
        let (t, printed, short, clean) = printable-Printed byte (byte_at-lt h) pc good in
        let (_, cannot, past) = entry-traces byte (byte_at-lt h) pc in
        let untraced : no_trace byte pc ≡ true = negated_lem (no_trace byte pc) (rw good at e) in
        let before_eq : disasm_trace_before s ≡ ok (tt, ready h t) =
          trace_before_lem h ∙ ap (λ r. with_text r (ready h)) printed in
        elim (step_cases t good) [
          | inr (many, over) ↦ inr (many, overflow_lem t printed over)
          | inl (s', ran, _, kept) ↦ inl (
              rw (before_eq, ran, good)
                (ap disasm_trace_after (same_disasm s' (ready h t).disasm kept.same_disasm)
                  ∙ after_fault s' pc entry t short clean (cannot ∙ untraced)
                  ∙ ap fault (which_fault byte pc past untraced)))
        ]
  ]
