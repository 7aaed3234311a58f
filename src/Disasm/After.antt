-- ===== src/Disasm/After.antt =====
-- `agoge_core_disasm_trace_after` of core/src/disasm.c.
use agoge.Prelude.{
  ℕ, ◌-◌, ◌≤◌, ◌≡◌, ◌⊎◌, refl, sym, ap, ◌∙◌, true, false, ◌==◌, if◌then◌else◌, Option, some, List,
  ◌++◌, length, length-append, arith, inl, inr,
}
use agoge.Ctx.{Ctx, Reg, DisasmEntry}
use agoge.Step.{Result, ok, fault, try_then, and_then, ◌>>◌}
use agoge.Log.Fits.{with_log}
use agoge.Printf.{codes}
use agoge.Printf.Prints.{HasNoNul, append-HasNoNul}
use agoge.Disasm.Line.{shown, append_str-line, append_assoc}
use agoge.Disasm.Instr.{with_text}
use agoge.Disasm.Traces.{trace_text, Short, trace_text-Short, append_trace-lem}
use agoge.Disasm.{append_traces, log_res, disasm_trace_after}
use agoge.Disasm.Trace.{res_log, log_res-lem}

-- What is shown behind the text of an instruction: one trace or two.
abbrev pub traces_text : DisasmEntry → Reg → Result (List ℕ)
traces_text entry r = try_then (trace_text entry.trace_0 r) λ u.
    if entry.num_traces == 1
    then ok u
    else try_then (trace_text entry.trace_1 r) λ v. ok ((u ++ codes ", ") ++ v)

module _ (s : Ctx) (addr : ℕ) (entry : DisasmEntry) (t : List ℕ) (room : length t ≤ 100) where
  abbrev curr : Option DisasmEntry
  curr = some entry

  append_traces-one :
      append_traces 1 1 entry (shown s addr curr t)
      ≡ with_text (trace_text entry.trace_1 s.reg) (λ v. shown s addr curr ((t ++ codes ", ") ++ v))
  unfolding append_traces
  append_traces-one =
      rw
        (
          append_str-line s addr curr t ", " (omega arith),
          append_trace-lem s addr curr (t ++ codes ", ")
              (omega (arith, length-append t (codes ", "))) entry.trace_1,
        )
        (last (trace_text entry.trace_1 s.reg))
    where
      last :
          (r : Result (List ℕ))
          → and_then
              (with_text r (λ v. shown s addr (some entry) ((t ++ codes ", ") ++ v)))
              (λ _. append_traces 0 2 entry)
            ≡ with_text r (λ v. shown s addr (some entry) ((t ++ codes ", ") ++ v))
      last (ok v) = refl
      last (fault x) = refl

-- The context after the traces `u` behind the text `t`.
abbrev pub traced : Ctx → ℕ → DisasmEntry → List ℕ → List ℕ → Ctx
traced s addr entry t u =
    shown (with_log s (res_log addr (t ++ u) s.log)) addr (some entry) (t ++ u)

module _ (s : Ctx) (addr : ℕ) (entry : DisasmEntry) (t : List ℕ) (clean : HasNoNul t)
    (short : length t ≤ 38) where
  -- A text that ends the line.
  logged-line :
      (u : List ℕ)
      → HasNoNul u
      → length u ≤ 100
      → log_res (shown s addr (some entry) (t ++ u)) ≡ ok (tt, traced s addr entry t u)
  logged-line u clean' short' =
      log_res-lem s addr (some entry) (t ++ u) (append-HasNoNul t u clean clean')
        (omega (arith, length-append t u))

  after_one :
      (r : Result (List ℕ))
      → Short r
      → and_then (with_text r (λ u. shown s addr (some entry) (t ++ u))) (λ _. log_res)
        ≡ with_text (try_then r λ u. ok u) (traced s addr entry t)
  after_one (ok u) (le, clean') = logged-line u clean' (omega arith)
  after_one (fault x) _ = refl

  after_two :
      (r : Result (List ℕ)) (u : List ℕ)
      → Short (ok u)
      → Short r
      → and_then
          (with_text r (λ v. shown s addr (some entry) (((t ++ u) ++ codes ", ") ++ v)))
          (λ _. log_res)
        ≡ with_text (try_then r λ v. ok ((u ++ codes ", ") ++ v)) (traced s addr entry t)
  after_two (fault x) u _ _ = refl
  after_two (ok v) u (le, clean₁) (le', clean₂) =
      let both : List ℕ = (u ++ codes ", ") ++ v in
      let moved : ((t ++ u) ++ codes ", ") ++ v ≡ t ++ both =
        ap (λ x. x ++ v) (sym (append_assoc t u (codes ", ")))
        ∙ sym (append_assoc t (u ++ codes ", ") v) in
      rw moved (
        logged-line both
          (append-HasNoNul (u ++ codes ", ") v
            (append-HasNoNul u (codes ", ") clean₁ (refl, (refl, tt))) clean₂)
          (omega (arith, length-append (u ++ codes ", ") v, length-append u (codes ", "))))

  first_of_two :
      (r : Result (List ℕ))
      → Short r
      → and_then
          (with_text r (λ u. shown s addr (some entry) (t ++ u)))
          (λ _. do append_traces 1 1 entry; log_res)
        ≡ with_text
            (try_then r
              λ u. try_then (trace_text entry.trace_1 s.reg) λ v. ok ((u ++ codes ", ") ++ v))
            (traced s addr entry t)
  first_of_two (fault x) _ = refl
  first_of_two (ok u) (le, clean') =
      rw (append_traces-one s addr entry (t ++ u) (omega (arith, length-append t u))) (
        after_two (trace_text entry.trace_1 s.reg) u (le, clean')
          (trace_text-Short entry.trace_1 s.reg))

  pub trace_after_lem :
      (entry.num_traces ≡ 1) ⊎ (entry.num_traces ≡ 2)
      → disasm_trace_after (shown s addr (some entry) t)
        ≡ with_text (traces_text entry s.reg) (traced s addr entry t)
  unfolding disasm_trace_after append_traces
  trace_after_lem (inl one) =
      let rest : entry.num_traces - 1 ≡ 0 = omega arith in
      let single : (entry.num_traces == 1) ≡ true = ground arith in
      rw (append_trace-lem s addr (some entry) t (omega arith) entry.trace_0, rest, single)
        (after_one (trace_text entry.trace_0 s.reg) (trace_text-Short entry.trace_0 s.reg))
  trace_after_lem (inr two) =
      let rest : entry.num_traces - 1 ≡ 1 = omega arith in
      let single : (entry.num_traces == 1) ≡ false = ground arith in
      rw (append_trace-lem s addr (some entry) t (omega arith) entry.trace_0, rest, single)
        (first_of_two (trace_text entry.trace_0 s.reg) (trace_text-Short entry.trace_0 s.reg))
