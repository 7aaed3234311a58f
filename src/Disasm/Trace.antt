-- ===== src/Disasm/Trace.antt =====
-- The line that core/src/disasm.c writes to the log: `format_trace_area` and `LOG_TRACE`.
use agoge.Prelude.{
  ℕ, zero, suc, ◌+◌, ◌-◌, ◌^◌, ◌≤◌, ◌≡◌, refl, ap, u64, Option, List, [], ◌∷◌, ◌++◌, length,
  length-append, arith, Bool-cases, inl, inr,
}
use agoge.Ctx.{Ctx, Log, DisasmEntry, lvl_trace, ch_disasm}
use agoge.Step.{ok}
use agoge.Log.{log_enabled}
use agoge.Log.Fits.{logged, logged-off, with_log, log_message_lem}
use agoge.Printf.{num, text, codes, vsprintf, hex_text, hex_text-le}
use agoge.Printf.Prints.{HasNoNul, append-HasNoNul}
use agoge.Bus.{c_string}
use agoge.Disasm.Line.{
  line, spaces, length-spaces, shown, put_spaces-line, append_str-line, c_string-line,
}
use agoge.Disasm.{format_trace_area, log_res}

-- The text of an instruction, filled up to 35 bytes, and what parts it from the traces.
abbrev pub padded : List ℕ → List ℕ
padded t = (t ++ spaces (35 - length t)) ++ codes " ; "

pub padded-length : (t : List ℕ) → length t ≤ 35 → length (padded t) ≡ 38
padded-length t short = omega (
  arith,
  length-append (t ++ spaces (35 - length t)) (codes " ; "),
  length-append t (spaces (35 - length t)),
  length-spaces (35 - length t),
)

spaces-HasNoNul : (n : ℕ) → HasNoNul (spaces n)
spaces-HasNoNul zero = tt
spaces-HasNoNul (suc n) = (refl, spaces-HasNoNul n)

pub padded-HasNoNul : (t : List ℕ) → HasNoNul t → HasNoNul (padded t)
padded-HasNoNul t clean =
    append-HasNoNul (t ++ spaces (35 - length t)) (codes " ; ")
      (append-HasNoNul t (spaces (35 - length t)) clean (spaces-HasNoNul (35 - length t)))
      (refl, (refl, (refl, tt)))

-- The line of the log.
unfoldable pub res_text : ℕ → List ℕ → List ℕ
unfolding hex_text
res_text addr t = codes "[trace] [disasm] $" ++ (hex_text 4 addr ++ (codes ": " ++ (t ++ [])))

abbrev pub res_log : ℕ → List ℕ → Log → Log
res_log addr t log = logged lvl_trace ch_disasm (res_text addr t) log

module _ (s : Ctx) (addr : ℕ) (curr : Option DisasmEntry) (t : List ℕ) where
  pub format_trace_area-lem :
      length t ≤ 35
      → format_trace_area (shown s addr curr t) ≡ ok (tt, shown s addr curr (padded t))
  unfolding format_trace_area
  format_trace_area-lem short =
      let n : u64 (35 + 2 ^ 64 - length t) ≡ 35 - length t = omega arith in
      let filled : List ℕ = t ++ spaces (35 - length t) in
      let sum : u64 (length t + (35 - length t)) ≡ length filled =
        omega (arith, length-append t (spaces (35 - length t)), length-spaces (35 - length t)) in
      rw (n, put_spaces-line s addr curr (length t) (35 - length t) t (omega arith), sum)
        (append_str-line s addr curr filled " ; " (omega arith))

  pub log_res-lem :
      HasNoNul t
      → length t ≤ 200
      → log_res (shown s addr curr t)
        ≡ ok (tt, shown (with_log s (res_log addr t s.log)) addr curr t)
  unfolding log_res vsprintf res_text
  log_res-lem clean short =
      let str : c_string 257 (line t) 0 ≡ ok t =
        c_string-line t 257 0 (line t) clean (omega arith) (λ j. ap (line t) (omega arith)) in
      let sent =
        log_message_lem lvl_trace ch_disasm "$%04X: %s" (num addr ∷ text t ∷ []) "[trace] "
          (b'$' ∷ (hex_text 4 addr ++ (codes ": " ++ (t ++ [])))) (shown s addr curr t) refl refl
          (omega (
            arith,
            length-append (hex_text 4 addr) (codes ": " ++ (t ++ [])),
            length-append t [],
            hex_text-le 4 addr,
          )) in
      elim (Bool-cases (log_enabled s.log lvl_trace ch_disasm)) [
        | inl on ↦ rw (on, str) sent
        | inr off ↦ rw off (rw (logged-off lvl_trace ch_disasm (res_text addr t) s.log off) refl)
      ]
