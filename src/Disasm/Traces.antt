-- ===== src/Disasm/Traces.antt =====
-- `append_trace` of core/src/disasm.c: what is shown of the registers.
use Prim.Native.String.{String}
use agoge.Prelude.{
  ℕ, ◌+◌, ◌*◌, ◌≤◌, ◌≡◌, refl, sym, ap, ◌∙◌, Option, List, [], ◌∷◌, ◌++◌, length, length-append,
  arith,
}
use agoge.Ctx.{
  Ctx, Reg, DisasmEntry, DisasmTrace, trace_none, trace_reg_b, trace_reg_c, trace_reg_d,
  trace_reg_e, trace_reg_f, trace_reg_h, trace_reg_l, trace_reg_a, trace_reg_bc, trace_reg_de,
  trace_reg_hl, trace_reg_af, trace_reg_sp, trace_mem_hl,
}
use agoge.Step.{Result, ok, fault, null_jump, out_of_bounds}
use agoge.Printf.{num, codes, hex_text, vsprintf, hex_text-le}
use agoge.Printf.Prints.{HasNoNul, append-HasNoNul, hex_text-HasNoNul}
use agoge.Cpu.Reg.{get8, get16, rd8, rd16, rd_f, rd_af}
use agoge.Disasm.Buffer.{append_format}
use agoge.Disasm.Line.{shown, append_format-line, append_assoc}
use agoge.Disasm.Instr.{with_text}
use agoge.Disasm.{append_trace}
use agoge.Disasm.Flags.{flags_part, flags_part-le, flags_part-HasNoNul, append_expanded_flag-lem}

abbrev labelled : String → ℕ → ℕ → List ℕ
labelled label width v = codes label ++ (hex_text width v ++ [])

-- What is shown for a trace.
unfoldable pub trace_text : DisasmTrace → Reg → Result (List ℕ)
unfolding hex_text
trace_text trace_none r = fault null_jump
trace_text trace_reg_b r = ok (labelled "B=$" 2 r.b)
trace_text trace_reg_c r = ok (labelled "C=$" 2 r.c)
trace_text trace_reg_d r = ok (labelled "D=$" 2 r.d)
trace_text trace_reg_e r = ok (labelled "E=$" 2 r.e)
trace_text trace_reg_f r = ok (labelled "F=$" 2 r.f ++ flags_part r.f)
trace_text trace_reg_h r = ok (labelled "H=$" 2 r.h)
trace_text trace_reg_l r = ok (labelled "L=$" 2 r.l)
trace_text trace_reg_a r = ok (labelled "A=$" 2 r.a)
trace_text trace_reg_bc r = ok (labelled "BC=$" 4 (r.b * 256 + r.c))
trace_text trace_reg_de r = ok (labelled "DE=$" 4 (r.d * 256 + r.e))
trace_text trace_reg_hl r = ok (labelled "HL=$" 4 (r.h * 256 + r.l))
trace_text trace_reg_af r = ok (labelled "AF=$" 4 (r.a * 256 + r.f))
trace_text trace_reg_sp r = ok (labelled "SP=$" 4 r.sp)
trace_text trace_mem_hl r = fault out_of_bounds

-- A text of at most 30 bytes without a NUL, unless it is a fault.
abbrev pub Short : Result (List ℕ) → Type 0
Short (ok t) = (length t ≤ 30) × HasNoNul t
Short (fault x) = Unit {0}

labelled-le :
    (label : String) (width v : ℕ) → length (codes label) ≤ 4 → length (labelled label width v) ≤ 12
labelled-le label width v short = omega (
  arith,
  length-append (codes label) (hex_text width v ++ []),
  length-append (hex_text width v) [],
  hex_text-le width v,
)

labelled-Short :
    (label : String) (width v : ℕ)
    → length (codes label) ≤ 4
    → HasNoNul (codes label)
    → Short (ok (labelled label width v))
labelled-Short label width v short clean = (
  omega (arith, labelled-le label width v short),
  append-HasNoNul (codes label) (hex_text width v ++ []) clean
      (append-HasNoNul (hex_text width v) [] (hex_text-HasNoNul width v) tt),
)

pub trace_text-Short : (type : DisasmTrace) (r : Reg) → Short (trace_text type r)
unfolding trace_text
trace_text-Short trace_none r = tt
trace_text-Short trace_mem_hl r = tt
trace_text-Short trace_reg_f r =
    let (le, clean) = labelled-Short "F=$" 2 r.f (omega arith) (refl, (refl, (refl, tt))) in
    (
      omega (
        arith,
        length-append (labelled "F=$" 2 r.f) (flags_part r.f),
        flags_part-le r.f,
        labelled-le "F=$" 2 r.f (omega arith),
      ),
      append-HasNoNul (labelled "F=$" 2 r.f) (flags_part r.f) clean (flags_part-HasNoNul r.f),
    )
trace_text-Short trace_reg_b r = labelled-Short "B=$" 2 r.b (omega arith) (refl, (refl, (refl, tt)))
trace_text-Short trace_reg_c r = labelled-Short "C=$" 2 r.c (omega arith) (refl, (refl, (refl, tt)))
trace_text-Short trace_reg_d r = labelled-Short "D=$" 2 r.d (omega arith) (refl, (refl, (refl, tt)))
trace_text-Short trace_reg_e r = labelled-Short "E=$" 2 r.e (omega arith) (refl, (refl, (refl, tt)))
trace_text-Short trace_reg_h r = labelled-Short "H=$" 2 r.h (omega arith) (refl, (refl, (refl, tt)))
trace_text-Short trace_reg_l r = labelled-Short "L=$" 2 r.l (omega arith) (refl, (refl, (refl, tt)))
trace_text-Short trace_reg_a r = labelled-Short "A=$" 2 r.a (omega arith) (refl, (refl, (refl, tt)))
trace_text-Short trace_reg_bc r =
    labelled-Short "BC=$" 4 (r.b * 256 + r.c) (omega arith) (refl, (refl, (refl, (refl, tt))))
trace_text-Short trace_reg_de r =
    labelled-Short "DE=$" 4 (r.d * 256 + r.e) (omega arith) (refl, (refl, (refl, (refl, tt))))
trace_text-Short trace_reg_hl r =
    labelled-Short "HL=$" 4 (r.h * 256 + r.l) (omega arith) (refl, (refl, (refl, (refl, tt))))
trace_text-Short trace_reg_af r =
    labelled-Short "AF=$" 4 (r.a * 256 + r.f) (omega arith) (refl, (refl, (refl, (refl, tt))))
trace_text-Short trace_reg_sp r =
    labelled-Short "SP=$" 4 r.sp (omega arith) (refl, (refl, (refl, (refl, tt))))

module _ (s : Ctx) (addr : ℕ) (curr : Option DisasmEntry) (t : List ℕ) (room : length t ≤ 200) where
  -- A number is shown behind its name.
  show-label :
      (label fmt : String) (width v : ℕ)
      → vsprintf fmt (num v ∷ []) ≡ ok (labelled label width v)
      → length (codes label) ≤ 4
      → append_format fmt (num v ∷ []) (shown s addr curr t)
        ≡ ok (tt, shown s addr curr (t ++ labelled label width v))
  show-label label fmt width v e short =
      append_format-line s addr curr t (labelled label width v) fmt (num v ∷ []) e
        (omega (arith, labelled-le label width v short))

module _ (s : Ctx) (addr : ℕ) (curr : Option DisasmEntry) (t : List ℕ) (room : length t ≤ 150) where
  -- A trace is appended, or its fault.
  pub append_trace-lem :
      (type : DisasmTrace)
      → append_trace type (shown s addr curr t)
        ≡ with_text (trace_text type s.reg) (λ u. shown s addr curr (t ++ u))
  unfolding append_trace trace_text vsprintf rd8 rd16 rd_f rd_af get8 get16
  append_trace-lem trace_none = refl
  append_trace-lem trace_mem_hl = refl
  append_trace-lem trace_reg_b =
      show-label s addr curr t (omega arith) "B=$" "B=$%02X" 2 s.reg.b refl (omega arith)
  append_trace-lem trace_reg_c =
      show-label s addr curr t (omega arith) "C=$" "C=$%02X" 2 s.reg.c refl (omega arith)
  append_trace-lem trace_reg_d =
      show-label s addr curr t (omega arith) "D=$" "D=$%02X" 2 s.reg.d refl (omega arith)
  append_trace-lem trace_reg_e =
      show-label s addr curr t (omega arith) "E=$" "E=$%02X" 2 s.reg.e refl (omega arith)
  append_trace-lem trace_reg_h =
      show-label s addr curr t (omega arith) "H=$" "H=$%02X" 2 s.reg.h refl (omega arith)
  append_trace-lem trace_reg_l =
      show-label s addr curr t (omega arith) "L=$" "L=$%02X" 2 s.reg.l refl (omega arith)
  append_trace-lem trace_reg_a =
      show-label s addr curr t (omega arith) "A=$" "A=$%02X" 2 s.reg.a refl (omega arith)
  append_trace-lem trace_reg_bc =
      show-label s addr curr t (omega arith) "BC=$" "BC=$%04X" 4 (s.reg.b * 256 + s.reg.c) refl
        (omega arith)
  append_trace-lem trace_reg_de =
      show-label s addr curr t (omega arith) "DE=$" "DE=$%04X" 4 (s.reg.d * 256 + s.reg.e) refl
        (omega arith)
  append_trace-lem trace_reg_hl =
      show-label s addr curr t (omega arith) "HL=$" "HL=$%04X" 4 (s.reg.h * 256 + s.reg.l) refl
        (omega arith)
  append_trace-lem trace_reg_af =
      show-label s addr curr t (omega arith) "AF=$" "AF=$%04X" 4 (s.reg.a * 256 + s.reg.f) refl
        (omega arith)
  append_trace-lem trace_reg_sp =
      show-label s addr curr t (omega arith) "SP=$" "SP=$%04X" 4 s.reg.sp refl (omega arith)
  append_trace-lem trace_reg_f =
      rw (show-label s addr curr t (omega arith) "F=$" "F=$%02X" 2 s.reg.f refl (omega arith)) (
        append_expanded_flag-lem s addr curr (t ++ labelled "F=$" 2 s.reg.f) (
          omega (
            arith,
            length-append t (labelled "F=$" 2 s.reg.f),
            labelled-le "F=$" 2 s.reg.f (omega arith),
          ))
        ∙ ap (λ u. ok (tt, shown s addr curr u))
            (sym (append_assoc t (labelled "F=$" 2 s.reg.f) (flags_part s.reg.f))))
