-- ===== src/Disasm/Flags.antt =====
-- `append_expanded_flag` of core/src/disasm.c: the flags behind a trace of F.
use Prim.Native.String.{String}
use agoge.Prelude.{
  ℕ, ◌≤◌, ◌≡◌, refl, Bool, true, false, bit_and, nonzero, ◌==◌, if◌then◌else◌, Option, List, [],
  ◌∷◌, ◌++◌, length, length-append, arith,
}
use agoge.Ctx.{Ctx, DisasmEntry}
use agoge.Step.{ok}
use agoge.Printf.{text, codes, vsprintf}
use agoge.Printf.Prints.{HasNoNul, append-HasNoNul}
use agoge.Cpu.Reg.{cpu_flag_zero, cpu_flag_subtract, cpu_flag_half_carry, cpu_flag_carry, rd_f}
use agoge.Disasm.Line.{shown, append_format-line}
use agoge.Disasm.{flag_is_set, expand_flags, append_expanded_flag}

-- The name of a flag, behind a `!` where it is not set.
abbrev flag_name : Bool → String → List ℕ
flag_name true word = codes word
flag_name false word = b'!' ∷ codes word

abbrev flag_names : Bool → Bool → Bool → Bool → List ℕ
flag_names z n h c =
    flag_name z "Z"
    ++ (b' ' ∷ (flag_name n "N" ++ (b' ' ∷ (flag_name h "H" ++ (b' ' ∷ flag_name c "C")))))

-- The four flags, Z first.
abbrev pub flag_text : ℕ → List ℕ
flag_text f =
    flag_names (nonzero (bit_and f cpu_flag_zero)) (nonzero (bit_and f cpu_flag_subtract))
      (nonzero (bit_and f cpu_flag_half_carry)) (nonzero (bit_and f cpu_flag_carry))

abbrev flag_at : Bool → Bool → Bool → Bool → ℕ → Bool
flag_at z n h c ctr = if ctr == 0 then z else if ctr == 1 then n else if ctr == 2 then h else c

expand_flags-flags :
    (z n h c : Bool) → expand_flags (flag_at z n h c) 4 0 0 (λ _. 0) ≡ ok (flag_names z n h c)
unfolding expand_flags
expand_flags-flags false false false false = refl
expand_flags-flags false false false true = refl
expand_flags-flags false false true false = refl
expand_flags-flags false false true true = refl
expand_flags-flags false true false false = refl
expand_flags-flags false true false true = refl
expand_flags-flags false true true false = refl
expand_flags-flags false true true true = refl
expand_flags-flags true false false false = refl
expand_flags-flags true false false true = refl
expand_flags-flags true false true false = refl
expand_flags-flags true false true true = refl
expand_flags-flags true true false false = refl
expand_flags-flags true true false true = refl
expand_flags-flags true true true false = refl
expand_flags-flags true true true true = refl

expand_flags-lem : (f : ℕ) → expand_flags (flag_is_set f) 4 0 0 (λ _. 0) ≡ ok (flag_text f)
unfolding expand_flags
expand_flags-lem f =
    expand_flags-flags (nonzero (bit_and f cpu_flag_zero)) (nonzero (bit_and f cpu_flag_subtract))
      (nonzero (bit_and f cpu_flag_half_carry)) (nonzero (bit_and f cpu_flag_carry))

-- What is shown of F, with its flags behind it.
abbrev pub flags_part : ℕ → List ℕ
flags_part f = codes " (" ++ (flag_text f ++ codes ")")

flag_name-HasNoNul :
    (x : Bool) (word : String) → HasNoNul (codes word) → HasNoNul (flag_name x word)
flag_name-HasNoNul true word clean = clean
flag_name-HasNoNul false word clean = (refl, clean)

flag_name-le : (x : Bool) (word : String) → length (codes word) ≤ 1 → length (flag_name x word) ≤ 2
flag_name-le true word short = omega arith
flag_name-le false word short = omega arith

module _ (z n h c : Bool) where
  flag_names-HasNoNul : HasNoNul (flag_names z n h c)
  flag_names-HasNoNul = append-HasNoNul (flag_name z "Z") _ (flag_name-HasNoNul z "Z" (refl, tt)) (
    refl,
    append-HasNoNul (flag_name n "N") _ (flag_name-HasNoNul n "N" (refl, tt)) (
      refl,
      append-HasNoNul (flag_name h "H") _ (flag_name-HasNoNul h "H" (refl, tt))
          (refl, flag_name-HasNoNul c "C" (refl, tt)),
    ),
  )

  flag_names-le : length (flag_names z n h c) ≤ 11
  flag_names-le = omega (
    arith,
    length-append (flag_name z "Z")
        (b' ' ∷ (flag_name n "N" ++ (b' ' ∷ (flag_name h "H" ++ (b' ' ∷ flag_name c "C"))))),
    length-append (flag_name n "N") (b' ' ∷ (flag_name h "H" ++ (b' ' ∷ flag_name c "C"))),
    length-append (flag_name h "H") (b' ' ∷ flag_name c "C"),
    flag_name-le z "Z" (omega arith),
    flag_name-le n "N" (omega arith),
    flag_name-le h "H" (omega arith),
    flag_name-le c "C" (omega arith),
  )

pub flags_part-le : (f : ℕ) → length (flags_part f) ≤ 14
flags_part-le f = omega (arith, length-append (flag_text f) (codes ")"), flag_names-le _ _ _ _)

pub flags_part-HasNoNul : (f : ℕ) → HasNoNul (flags_part f)
flags_part-HasNoNul f = (
  refl,
  (refl, append-HasNoNul (flag_text f) (codes ")") (flag_names-HasNoNul _ _ _ _) (refl, tt)),
)

module _ (s : Ctx) (addr : ℕ) (curr : Option DisasmEntry) (t : List ℕ) (room : length t ≤ 200) where
  pub append_expanded_flag-lem :
      append_expanded_flag (shown s addr curr t)
      ≡ ok (tt, shown s addr curr (t ++ flags_part s.reg.f))
  unfolding append_expanded_flag rd_f vsprintf
  append_expanded_flag-lem = rw (expand_flags-lem s.reg.f) (
      append_format-line s addr curr t (flags_part s.reg.f) " (%s)" (text (flag_text s.reg.f) ∷ [])
        refl (omega (arith, flags_part-le s.reg.f)))
