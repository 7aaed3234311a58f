-- ===== src/Disasm/Line.antt =====
-- `res.str` of core/src/disasm.c as a text and zeros behind it, and what the writes at the end of the
-- text do.
use Prim.Native.String.{String}
use agoge.Prelude.{
  ℕ, zero, suc, ◌+◌, ◌≤◌, ◌<◌, ◌≡◌, refl, sym, ap, ◌∙◌, fun_ext, true, ltb, u64, Option, List, [],
  ◌∷◌, ◌++◌, length, length-append, arith,
}
use agoge.Ctx.{Ctx, DisasmEntry}
use agoge.Step.{ok}
use agoge.Printf.{Arg, codes, vsprintf}
use agoge.Printf.Prints.{HasNoNul}
use agoge.Bus.{update, c_string}
use agoge.Disasm.Buffer.{put_char, put_chars, put_spaces, print_at, append_format, append_str}

abbrev pub line : List ℕ → ℕ → ℕ
line [] i = 0
line (c ∷ cs) zero = c
line (c ∷ cs) (suc i) = line cs i

update-line_at : (t : List ℕ) (c i : ℕ) → update (line t) (length t) c i ≡ line (t ++ (c ∷ [])) i
update-line_at [] c zero = refl
update-line_at [] c (suc i) = ground arith
update-line_at (x ∷ t) c zero = ground arith
update-line_at (x ∷ t) c (suc i) = ground (arith, sym (update-line_at t c i))

update-line : (t : List ℕ) (c : ℕ) → update (line t) (length t) c ≡ line (t ++ (c ∷ []))
update-line t c = fun_ext (update-line_at t c)

line-nul_at : (t : List ℕ) (i : ℕ) → line (t ++ (0 ∷ [])) i ≡ line t i
line-nul_at [] zero = refl
line-nul_at [] (suc i) = refl
line-nul_at (x ∷ t) zero = refl
line-nul_at (x ∷ t) (suc i) = line-nul_at t i

pub append_assoc : (t u v : List ℕ) → t ++ (u ++ v) ≡ (t ++ u) ++ v
append_assoc [] u v = refl
append_assoc (x ∷ t) u v = ap (λ xs. x ∷ xs) (append_assoc t u v)

pub append_nil : (t : List ℕ) → t ≡ t ++ []
append_nil [] = refl
append_nil (x ∷ t) = ap (λ xs. x ∷ xs) (append_nil t)

abbrev pub spaces : ℕ → List ℕ
spaces zero = []
spaces (suc n) = b' ' ∷ spaces n

pub length-spaces : (n : ℕ) → length (spaces n) ≡ n
length-spaces zero = refl
length-spaces (suc n) = omega (arith, length-spaces n)

-- The text of a result, with a length and a pending entry that are given apart.
abbrev pub held : Ctx → ℕ → Option DisasmEntry → ℕ → List ℕ → Ctx
held s addr curr len t = record s {
  disasm = record {
    res = record { chars = line t; len = len; addr = addr };
    curr_trace_entry = curr;
  };
}

-- The context with a text as its result.
abbrev pub shown : Ctx → ℕ → Option DisasmEntry → List ℕ → Ctx
shown s addr curr t = held s addr curr (length t) t

module _ (s : Ctx) (addr : ℕ) (curr : Option DisasmEntry) where
  put_char-line :
      (len : ℕ) (t : List ℕ) (c : ℕ)
      → length t ≤ 256
      → put_char (length t) c (held s addr curr len t)
        ≡ ok (tt, held s addr curr len (t ++ (c ∷ [])))
  unfolding put_char
  put_char-line len t c room =
      let fits : ltb (length t) 257 ≡ true = ground arith in rw (fits, update-line t c) refl

  put_chars-line :
      (len : ℕ) (t u : List ℕ)
      → length t + length u ≤ 257
      → put_chars (length t) u (held s addr curr len t) ≡ ok (tt, held s addr curr len (t ++ u))
  unfolding put_chars
  put_chars-line len t [] room = ap (λ x. ok (tt, held s addr curr len x)) (append_nil t)
  put_chars-line len t (c ∷ u) room =
      let next : length t + 1 ≡ length (t ++ (c ∷ [])) = omega (arith, length-append t (c ∷ [])) in
      rw (put_char-line len t c (omega arith), next)
        (put_chars-line len (t ++ (c ∷ [])) u (omega arith)
          ∙ ap (λ x. ok (tt, held s addr curr len x)) (sym (append_assoc t (c ∷ []) u)))

  pub print_at-line :
      (len : ℕ) (t u : List ℕ) (fmt : String) (args : List Arg)
      → vsprintf fmt args ≡ ok u
      → length t + length u ≤ 256
      → print_at (length t) fmt args (held s addr curr len t)
        ≡ ok (length u, held s addr curr len (t ++ u))
  unfolding print_at
  print_at-line len t u fmt args printed room =
      let tail : line ((t ++ u) ++ (0 ∷ [])) ≡ line (t ++ u) = fun_ext (line-nul_at (t ++ u)) in
      rw
        (
          printed,
          put_chars-line len t (u ++ (0 ∷ [])) (omega (arith, length-append u (0 ∷ []))),
          append_assoc t u (0 ∷ []),
          tail,
        )
        refl

  pub append_format-line :
      (t u : List ℕ) (fmt : String) (args : List Arg)
      → vsprintf fmt args ≡ ok u
      → length t + length u ≤ 256
      → append_format fmt args (shown s addr curr t) ≡ ok (tt, shown s addr curr (t ++ u))
  unfolding append_format
  append_format-line t u fmt args printed room =
      let sum : u64 (length t + length u) ≡ length (t ++ u) = omega (arith, length-append t u) in
      rw (print_at-line (length t) t u fmt args printed room, sum) refl

  pub append_str-line :
      (t : List ℕ) (fmt : String)
      → length t + length (codes fmt) ≤ 257
      → append_str fmt (shown s addr curr t) ≡ ok (tt, shown s addr curr (t ++ codes fmt))
  unfolding append_str
  append_str-line t fmt room =
      let sum : u64 (length t + length (codes fmt)) ≡ length (t ++ codes fmt) =
        omega (arith, length-append t (codes fmt)) in
      rw (put_chars-line (length t) t (codes fmt) room, sum) refl

  pub put_spaces-line :
      (len n : ℕ) (t : List ℕ)
      → length t + n ≤ 257
      → put_spaces (length t) n (held s addr curr len t)
        ≡ ok (tt, held s addr curr len (t ++ spaces n))
  unfolding put_spaces
  put_spaces-line len zero t room = ap (λ x. ok (tt, held s addr curr len x)) (append_nil t)
  put_spaces-line len (suc n) t room =
      let next : length t + 1 ≡ length (t ++ (b' ' ∷ [])) =
        omega (arith, length-append t (b' ' ∷ [])) in
      rw (put_char-line len t b' ' (omega arith), next)
        (put_spaces-line len n (t ++ (b' ' ∷ [])) (omega (arith, length-append t (b' ' ∷ [])))
          ∙ ap (λ x. ok (tt, held s addr curr len x)) (sym (append_assoc t (b' ' ∷ []) (spaces n))))

-- The bytes that `%s` prints of a text and the zeros behind it.
pub c_string-line :
    (t : List ℕ) (n i : ℕ) (array : ℕ → ℕ)
    → HasNoNul t
    → length t < n
    → ((j : ℕ) → array (i + j) ≡ line t j)
    → c_string n array i ≡ ok t
unfolding c_string
c_string-line t zero i array _ lt at = absurd (omega arith)
c_string-line [] (suc n) i array _ lt at =
    let here : array i ≡ 0 = ap array (omega arith) ∙ at 0 in rw here refl
c_string-line (c ∷ t) (suc n) i array (nz, rest) lt at =
    let here : array i ≡ c = ap array (omega arith) ∙ at 0 in
    let tail : c_string n array (i + 1) ≡ ok t =
      c_string-line t n (i + 1) array rest (omega arith)
        (λ j. ap array (omega arith) ∙ at (suc j)) in
    rw (here, nz, tail) (ap (λ (x : ℕ). ok (x ∷ t)) here)
