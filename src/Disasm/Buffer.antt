-- ===== src/Disasm/Buffer.antt =====
-- The writes of core/src/disasm.c to `res.str`: its macros `APPEND_STR` and `FORMAT`, and `memset`.
use Prim.Native.String.{String}
use agoge.Prelude.{ℕ, zero, suc, ◌+◌, u64, List, [], ◌∷◌, ◌++◌, length}
use agoge.Ctx.{Disasm, DisasmRes, disasm_res_len_max}
use agoge.Step.{M, pure, gets, lift_from, ◌>>=◌, ◌>>◌}
use agoge.Printf.{Arg, codes, vsprintf}
use agoge.Bus.{store}

abbrev pub modify_disasm : (Disasm → Disasm) → M (Unit {0})
modify_disasm g s = pure tt (record s { disasm = g s.disasm })

abbrev pub modify_res : (DisasmRes → DisasmRes) → M (Unit {0})
modify_res g = modify_disasm λ x. record x { res = g x.res }

-- `str[i] = c`.
unfoldable pub put_char : ℕ → ℕ → M (Unit {0})
put_char i c = do
  chars ← gets (λ s. s.disasm.res.chars)
  chars' ← lift_from (store (disasm_res_len_max + 1) chars i c)
  modify_res (λ res. record res { chars = chars' })

unfoldable pub put_chars : ℕ → List ℕ → M (Unit {0})
unfolding put_char
put_chars i [] = pure tt
put_chars i (c ∷ cs) = do put_char i c; put_chars (i + 1) cs

-- `memset(&str[i], ' ', n)`.
unfoldable pub put_spaces : ℕ → ℕ → M (Unit {0})
unfolding put_char
put_spaces i zero = pure tt
put_spaces i (suc n) = do put_char i b' '; put_spaces (i + 1) n

-- `sprintf(&str[i], fmt, ...)`.
unfoldable pub print_at : ℕ → String → List Arg → M ℕ
unfolding vsprintf put_chars
print_at i fmt args = do
  text ← lift_from (vsprintf fmt args)
  put_chars i (text ++ (0 ∷ []))
  pure (length text)

-- `FORMAT`.
unfoldable pub append_format : String → List Arg → M (Unit {0})
unfolding print_at
append_format fmt args = do
  len ← gets (λ s. s.disasm.res.len)
  n ← print_at len fmt args
  modify_res (λ res. record res { len = u64 (len + n) })

-- `APPEND_STR`.
unfoldable pub append_str : String → M (Unit {0})
unfolding put_chars
append_str fmt = do
  len ← gets (λ s. s.disasm.res.len)
  put_chars len (codes fmt)
  modify_res (λ res. record res { len = u64 (len + length (codes fmt)) })
