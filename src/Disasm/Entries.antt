-- ===== src/Disasm/Entries.antt =====
-- The entries of the two tables of core/src/disasm.c by their numbers, and which of their formats fit
-- their operands.
use Prim.Native.String.{String}
use agoge.Prelude.{
  ℕ, zero, suc, ◌<◌, ◌≡◌, refl, sym, Bool, true, false, not, ◌&&◌, ◌||◌, arith, ◌==◌, Option, none,
  some, List, [], ◌∷◌, length, all_below, holds_below, arith,
}
use agoge.Ctx.{DisasmEntry, DisasmOp, op_none, op_u8, op_u16, op_s8, op_branch}
use agoge.Step.{
  Result, ok, fault, null_jump, null_pointer, out_of_bounds, assertion, missing_argument,
  bad_format, unreachable, deref, try_then,
}
use agoge.Printf.{codes, vsprintf}
use agoge.Printf.Prints.{Printed, nums, prints, prints-Printed, both}
use agoge.RunsCpu.Tables.{unhandled}
use agoge.Disasm.Tables.{disasm_op_tbl, disasm_cb_tbl}
use agoge.Disasm.Tables.Entry.{unset}
use agoge.Disasm.{entry_at}

-- The entry at a number below the table's length.
abbrev pub lookup : List DisasmEntry → ℕ → DisasmEntry
lookup [] i = unset
lookup (e ∷ es) zero = e
lookup (e ∷ es) (suc i) = lookup es i

pub entry_at-lookup :
    (tbl : List DisasmEntry) (i : ℕ) → i < length tbl → entry_at tbl i ≡ ok (lookup tbl i)
entry_at-lookup [] i lt = absurd (omega arith)
entry_at-lookup (e ∷ es) zero lt = refl
entry_at-lookup (e ∷ es) (suc i) lt = entry_at-lookup es i (omega arith)

-- How many numbers an operand is.
abbrev pub arity : DisasmOp → ℕ
arity op_none = 0
arity _ = 1

-- The format is there, has a number for each conversion, and prints at most 35 bytes.
abbrev fmt_fits : Option String → ℕ → Bool
fmt_fits (some fmt) k = prints none (codes fmt) k 35
fmt_fits none k = false

abbrev pub fits : DisasmEntry → Bool
fits entry = fmt_fits entry.fmt (arity entry.op)

abbrev is_one_of : List ℕ → ℕ → Bool
is_one_of [] i = false
is_one_of (x ∷ xs) i = i == x || is_one_of xs i

-- The codes that the processor has no handler for, and the prefix.
abbrev pub no_text : ℕ → Bool
no_text i = unhandled i || i == 0xCB

-- LD (HL), u8; LD A, u8; ADD A, u8; JP C, u16; ADD SP, s8.
abbrev pub no_operand : ℕ → Bool
no_operand = is_one_of (0x36 ∷ 0x3E ∷ 0xC6 ∷ 0xDA ∷ 0xE8 ∷ [])

abbrev pub is_set : Option String → Bool
is_set (some fmt) = true
is_set none = false

abbrev pub same : Bool → Bool → Bool
same true y = y
same false y = not y

-- The format asks for a number, and there is none.
abbrev is_missing : Result (List ℕ) → Bool
is_missing (fault missing_argument) = true
is_missing _ = false

abbrev fmt_lacks : Option String → DisasmOp → Bool
fmt_lacks (some fmt) op_none = is_missing (vsprintf fmt [])
fmt_lacks _ _ = false

abbrev pub lacks : DisasmEntry → Bool
lacks entry = fmt_lacks entry.fmt entry.op

unfoldable op_check : ℕ → Bool
op_check i =
    let entry = lookup disasm_op_tbl i in
    same (is_set entry.fmt) (not (no_text i))
    && same (fits entry) (not (no_text i || no_operand i))
    && same (lacks entry) (no_operand i)

unfoldable cb_check : ℕ → Bool
cb_check i = fits (lookup disasm_cb_tbl i)

ops_checked : all_below 256 op_check ≡ true
unfolding op_check disasm_op_tbl prints vsprintf all_below
ops_checked = refl

cbs_checked : all_below 256 cb_check ≡ true
unfolding cb_check disasm_cb_tbl prints all_below
cbs_checked = refl

pub same-eq : (x y : Bool) → same x y ≡ true → x ≡ y
same-eq true y e = sym e
same-eq false y e = ground arith

module _ (i : ℕ) (lt : i < 256) where
  pub op-entry_at : entry_at disasm_op_tbl i ≡ ok (lookup disasm_op_tbl i)
  unfolding disasm_op_tbl
  op-entry_at = entry_at-lookup disasm_op_tbl i lt

  pub cb-entry_at : entry_at disasm_cb_tbl i ≡ ok (lookup disasm_cb_tbl i)
  unfolding disasm_cb_tbl
  cb-entry_at = entry_at-lookup disasm_cb_tbl i lt

  pub op-check :
      (is_set (lookup disasm_op_tbl i).fmt ≡ not (no_text i))
      × (fits (lookup disasm_op_tbl i) ≡ not (no_text i || no_operand i))
      × (lacks (lookup disasm_op_tbl i) ≡ no_operand i)
  unfolding op_check
  op-check =
      let (e, e₃) = both _ _ (holds_below op_check i 256 lt ops_checked) in
      let (e₁, e₂) = both _ _ e in (same-eq _ _ e₁, same-eq _ _ e₂, same-eq _ _ e₃)

  pub cb-fits : fits (lookup disasm_cb_tbl i) ≡ true
  unfolding cb_check
  cb-fits = holds_below cb_check i 256 lt cbs_checked

abbrev fmt_text : Option String → List ℕ → Result (List ℕ)
fmt_text fmt vs = try_then (deref fmt) λ fmt. vsprintf fmt (nums vs)

fmt-Printed :
    (fmt : Option String) (vs : List ℕ)
    → fmt_fits fmt (length vs) ≡ true
    → Printed 35 (fmt_text fmt vs)
unfolding vsprintf
fmt-Printed (some fmt) vs e = prints-Printed none (codes fmt) vs 35 e
fmt-Printed none vs e = absurd (cc e)

missing-fault : (r : Result (List ℕ)) → is_missing r ≡ true → r ≡ fault missing_argument
missing-fault (ok t) e = absurd (cc e)
missing-fault (fault missing_argument) e = refl
missing-fault (fault null_jump) e = absurd (cc e)
missing-fault (fault null_pointer) e = absurd (cc e)
missing-fault (fault out_of_bounds) e = absurd (cc e)
missing-fault (fault assertion) e = absurd (cc e)
missing-fault (fault bad_format) e = absurd (cc e)
missing-fault (fault unreachable) e = absurd (cc e)

fmt-missing :
    (fmt : Option String) (op : DisasmOp)
    → fmt_lacks fmt op ≡ true
    → (fmt_text fmt [] ≡ fault missing_argument) × (op ≡ op_none)
fmt-missing (some fmt) op_none e = (missing-fault (vsprintf fmt []) e, refl)
fmt-missing (some fmt) op_u8 e = absurd (cc e)
fmt-missing (some fmt) op_u16 e = absurd (cc e)
fmt-missing (some fmt) op_s8 e = absurd (cc e)
fmt-missing (some fmt) op_branch e = absurd (cc e)
fmt-missing none op e = absurd (cc e)

fmt-unset :
    (fmt : Option String) (vs : List ℕ) → is_set fmt ≡ false → fmt_text fmt vs ≡ fault null_pointer
fmt-unset (some fmt) vs e = absurd (cc e)
fmt-unset none vs e = refl

-- What an entry prints of its numbers.
abbrev pub entry_text : DisasmEntry → List ℕ → Result (List ℕ)
entry_text entry vs = fmt_text entry.fmt vs

module _ (entry : DisasmEntry) where
  pub fits-Printed :
      (vs : List ℕ)
      → length vs ≡ arity entry.op
      → fits entry ≡ true
      → Printed 35 (entry_text entry vs)
  fits-Printed vs counted e = fmt-Printed entry.fmt vs (rw counted e)

  pub lacks-fault :
      lacks entry ≡ true → (entry_text entry [] ≡ fault missing_argument) × (entry.op ≡ op_none)
  lacks-fault e = fmt-missing entry.fmt entry.op e

  pub unset-fault :
      (vs : List ℕ) → is_set entry.fmt ≡ false → entry_text entry vs ≡ fault null_pointer
  unset-fault vs e = fmt-unset entry.fmt vs e
