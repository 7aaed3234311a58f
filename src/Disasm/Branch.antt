-- ===== src/Disasm/Branch.antt =====
-- The branches that core/src/disasm.c shows, and where core/src/cpu.c goes.
use agoge.Prelude.{
  ℕ, ◌+◌, ◌<◌, ◌≡◌, sym, subst, ap, ◌∙◌, none, Bool, true, ◌&&◌, ltb, leb, if◌then◌else◌, u16, u32,
  s8, List, [], ◌++◌, arith,
}
use agoge.Ctx.{Ctx}
use agoge.Step.{Result, ok}
use agoge.Log.Fits.{with_log}
use agoge.Printf.{codes, hex_text, vsprintf}
use agoge.Bus.Memory.{memory-lt}
use agoge.Cpu.Flow.{jr_if}
use agoge.Cpu.Jump.{fetched, displaced, fetched-IsReady, jr_if-jp_if}
use agoge.Cpu.Stack.{with_pc}
use agoge.Valid.{IsReady}
use agoge.Disasm.Tables.{disasm_op_tbl}
use agoge.Disasm.Instr.{byte_at, with_text}
use agoge.Disasm.Single.{text_at, instr_log, single_lem}
use agoge.Disasm.Line.{shown, append_nil}
use agoge.Disasm.{disasm_single}

-- JR, and JR under each of its four conditions.
pub data Branch : Type 0 where
  always if_nz if_z if_nc if_c : Branch

abbrev pub branch_code : Branch → ℕ
branch_code always = 0x18
branch_code if_nz = 0x20
branch_code if_z = 0x28
branch_code if_nc = 0x30
branch_code if_c = 0x38

abbrev pub branch_name : Branch → List ℕ
branch_name always = codes "JR $"
branch_name if_nz = codes "JR NZ, $"
branch_name if_z = codes "JR Z, $"
branch_name if_nc = codes "JR NC, $"
branch_name if_c = codes "JR C, $"

-- A branch at `addr` by the byte `v` stays between the ends of the address space.
abbrev pub stays_inside : ℕ → ℕ → Bool
stays_inside addr v =
    if ltb v 128
    then ltb (addr + 2 + v) 65536
    else leb 256 (addr + 2 + v) && ltb (addr + 2 + v) 65792

-- The format has nothing behind its conversion.
without_end :
    (x : Branch) (t : List ℕ)
    → ◌≡◌ {A = Result (List ℕ)} (ok (branch_name x ++ (t ++ []))) (ok (branch_name x ++ t))
without_end x t = ap (λ u. ok (branch_name x ++ u)) (sym (append_nil t))

branch_text :
    (byte : ℕ → ℕ) (addr : ℕ) (x : Branch)
    → byte addr ≡ branch_code x
    → text_at byte addr ≡ ok (branch_name x ++ hex_text 4 (u32 (s8 (byte (addr + 1)) + addr + 2)))
unfolding disasm_op_tbl vsprintf
branch_text byte addr always e = rw e (without_end always _)
branch_text byte addr if_nz e = rw e (without_end if_nz _)
branch_text byte addr if_z e = rw e (without_end if_z _)
branch_text byte addr if_nc e = rw e (without_end if_nc _)
branch_text byte addr if_c e = rw e (without_end if_c _)

shown_target :
    (addr v : ℕ)
    → addr < 65536
    → v < 256
    → stays_inside addr v ≡ true
    → u32 (s8 v + addr + 2) ≡ displaced (u16 (u16 (addr + 1) + 1)) v
shown_target addr v lt byte inside = ground arith

-- In a valid context, where the program counter stands at a relative jump whose target is not beyond
-- either end of the address space: disassembling the instruction there returns. The result is the name
-- of the jump and the address that the processor goes to when the condition is met, in four hexadecimal
-- digits; nothing else changes but the log, and that only as the reads of the instruction's bytes change
-- it.
pub jr_if-disasm_single :
    {room : ℕ} {s : Ctx} (h : IsReady room s) (x : Branch)
    → byte_at h s.reg.pc ≡ branch_code x
    → stays_inside s.reg.pc (byte_at h (s.reg.pc + 1)) ≡ true
    → (target : ℕ) × (jr_if true (fetched s) ≡ ok (tt, with_pc (fetched (fetched s)) target))
      × (disasm_single s.reg.pc s
          ≡ ok (
            tt,
            shown
                (with_log s (instr_log (byte_at h) s.reg.pc s.log))
                s.reg.pc
                none
                (branch_name x ++ hex_text 4 target),
          ))
unfolding fetched-IsReady
jr_if-disasm_single {s = s} h x e inside =
    let v = byte_at h (s.reg.pc + 1) in
    let at : ℕ → List ℕ → Ctx =
      λ a t. shown (with_log s (instr_log (byte_at h) a s.log)) a none t in
    let (jump, _) = jr_if-jp_if (fetched-IsReady h) true in
    let same : u16 s.reg.pc ≡ s.reg.pc = omega arith in
    let single : disasm_single s.reg.pc s ≡ with_text (text_at (byte_at h) s.reg.pc) (at s.reg.pc) =
      subst (λ (a : ℕ). disasm_single s.reg.pc s ≡ with_text (text_at (byte_at h) a) (at a)) same
        (single_lem h s.reg.pc) in
    let target = displaced (u16 (u16 (s.reg.pc + 1) + 1)) v in
    let text : text_at (byte_at h) s.reg.pc ≡ ok (branch_name x ++ hex_text 4 target) =
      branch_text (byte_at h) s.reg.pc x e
      ∙ ap (λ (n : ℕ). ok (branch_name x ++ hex_text 4 n))
          (shown_target s.reg.pc v (omega arith) (memory-lt h (u16 (s.reg.pc + 1))) inside) in
    (target, jump, single ∙ ap (λ r. with_text r (at s.reg.pc)) text)
