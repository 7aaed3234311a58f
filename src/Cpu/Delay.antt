-- ===== src/Cpu/Delay.antt =====
-- A loop of two instructions on the processor of core/src/cpu.c: DEC B, and JR NZ back to it.
use agoge.Prelude.{
  ℕ, zero, suc, ◌+◌, ◌*◌, ◌%◌, ◌<◌, ◌≡◌, refl, sym, ap, ◌∙◌, subst, Bool, true, false, not, ◌==◌,
  if◌then◌else◌, ◌-◌, Bool-cases, inl, inr, u8, u16, some, get_elem?, arith,
}
use agoge.Ctx.{Ctx, Log}
use agoge.Step.{Result, ok, fault, Fault}
use agoge.Bus.Memory.{memory}
use agoge.Valid.{IsReady, IsReg}
use agoge.Runs.{Runs, Done-cases}
use agoge.RunsFetch.{next_byte}
use agoge.RunsCpu.Helpers.{base_rules, alu_rules}
use agoge.Cpu.Op.{Op, row_0, row_2, dec_b, jr_nz_s8}
use agoge.Cpu.Reg.{rd8, wr8, flag_test}
use agoge.Cpu.Flags.{Flags, flags_of, test_zero}
use agoge.Cpu.Logic.{count_flags, alu_inc-alu_dec}
use agoge.Cpu.Stack.{with_pc}
use agoge.Cpu.Jump.{fetched, fetched-IsReady, displaced, read_u8_lem, jr_if-jp_if}
use agoge.Cpu.Tables.Ops.{op_tbl}
use agoge.Cpu.Handlers.Low.{exec_row_0, exec_row_2}
use agoge.Boot.{dispatch_add}
use agoge.Cpu.Run.{exec_op, goto_op, cpu_step, dispatch}

-- The instruction at the program counter.
pub step_at :
    {room : ℕ} {s : Ctx} (h : IsReady room s) (i : ℕ) (op : Op)
    → next_byte h ≡ i
    → get_elem? op_tbl i ≡ some (some op)
    → cpu_step s ≡ exec_op op (fetched s)
unfolding cpu_step goto_op
step_at h i op e found = rw (read_u8_lem h, e, found) refl

-- The context after DEC B, with the flags `f`.
abbrev counted : Ctx → ℕ → Ctx
counted s f = record (fetched s) {
  reg = record (fetched s).reg { b = (s.reg.b + 255) % 256; f = f };
}

Runs-dec_b : Runs 0 (exec_row_0 dec_b)
unfolding exec_row_0
Runs-dec_b = search (base_rules, alu_rules)

ok-inj :
    (v v' : Unit {0}) (s t : Ctx)
    → ◌≡◌ {A = Result (Unit {0} × Ctx)} (ok (v, s)) (ok (v', t))
    → s ≡ t
ok-inj v v' s t e = cc e

ok_not_fault :
    {x : Fault} (v : Unit {0} × Ctx) → ◌≡◌ {A = Result (Unit {0} × Ctx)} (ok v) (fault x) → ⊥
ok_not_fault v e = absurd (cc e)

module _ {room : ℕ} {s : Ctx} (h : IsReady room s) where
  dec_b_lem :
      next_byte h ≡ 0x05
      → (f : ℕ) × (cpu_step s ≡ ok (tt, counted s f))
        × IsReg (counted s f).reg
        × (flags_of f
            ≡ count_flags (flags_of s.reg.f) true ((s.reg.b + 255) % 256) (s.reg.b % 16 == 0))
  unfolding exec_op exec_row_0 rd8 wr8 op_tbl
  dec_b_lem e =
      let (_, (f, ran, flags)) = alu_inc-alu_dec s.reg.b (fetched s) h.reg_ok.b_lt in
      let byte : u8 ((s.reg.b + 255) % 256) ≡ (s.reg.b + 255) % 256 = omega arith in
      let eq : exec_row_0 dec_b (fetched s) ≡ ok (tt, counted s f) = rw (ran, byte) refl in
      (
        f,
        step_at h 0x05 (row_0 dec_b) e refl ∙ eq,
        elim (Done-cases (
            Runs-dec_b.run room room (fetched s) s.log s.disasm (omega arith)
              (fetched-IsReady h))) [
                | inl (_, s', eq', ready, _) ↦
                    subst (λ t. IsReg t.reg) (ok-inj _ _ _ _ (sym eq' ∙ eq)) ready.reg_ok
                | inr over ↦ absurd (ok_not_fault _ (sym eq ∙ over))
              ],
        flags,
      )

  jr_nz_lem :
      next_byte h ≡ 0x20
      → cpu_step s
        ≡ ok (
          tt,
          with_pc (fetched (fetched s)) (
              if not (flags_of s.reg.f).zero
              then displaced (u16 (u16 (s.reg.pc + 1) + 1)) (next_byte (fetched-IsReady h))
              else u16 (u16 (s.reg.pc + 1) + 1)),
        )
  unfolding exec_op exec_row_2 flag_test op_tbl
  jr_nz_lem e =
      let zero_set = test_zero s.reg.f in
      let (jump, _) = jr_if-jp_if (fetched-IsReady h) (not (flags_of s.reg.f).zero) in
      step_at h 0x20 (row_2 jr_nz_s8) e refl ∙ rw zero_set jump

-- The three bytes of the loop stand at the program counter: DEC B; JR NZ, -3.
abbrev pub IsDelay : {room : ℕ} {s : Ctx} → IsReady room s → Type 0
IsDelay {s = s} h =
    let byte : ℕ → ℕ = memory h.bus_ok.cart_ok.inserted s.bus in
    (byte s.reg.pc ≡ 0x05)
    × (byte (u16 (s.reg.pc + 1)) ≡ 0x20)
    × (byte (u16 (u16 (s.reg.pc + 1) + 1)) ≡ 0xFD)

-- The context after a round: `b` and the flags `f`, at `pc`.
abbrev pub delayed : Ctx → ℕ → ℕ → ℕ → Log → Ctx
delayed s b f pc log = record s { reg = record s.reg { b = b; f = f; pc = pc }; log = log }

two_steps :
    (s t u : Ctx) → cpu_step s ≡ ok (tt, t) → cpu_step t ≡ ok (tt, u) → dispatch 2 s ≡ ok (tt, u)
unfolding dispatch
two_steps s t u e e' = rw (e, e') refl

-- Where JR NZ goes, from the byte behind DEC B.
target_lem :
    (pc b v : ℕ) (z : Bool)
    → pc < 65536
    → v ≡ 0xFD
    → z ≡ (b == 0)
    → (if not z
        then displaced (u16 (u16 (u16 (pc + 1) + 1) + 1)) v
        else u16 (u16 (u16 (pc + 1) + 1) + 1))
      ≡ (if b == 0 then u16 (pc + 3) else pc)
target_lem pc b v z lt e k = ground arith

module _ {room : ℕ} {s : Ctx} (h : IsReady room s) (at : IsDelay h) where
  -- One round of the loop.
  delay_round :
      (f : ℕ) × (log : Log) × (dispatch 2 s
        ≡ ok (
          tt,
          delayed s
              ((s.reg.b + 255) % 256)
              f
              (if (s.reg.b + 255) % 256 == 0 then u16 (s.reg.pc + 3) else s.reg.pc)
              log,
        ))
      × IsReg (counted s f).reg
      × (flags_of f
          ≡ count_flags (flags_of s.reg.f) true ((s.reg.b + 255) % 256) (s.reg.b % 16 == 0))
  unfolding fetched-IsReady
  delay_round =
      let (dec, jr, back) = at in
      let (f, e, regs, flags) = dec_b_lem h dec in
      let ready : IsReady room (counted s f) = record { bus_ok = h.bus_ok; reg_ok = regs } in
      let b : ℕ = (s.reg.b + 255) % 256 in
      let target =
        target_lem s.reg.pc b (next_byte (fetched-IsReady ready)) (flags_of f).zero h.reg_ok.pc_lt
          back (ap (λ fl. fl.zero) flags) in
      (
        f,
        (fetched (fetched (counted s f))).log,
        two_steps s _ _ e (jr_nz_lem ready jr)
            ∙ ap (λ (pc : ℕ). ok (tt, with_pc (fetched (fetched (counted s f))) pc)) target,
        regs,
        flags,
      )

  -- The same, for what is left in B.
  delay_round_left :
      (left : ℕ)
      → (s.reg.b + 255) % 256 ≡ left
      → (f : ℕ) × (log : Log) × (dispatch 2 s
          ≡ ok (tt, delayed s left f (if left == 0 then u16 (s.reg.pc + 3) else s.reg.pc) log))
        × IsReg (counted s f).reg
        × (flags_of f ≡ count_flags (flags_of s.reg.f) true left (s.reg.b % 16 == 0))
  delay_round_left left e = rw (← e) delay_round

then_rounds :
    (n : ℕ) (s t u : Ctx)
    → dispatch 2 s ≡ ok (tt, t)
    → dispatch (2 * n) t ≡ ok (tt, u)
    → dispatch (2 * suc n) s ≡ ok (tt, u)
then_rounds n s t u e e' =
    let more : 2 * suc n ≡ 2 + 2 * n = omega arith in
    ap (λ (k : ℕ). dispatch k s) more ∙ (dispatch_add 2 (2 * n) s ∙ rw e e')

-- `n` rounds of the loop, from a counter that stands at `n`, or at 0 for 256, are the last.
delay_loop :
    (n room : ℕ) (s : Ctx) (h : IsReady room s)
    → IsDelay h
    → n < 256
    → s.reg.b ≡ (n + 1) % 256
    → (f : ℕ) × (log : Log) × (dispatch (2 * suc n) s
        ≡ ok (tt, delayed s 0 f (u16 (s.reg.pc + 3)) log))
      × (flags_of f
          ≡ record (flags_of s.reg.f) { zero = true; subtract = true; half_carry = false })
delay_loop zero room s h at lt e =
    let (f, log, ran, regs, flags) = delay_round_left h at 0 (omega arith) in
    let half : (s.reg.b % 16 == 0) ≡ false = ground arith in
    (f, log, ran, flags ∙ ap (count_flags (flags_of s.reg.f) true 0) half)
delay_loop (suc n) room s h at lt e =
    let (f, log, ran, regs, flags) = delay_round_left h at (suc n) (omega arith) in
    let t : Ctx = delayed s (suc n) f s.reg.pc log in
    let ready : IsReady room t = record { bus_ok = h.bus_ok; reg_ok = omega (arith, regs) } in
    let (f', log', ran', flags') = delay_loop n room t ready at (omega arith) (omega arith) in
    let stay : (if suc n == 0 then u16 (s.reg.pc + 3) else s.reg.pc) ≡ s.reg.pc = ground arith in
    let first = ran ∙ ap (λ (pc : ℕ). ok (tt, delayed s (suc n) f pc log)) stay in
    let last = λ (fl : Flags). record fl { zero = true; subtract = true; half_carry = false } in
    (f', log', then_rounds (suc n) s t _ first ran', flags' ∙ ap last flags)

-- The rounds that a counter stands for.
abbrev pub delay_rounds : ℕ → ℕ
delay_rounds b = if b == 0 then 256 else b

-- In a valid context, where the bytes of DEC B and of JR NZ back to it stand at the program counter, the
-- loop comes to its end: after two instructions for each of as many rounds as B counts, 256 of them from
-- 0, the program counter is at the byte behind the loop, B is 0, Z and N are set, H is cleared and C is
-- kept. But for a log of the fetches nothing else changes.
pub dispatch-delay :
    {room : ℕ} {s : Ctx} (h : IsReady room s)
    → IsDelay h
    → (f : ℕ) × (log : Log) × (dispatch (2 * delay_rounds s.reg.b) s
        ≡ ok (tt, delayed s 0 f (u16 (s.reg.pc + 3)) log))
      × (flags_of f
          ≡ record (flags_of s.reg.f) { zero = true; subtract = true; half_carry = false })
dispatch-delay {room} {s} h at = elim (Bool-cases (s.reg.b == 0)) [
  | inl none_left ↦ rw none_left (delay_loop 255 room s h at (omega arith) (ground arith))
  | inr some_left ↦
      let n : ℕ = s.reg.b - 1 in
      let e : s.reg.b ≡ suc n = ground arith in
      let (f, log, ran, flags) = delay_loop n room s h at (omega arith) (omega arith) in
      (f, log, rw some_left (ap (λ (b : ℕ). dispatch (2 * b) s) e ∙ ran), flags)
]
