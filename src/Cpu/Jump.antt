-- ===== src/Cpu/Jump.antt =====
-- The jumps and calls of core/src/cpu.c, in a valid context.
use agoge.Prelude.{
  ℕ, ◌+◌, ◌-◌, ◌*◌, ◌%◌, ◌<◌, ◌≡◌, refl, ap, ◌∙◌, Bool, true, false, ltb, if◌then◌else◌, u16, s8,
  arith,
}
use agoge.Prelude.Bits.{bit_or_bytes}
use agoge.Ctx.{Ctx}
use agoge.Step.{ok, ◌>>◌}
use agoge.Bus.Ram.{with_bus}
use agoge.Bus.Memory.{memory, read_log, bus_read_lem, memory-lt}
use agoge.Cpu.Reg.{rd16, wr16}
use agoge.Cpu.Alu.{read_u8, read_u16}
use agoge.Cpu.Flow.{jr_if, jp_if, call_if, ret_if, stack_push}
use agoge.Cpu.Stack.{has_room, pushed, popped, with_pc, stack_push_lem}
use agoge.Valid.{IsReady}
use agoge.RunsFetch.{next_byte}

-- The context after the fetch of a byte.
abbrev pub fetched : Ctx → Ctx
fetched s = record s {
  reg = record s.reg { pc = u16 (s.reg.pc + 1) };
  log = read_log s.reg.pc s.log;
}

-- The target of a relative jump by the displacement `v` from `pc`.
abbrev pub displaced : ℕ → ℕ → ℕ
displaced pc v = if ltb v 128 then (pc + v) % 65536 else (pc + 65536 - (256 - v)) % 65536

call_if_taken :
    (addr : ℕ) (s t t' : Ctx)
    → read_u16 s ≡ ok (addr, t)
    → stack_push t.reg.pc t ≡ ok (tt, t')
    → call_if true s ≡ ok (tt, with_pc t' (u16 addr))
unfolding call_if
call_if_taken addr s t t' fetch push = rw (fetch, push) refl

jump_target : (pc v : ℕ) → v < 256 → u16 (pc + s8 v) ≡ displaced pc v
jump_target pc v lt = ground arith

module _ {room : ℕ} {s : Ctx} (h : IsReady room s) where
  unfoldable pub fetched-IsReady : IsReady room (fetched s)
  fetched-IsReady = record { bus_ok = h.bus_ok; reg_ok = omega arith }

  pub read_u8_lem : read_u8 s ≡ ok (next_byte h, fetched s)
  unfolding read_u8 rd16 wr16
  read_u8_lem =
      let e : u16 s.reg.pc ≡ s.reg.pc = omega arith in
      let h' : IsReady room (with_pc s (u16 (s.reg.pc + 1))) = record {
        bus_ok = h.bus_ok;
        reg_ok = fetched-IsReady.reg_ok;
      } in
      rw (bus_read_lem h' s.reg.pc, e) refl

module _ {room : ℕ} {s : Ctx} (h : IsReady room s) where
  -- The operand of a jump or call, and its address.
  abbrev pub next_word : ℕ
  next_word = memory h.bus_ok.cart_ok.inserted s.bus (u16 (s.reg.pc + 1)) * 256 + next_byte h

  read_u16_lem : read_u16 s ≡ ok (next_word, fetched (fetched s))
  unfolding read_u16 fetched-IsReady
  read_u16_lem =
      rw (read_u8_lem h, read_u8_lem (fetched-IsReady h))
        (ap (λ (w : ℕ). ok (w, fetched (fetched s)))
          (bit_or_bytes (memory h.bus_ok.cart_ok.inserted s.bus (u16 (s.reg.pc + 1))) (next_byte h)
            (memory-lt h s.reg.pc)))

  next_word-lt : next_word < 65536
  next_word-lt = omega (arith, memory-lt h s.reg.pc, memory-lt h (u16 (s.reg.pc + 1)))

  jr_if_lem :
      (cond_met : Bool)
      → jr_if cond_met s
        ≡ ok (
          tt,
          with_pc (fetched s) (
              if cond_met
              then displaced (u16 (s.reg.pc + 1)) (next_byte h)
              else u16 (s.reg.pc + 1)),
        )
  unfolding jr_if rd16 wr16
  jr_if_lem true =
      let v : ℕ = next_byte h in
      let target : u16 (u16 (s.reg.pc + 1) + s8 v) ≡ displaced (u16 (s.reg.pc + 1)) v =
        jump_target (u16 (s.reg.pc + 1)) v (memory-lt h s.reg.pc) in
      rw (read_u8_lem h) (ap (λ (pc : ℕ). ok (tt, with_pc (fetched s) pc)) target)
  jr_if_lem false = rw (read_u8_lem h) refl

  jp_if_lem :
      (cond_met : Bool)
      → jp_if cond_met s
        ≡ ok
            (tt, with_pc (fetched (fetched s)) (if cond_met then next_word else u16 (s.reg.pc + 2)))
  unfolding jp_if wr16
  jp_if_lem true =
      let word : u16 next_word ≡ next_word = omega (arith, next_word-lt) in
      rw (read_u16_lem, word) refl
  jp_if_lem false =
      let two : u16 (u16 (s.reg.pc + 1) + 1) ≡ u16 (s.reg.pc + 2) = omega arith in
      rw read_u16_lem (ap (λ (pc : ℕ). ok (tt, with_pc (fetched (fetched s)) pc)) two)

  -- In a valid context a relative jump goes by the signed byte at the program counter from the byte
  -- behind it, and an absolute one to the little-endian word at the program counter, if the condition is
  -- met, and otherwise to the byte behind its operand; modulo 65536. But for a log of the fetches nothing
  -- else changes.
  pub jr_if-jp_if :
      (cond_met : Bool)
      → (jr_if cond_met s
          ≡ ok (
            tt,
            with_pc (fetched s) (
                if cond_met
                then displaced (u16 (s.reg.pc + 1)) (next_byte h)
                else u16 (s.reg.pc + 1)),
          ))
        × (jp_if cond_met s
            ≡ ok (
              tt,
              with_pc (fetched (fetched s)) (if cond_met then next_word else u16 (s.reg.pc + 2)),
            ))
  jr_if-jp_if cond_met = (jr_if_lem cond_met, jp_if_lem cond_met)

  -- In a valid context, where the two bytes below the stack pointer are RAM, a call goes to the word at
  -- the program counter, and a return after it comes back to the byte behind that word, with all
  -- other registers as before; of the memory only those two bytes change.
  pub ret_if-call_if :
      has_room s.reg.sp ≡ true
      → (call_if true s
          ≡ ok (tt, with_pc (pushed (fetched (fetched s)) (u16 (s.reg.pc + 2))) next_word))
        × ((do call_if true; ret_if true) s
            ≡ ok (
              tt,
              with_bus
                  (with_pc (fetched (fetched s)) (u16 (s.reg.pc + 2)))
                  (pushed (fetched (fetched s)) (u16 (s.reg.pc + 2))).bus,
            ))
  unfolding call_if ret_if
  ret_if-call_if room =
      let two : u16 (u16 (s.reg.pc + 1) + 1) ≡ u16 (s.reg.pc + 2) = omega arith in
      let word : u16 next_word ≡ next_word = omega (arith, next_word-lt) in
      let t : Ctx = fetched (fetched s) in
      let pc : ℕ = u16 (s.reg.pc + 2) in
      let low : pc < 65536 = omega arith in
      let sp_lt : s.reg.sp < 65536 = h.reg_ok.sp_lt in
      let called : call_if true s ≡ ok (tt, with_pc (pushed t pc) next_word) =
        call_if_taken next_word s t (pushed t pc) read_u16_lem
          (ap (λ (p : ℕ). stack_push p t) two ∙ stack_push_lem pc t room)
        ∙ ap (λ (a : ℕ). ok (tt, with_pc (pushed t pc) a)) word in
      let same : u16 pc ≡ pc = omega arith in
      (called, rw (called, popped pc next_word t low sp_lt room, same) refl)
