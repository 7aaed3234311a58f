-- ===== src/Cpu/Stack.antt =====
-- The stack of core/src/cpu.c, where it lies in RAM.
use agoge.Prelude.{
  ℕ, ◌+◌, ◌*◌, ◌<◌, ◌≡◌, refl, ◌∙◌, Bool, true, false, ◌==◌, ◌&&◌, u8, u16, ◌>>>◌, bit_and, bit_or,
  arith,
}
use agoge.Prelude.Bits.{bit_and-byte, bit_or_bytes}
use agoge.Ctx.{Ctx}
use agoge.Step.{ok, ◌>>◌}
use agoge.Bus.Ram.{
  in_ram, ram_read, ram_write, with_bus, bus_read_ram, bus_write_ram, ram_read-write,
}
use agoge.Cpu.Flow.{push_u8, pop_u8, stack_push, stack_pop, ret_if, rst}

-- The two bytes below the stack pointer are RAM.
abbrev pub has_room : ℕ → Bool
has_room sp = in_ram (u16 (sp + 65535)) && in_ram (u16 (sp + 65534))

abbrev with_sp : Ctx → ℕ → Ctx
with_sp s sp = record s { reg = record s.reg { sp = sp } }

push_u8_lem :
    (v : ℕ) (s : Ctx)
    → in_ram (u16 (s.reg.sp + 65535)) ≡ true
    → push_u8 v s
      ≡ ok (
        tt,
        with_bus
            (with_sp s (u16 (s.reg.sp + 65535)))
            (ram_write s.bus (u16 (s.reg.sp + 65535)) (u8 v)),
      )
unfolding push_u8
push_u8_lem v s h = bus_write_ram (u16 (s.reg.sp + 65535)) (with_sp s (u16 (s.reg.sp + 65535))) h v

pop_u8_lem :
    (s : Ctx)
    → in_ram s.reg.sp ≡ true
    → pop_u8 s ≡ ok (ram_read s.bus s.reg.sp, with_sp s (u16 (s.reg.sp + 1)))
unfolding pop_u8
pop_u8_lem s h = bus_read_ram s.reg.sp (with_sp s (u16 (s.reg.sp + 1))) h

-- The memory and the stack pointer after a push.
abbrev pub pushed : Ctx → ℕ → Ctx
pushed s val = with_bus (with_sp s (u16 (s.reg.sp + 65534))) (
    ram_write (ram_write s.bus (u16 (s.reg.sp + 65535)) (u8 (val >>> 8))) (u16 (s.reg.sp + 65534))
      (u8 val))

pub stack_push_lem :
    (val : ℕ) (s : Ctx) → has_room s.reg.sp ≡ true → stack_push val s ≡ ok (tt, pushed s val)
unfolding stack_push
stack_push_lem val s h =
    let step : u16 (u16 (s.reg.sp + 65535) + 65535) ≡ u16 (s.reg.sp + 65534) = omega arith in
    let low : u8 (bit_and val 0xFF) ≡ u8 val = omega (arith, bit_and-byte val) in
    let s' =
      with_bus (with_sp s (u16 (s.reg.sp + 65535)))
        (ram_write s.bus (u16 (s.reg.sp + 65535)) (u8 (val >>> 8))) in
    let room : in_ram (u16 (u16 (s.reg.sp + 65535) + 65535)) ≡ true = rw step (ground arith) in
    rw (push_u8_lem (val >>> 8) s (ground arith), push_u8_lem (bit_and val 0xFF) s' room, step, low)
      refl

module _ (val : ℕ) (s : Ctx) (h : has_room s.reg.sp ≡ true) where
  abbrev lo : ℕ
  lo = u16 (s.reg.sp + 65534)

  abbrev hi : ℕ
  hi = u16 (s.reg.sp + 65535)

  pushed_low : ram_read (pushed s val).bus lo ≡ u8 val
  pushed_low = ground (arith, ram_read-write (ram_write s.bus hi (u8 (val >>> 8))) lo lo (u8 val))

  pushed_high : ram_read (pushed s val).bus hi ≡ u8 (val >>> 8)
  pushed_high =
      let apart : (hi == lo) ≡ false = ground arith in
      ram_read-write (ram_write s.bus hi (u8 (val >>> 8))) lo hi (u8 val) (ground arith)
        (ground arith)
      ∙ rw apart (ground (arith, ram_read-write s.bus hi hi (u8 (val >>> 8))))

abbrev pub with_pc : Ctx → ℕ → Ctx
with_pc s pc = record s { reg = record s.reg { pc = pc } }

-- A pop behind a push, also where a jump stands between.
pub popped :
    (val p : ℕ) (s : Ctx)
    → val < 65536
    → s.reg.sp < 65536
    → has_room s.reg.sp ≡ true
    → stack_pop (with_pc (pushed s val) p) ≡ ok (val, with_pc (with_bus s (pushed s val).bus) p)
unfolding stack_pop
popped val p s hv hs h =
    let up : u16 (u16 (s.reg.sp + 65534) + 1) ≡ u16 (s.reg.sp + 65535) = omega arith in
    let back : u16 (u16 (s.reg.sp + 65535) + 1) ≡ s.reg.sp = omega arith in
    let s₁ = with_pc (pushed s val) p in
    let s₂ = with_sp s₁ (u16 (s.reg.sp + 65535)) in
    let word : bit_or (u8 (val >>> 8) * 256) (u8 val) ≡ val =
      bit_or_bytes (u8 (val >>> 8)) (u8 val) (omega arith) ∙ omega arith in
    rw
      (
        pop_u8_lem s₁ (ground arith),
        up,
        pop_u8_lem s₂ (ground arith),
        back,
        pushed_low val s h,
        pushed_high val s h,
        word,
      )
      refl

module _ (val : ℕ) (s : Ctx) (hv : val < 65536) (hs : s.reg.sp < 65536)
    (h : has_room s.reg.sp ≡ true) where
  -- For a 16-bit value and stack pointer, where the two bytes below the stack pointer are RAM, a pop
  -- after a push gives the value back and leaves every register as it was before the push; of the memory
  -- only those two bytes change.
  pub stack_pop-stack_push :
      (do stack_push val; stack_pop) s ≡ ok (val, with_bus s (pushed s val).bus)
  stack_pop-stack_push = rw (stack_push_lem val s h) (popped val s.reg.pc s hv hs h)

module _ (vec : ℕ) (s : Ctx) (hp : s.reg.pc < 65536) (hs : s.reg.sp < 65536)
    (h : has_room s.reg.sp ≡ true) where
  -- For 16-bit registers, where the two bytes below the stack pointer are RAM, a restart goes to its
  -- vector, and a return after it leaves every register as it was before the restart; of the memory only
  -- those two bytes change.
  pub ret_if-rst :
      (rst vec s ≡ ok (tt, with_pc (pushed s s.reg.pc) (u16 vec)))
      × ((do rst vec; ret_if true) s ≡ ok (tt, with_bus s (pushed s s.reg.pc).bus))
  unfolding rst ret_if
  ret_if-rst =
      let same : u16 s.reg.pc ≡ s.reg.pc = omega arith in
      (
        rw (stack_push_lem s.reg.pc s h) refl,
        rw (stack_push_lem s.reg.pc s h, popped s.reg.pc (u16 vec) s hp hs h, same) refl,
      )
