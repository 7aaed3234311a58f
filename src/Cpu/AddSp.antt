-- ===== src/Cpu/AddSp.antt =====
-- `alu_add_sp` of core/src/cpu.c, in a valid context.
use agoge.Prelude.{
  ℕ, ◌+◌, ◌%◌, ◌<◌, ◌≡◌, ap, false, leb, nonzero, bit_and, bit_xor, arith, u16, u32, s8,
}
use agoge.Prelude.Bits.{bit_at-xor, bit_and-two_pow}
use agoge.Ctx.{Ctx}
use agoge.Step.{ok}
use agoge.Bus.Memory.{memory-lt}
use agoge.Cpu.Flags.{Flags, flags_of, upd, flag_upd_lem, flag_laws}
use agoge.Cpu.Arith.{alu_add_sp}
use agoge.Cpu.Jump.{fetched, displaced, read_u8_lem}
use agoge.Valid.{IsReady}
use agoge.RunsReg.{flags_closed_lem}
use agoge.RunsFetch.{next_byte}

-- The flags after an addition of the signed byte `v` to SP, from the low bytes of both.
abbrev pub add_sp_flags : ℕ → ℕ → Flags
add_sp_flags sp v = record {
  zero = false;
  subtract = false;
  half_carry = leb 16 (sp % 16 + v % 16);
  carry = leb 256 (sp % 256 + v);
}

half_carry_sp :
    (sp v : ℕ)
    → sp < 65536
    → v < 256
    → nonzero (bit_and (bit_xor (bit_xor sp (s8 v)) (u32 (sp + s8 v))) 0x10)
      ≡ leb 16 (sp % 16 + v % 16)
half_carry_sp sp v hs hv = ground (
  arith,
  bit_and-two_pow 4 (bit_xor (bit_xor sp (s8 v)) (u32 (sp + s8 v))),
  bit_at-xor 4 (bit_xor sp (s8 v)) (u32 (sp + s8 v)),
  bit_at-xor 4 sp (s8 v),
)

carry_sp :
    (sp v : ℕ)
    → sp < 65536
    → v < 256
    → nonzero (bit_and (bit_xor (bit_xor sp (s8 v)) (u32 (sp + s8 v))) 0x100)
      ≡ leb 256 (sp % 256 + v)
carry_sp sp v hs hv = ground (
  arith,
  bit_and-two_pow 8 (bit_xor (bit_xor sp (s8 v)) (u32 (sp + s8 v))),
  bit_at-xor 8 (bit_xor sp (s8 v)) (u32 (sp + s8 v)),
  bit_at-xor 8 sp (s8 v),
)

sum_sp : (sp v : ℕ) → sp < 65536 → v < 256 → u16 (u32 (sp + s8 v)) ≡ displaced sp v
sum_sp sp v hs hv = ground arith

abbrev with_f : Ctx → ℕ → Ctx
with_f s f = record s { reg = record s.reg { f = f } }

module _ {room : ℕ} {s : Ctx} (h : IsReady room s) where
  cleared-IsReady : IsReady room (with_f s (bit_and s.reg.f 0x3F))
  cleared-IsReady = record {
    bus_ok = h.bus_ok;
    reg_ok = ground (arith, flags_closed_lem s.reg.f 0xC0);
  }

  -- In a valid context `alu_add_sp` fetches a byte and returns SP with that signed byte added, modulo
  -- 65536. Z and N are cleared, H and C are the carries out of bit 3 and bit 7 of the unsigned sum of the
  -- low byte of SP and that byte; SP stays, and but for the fetch nothing else changes.
  pub alu_add_sp_lem :
      (f' : ℕ) × (alu_add_sp s ≡ ok (displaced s.reg.sp (next_byte h), with_f (fetched s) f'))
      × (flags_of f' ≡ add_sp_flags s.reg.sp (next_byte h))
  unfolding alu_add_sp upd cleared-IsReady
  alu_add_sp_lem =
      let v : ℕ = next_byte h in
      let sp : ℕ = s.reg.sp in
      let hv : v < 256 = memory-lt h s.reg.pc in
      let hs : sp < 65536 = h.reg_ok.sp_lt in
      let half = nonzero (bit_and (bit_xor (bit_xor sp (s8 v)) (u32 (sp + s8 v))) 0x10) in
      let over = nonzero (bit_and (bit_xor (bit_xor sp (s8 v)) (u32 (sp + s8 v))) 0x100) in
      let f' = upd (upd (upd s.reg.f 0xC0 false) 0x20 half) 0x10 over in
      (
        f',
        rw (read_u8_lem cleared-IsReady)
            (simp flag_upd_lem (ap (λ (t : ℕ). ok (t, with_f (fetched s) f')) (sum_sp sp v hs hv))),
        simp flag_laws (λ i. record {
          zero = false;
          subtract = false;
          half_carry = half_carry_sp sp v hs hv i;
          carry = carry_sp sp v hs hv i;
        }),
      )
