-- ===== src/Examples/Handlers.antt =====
-- The theorems on single handlers and on branches at concrete inputs.
use agoge.Prelude.{none, ℕ, ◌<◌, ◌≡◌, refl, ◌==◌, if◌then◌else◌, true, false, ◌++◌, arith}
use agoge.Prelude.Bits.{bit_at}
use agoge.Ctx.{Ctx, Log}
use agoge.Cpu.Run.{dispatch, cpu_step}
use agoge.Cpu.Flags.{flags_of}
use agoge.Cpu.Delay.{delayed, dispatch-delay}
use agoge.Step.{ok, fault, out_of_bounds, and_then, ◌>>◌}
use agoge.Printf.{hex_text}
use agoge.Bus.Ram.{in_ram, ram_write}
use agoge.Cpu.Reg.{reg_c, reg_b, reg_hl, get8, get16, set8}
use agoge.Cpu.Op.{reg, mem_hl, swap}
use agoge.Cpu.Flow.{jr_if}
use agoge.Cpu.Jump.{fetched}
use agoge.Cpu.Stack.{with_pc}
use agoge.Cpu.Handlers.Block.{exec_bit, exec_res, exec_set, exec_ld}
use agoge.Cpu.SetRes.{Tests, exec_res-exec_set, exec_bit-exec_res-exec_set}
use agoge.Cpu.MemHl.{Shifts, exec_ld-exec_ld, exec_shift-alu_shift}
use agoge.Disasm.Instr.{byte_at}
use agoge.Disasm.Single.{instr_log}
use agoge.Disasm.Line.{shown}
use agoge.Disasm.{disasm_single}
use agoge.Log.Fits.{with_log}
use agoge.Disasm.Branch.{always, branch_name, jr_if-disasm_single}
use agoge.Valid.{IsReady}
use agoge.Bus.Line.{with_serial}
use agoge.Examples.{log, ctx, ctx-IsReady}

exec_res-exec_set_example :
    ((w : ℕ) × (exec_res 1 (reg reg_c) (ctx 0)
        ≡ ok (tt, record (ctx 0) { reg = set8 reg_c w (ctx 0).reg }))
      × (w < 256)
      × ((m : ℕ) → m < 8 → bit_at m w ≡ (if m == 1 then 0 else bit_at m 2)))
    × ((w : ℕ) × (exec_set 1 (reg reg_c) (ctx 0)
          ≡ ok (tt, record (ctx 0) { reg = set8 reg_c w (ctx 0).reg }))
        × (w < 256)
        × ((m : ℕ) → m < 8 → bit_at m w ≡ (if m == 1 then 1 else bit_at m 2)))
unfolding get8
exec_res-exec_set_example = exec_res-exec_set 1 reg_c (ctx 0) (omega arith) (omega arith)

exec_bit-exec_res-exec_set_example :
    Tests (do exec_res 1 (reg reg_c); exec_bit 1 (reg reg_c)) reg_c (ctx 0) true
    × Tests (do exec_set 1 (reg reg_c); exec_bit 1 (reg reg_c)) reg_c (ctx 0) false
unfolding get8
exec_bit-exec_res-exec_set_example =
    exec_bit-exec_res-exec_set 1 reg_c (ctx 0) (omega arith) (omega arith)

-- HL points to the working RAM.
abbrev to_ram : Ctx
to_ram = record (ctx 0) { reg = record (ctx 0).reg { h = 0xC0 } }

to_ram-in_ram : in_ram (get16 reg_hl to_ram.reg) ≡ true
unfolding get16
to_ram-in_ram = refl

exec_ld-exec_ld_example :
    (do exec_ld mem_hl (reg reg_c); exec_ld (reg reg_b) mem_hl) to_ram
    ≡ ok (tt, record to_ram { bus = ram_write to_ram.bus 0xC006 2; reg = set8 reg_b 2 to_ram.reg })
unfolding get8 get16
exec_ld-exec_ld_example = exec_ld-exec_ld to_ram to_ram-in_ram reg_c reg_b (omega arith)

exec_shift-alu_shift_example : Shifts to_ram to_ram-in_ram swap
unfolding get16
exec_shift-alu_shift_example = exec_shift-alu_shift to_ram to_ram-in_ram (omega arith) swap

-- JR by 0x18, from 0x0100.
abbrev jumps : IsReady 127 (ctx 0x18)
jumps = ctx-IsReady 0x18 (omega arith)

jr_if-disasm_single_example :
    (target : ℕ) × (jr_if true (fetched (ctx 0x18))
      ≡ ok (tt, with_pc (fetched (fetched (ctx 0x18))) target))
    × (disasm_single 0x0100 (ctx 0x18)
        ≡ ok (
          tt,
          shown
              (with_log (ctx 0x18) (instr_log (byte_at jumps) 0x0100 log))
              0x0100
              none
              (branch_name always ++ hex_text 4 target),
        ))
unfolding ctx-IsReady
jr_if-disasm_single_example = jr_if-disasm_single jumps always refl refl

-- DEC B; JR NZ, -3 at the start of the working RAM, with 1 in B.
abbrev waits : Ctx
waits = record (ctx 0) {
  reg = record (ctx 0).reg { pc = 0xC000 };
  bus = record (ctx 0).bus {
    wram = λ i. if i == 0 then 0x05 else if i == 1 then 0x20 else if i == 2 then 0xFD else 0;
  };
}

waits-IsReady : IsReady 127 waits
waits-IsReady = record {
  bus_ok = record {
    cart_ok = (ctx-IsReady 0 (omega arith)).bus_ok.cart_ok;
    wram_ok = λ i. ground arith;
    hram_ok = λ i. omega arith;
    serial_ok = record { fits = omega arith; rest = λ i le. refl };
  };
  reg_ok = omega arith;
}

dispatch-delay_example :
    (f : ℕ) × (log : Log) × (dispatch 2 waits ≡ ok (tt, delayed waits 0 f 0xC003 log))
    × (flags_of f ≡ record (flags_of 0x10) { zero = true; subtract = true; half_carry = false })
unfolding waits-IsReady ctx-IsReady
dispatch-delay_example = dispatch-delay waits-IsReady (refl, refl, refl)

-- LD (HL), A to the serial port: the 128th byte is the last that fits.
abbrev sends : ℕ → Ctx
sends size =
    with_serial (record (ctx 0x77) { reg = record (ctx 0x77).reg { h = 0xFF; l = 0x01 } })
      (record { chars = λ _. 0x20; data_size = size })

last_byte_test :
    and_then (cpu_step (sends 127)) (λ _ s. ok (s.bus.serial.data_size, ctx 0)) ≡ ok (128, ctx 0)
unfolding cpu_step
last_byte_test = refl

full_port_test : cpu_step (sends 128) ≡ fault out_of_bounds
unfolding cpu_step
full_port_test = refl
