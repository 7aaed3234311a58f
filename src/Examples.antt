-- ===== src/Examples.antt =====
-- The theorems at concrete inputs: a 32 KiB cartridge without a mapper, a stack at the top of the high
-- RAM, and runs of both.
mod Alu
mod App
mod Disasm
mod Handlers
use agoge.Prelude.{
  ◌≤◌, ◌+◌, ℕ, ◌<◌, ◌≡◌, refl, ◌⊎◌, ◌==◌, if◌then◌else◌, true, false, some, [], ◌∷◌, arith, u32,
  zero, suc,
}
use agoge.Ctx.{zero_disasm, Ctx, Rom, Log, lvl_trace, mbc_banked_read_cb_none}
use agoge.Step.{ok, fault, null_jump, out_of_bounds, assertion, ◌>>◌}
use agoge.Bus.{bus_read, bus_write}
use agoge.Bus.Memory.{bus_read_lem}
use agoge.Bus.Ram.{ram_write, with_bus, bus_read-bus_write}
use agoge.Bus.Line.{send, send_line, send_overflow, with_serial, line_log}
use agoge.Cart.{retval_ok, cart_set}
use agoge.Cart.Insert.{byte_sum, IsAnswer, cart_set_lem}
use agoge.Valid.{AreBytes, IsReady}
use agoge.Cpu.Alu.{alu_rlc, alu_rrc, alu_rl, alu_rr, alu_sla, alu_sra, alu_srl, alu_swap}
use agoge.Cpu.Arith.{alu_add, alu_adc, alu_sub, alu_sbc, alu_cp, op_daa}
use agoge.Cpu.Flow.{stack_push, stack_pop, ret_if, rst}
use agoge.Cpu.Flags.{flags_of}
use agoge.Cpu.AddSub.{Gives, add_flags, sub_flags, alu_add-alu_adc, alu_sub-alu_sbc-alu_cp}
use agoge.Cpu.Daa.{bcd, decimal_flags, op_daa-alu_adc, op_daa-alu_sbc}
use agoge.Cpu.Rotate.{Returns, shift_flags, rotations, shifts}
use agoge.Cpu.Stack.{pushed, with_pc, stack_pop-stack_push, ret_if-rst}
use agoge.Cpu.Run.{cpu_step, dispatch, ctx_step}
use agoge.RunsCrowded.{IsCrowded}
use agoge.Cpu.Nops.{IsNops, moved, ctx_step-nop}
use agoge.RunsCpu.Run.{cpu_step-IsReady, cpu_step-null_jump, dispatch-IsReady}
use agoge.Boot.{power_up, boot}

-- A cartridge of one byte over and over, with the checksum that fits zeros.
abbrev rom : ℕ → Rom
rom v = record { byte = λ i. if i == 0x014D then 231 else v; size = 32768 }

abbrev log : Log
log = record { cb = true; curr_lvl = lvl_trace; ch_enabled = 0x1F; sent = [] }

abbrev ctx : ℕ → Ctx
ctx v = record {
  bus = record (power_up log).bus {
    cart = record {
      rom = some (rom v);
      banked_read_cb = some mbc_banked_read_cb_none;
      rom_bank = 0;
    };
  };
  log = log;
  reg = record {
    b = 1;
    c = 2;
    d = 3;
    e = 4;
    h = 5;
    l = 6;
    a = 0x45;
    f = 0x10;
    pc = 0x0100;
    sp = 0xFFFE;
  };
  disasm = zero_disasm;
}

rom-bytes : (v : ℕ) → v < 256 → AreBytes (rom v).byte
rom-bytes v lt i = ground arith

ctx-IsReady : (v : ℕ) → v < 256 → IsReady 127 (ctx v)
ctx-IsReady v lt = record {
  bus_ok = record {
    cart_ok = record {
      inserted = rom v;
      cb = mbc_banked_read_cb_none;
      rom_eq = refl;
      cb_eq = refl;
      size_ge = omega arith;
      bytes = rom-bytes v lt;
      bank_eq = λ e. absurd (cc e);
    };
    wram_ok = λ i. omega arith;
    hram_ok = λ i. omega arith;
    serial_ok = record { fits = omega arith; rest = λ i le. refl };
  };
  reg_ok = record {
    b_lt = omega arith;
    c_lt = omega arith;
    d_lt = omega arith;
    e_lt = omega arith;
    h_lt = omega arith;
    l_lt = omega arith;
    a_lt = omega arith;
    f_lt = omega arith;
    f_low = refl;
    pc_lt = omega arith;
    sp_lt = omega arith;
  };
}

dispatch-IsReady_example :
    ((s' : Ctx) × (dispatch 3 (ctx 0) ≡ ok (tt, s')) × IsReady 121 s')
    ⊎ ((dispatch 3 (ctx 0) ≡ fault null_jump)
        ⊎ ((dispatch 3 (ctx 0) ≡ fault out_of_bounds) × IsCrowded dispatch 3 127 (ctx 0)))
dispatch-IsReady_example = dispatch-IsReady 3 127 (ctx 0) (ctx-IsReady 0 (omega arith))

cpu_step-IsReady_example :
    ((s' : Ctx) × (cpu_step (ctx 0xC7) ≡ ok (tt, s')) × IsReady 125 s')
    ⊎ ((126 ≤ (ctx 0xC7).bus.serial.data_size) × (cpu_step (ctx 0xC7) ≡ fault out_of_bounds))
unfolding ctx-IsReady
cpu_step-IsReady_example = cpu_step-IsReady 127 (ctx 0xC7) (ctx-IsReady 0xC7 (omega arith)) refl

cpu_step-null_jump_example : cpu_step (ctx 0x76) ≡ fault null_jump
unfolding ctx-IsReady
cpu_step-null_jump_example = cpu_step-null_jump 127 (ctx 0x76) (ctx-IsReady 0x76 (omega arith)) refl

ctx-IsNops : IsNops (ctx-IsReady 0 (omega arith)) 3
unfolding ctx-IsReady
ctx-IsNops zero lt = refl
ctx-IsNops (suc zero) lt = refl
ctx-IsNops (suc (suc zero)) lt = refl
ctx-IsNops (suc (suc (suc i))) lt = absurd (omega arith)

-- 2 ^ 32 + 3 is cut to 3.
ctx_step-nop_example :
    ((u32 4294967299 ≡ 0) × (ctx_step 4294967299 (ctx 0) ≡ fault assertion))
    ⊎ ((0 < u32 4294967299)
        × (log' : Log) × (ctx_step 4294967299 (ctx 0) ≡ ok (tt, moved (ctx 0) 0x0103 log')))
ctx_step-nop_example = ctx_step-nop 4294967299 (ctx-IsReady 0 (omega arith)) ctx-IsNops

zero_cycles_test : ctx_step 4294967296 (ctx 0) ≡ fault assertion
unfolding ctx_step
zero_cycles_test = refl

cart_set_lem_example : IsAnswer (rom 0) (ctx 0) retval_ok (cart_set (rom 0) 32768 (ctx 0))
unfolding byte_sum
cart_set_lem_example = cart_set_lem (rom 0) 32768 (ctx 0) (rom-bytes 0 (omega arith)) (omega arith)

bus_read_lem_example : bus_read 0x4000 (ctx 7) ≡ ok (7, ctx 7)
unfolding ctx-IsReady
bus_read_lem_example = bus_read_lem (ctx-IsReady 7 (omega arith)) 0x4000

bus_read-bus_write_example :
    (do bus_write 0xC000 0x1FF; bus_read 0xC000) (ctx 0)
    ≡ ok (0xFF, with_bus (ctx 0) (ram_write (ctx 0).bus 0xC000 0xFF))
bus_read-bus_write_example = bus_read-bus_write 0xC000 0xC000 0x1FF (ctx 0) refl refl

send_line_example :
    (do send (0x4F ∷ 0x4B ∷ []); bus_write 0xFF01 0x0A) (ctx 0)
    ≡ ok (tt, record (ctx 0) { log = line_log (0x4F ∷ 0x4B ∷ 0x0A ∷ []) log })
send_line_example =
    send_line (0x4F ∷ 0x4B ∷ []) (ctx 0) (omega arith, refl, refl, (omega arith, refl, refl, tt))
      (omega arith) refl

abbrev nearly_full : Ctx
nearly_full = with_serial (ctx 0) (record { chars = λ _. 0x20; data_size = 127 })

send_overflow_example : send (0x4F ∷ 0x4B ∷ []) nearly_full ≡ fault out_of_bounds
send_overflow_example =
    send_overflow (0x4F ∷ 0x4B ∷ []) nearly_full
      (omega arith, refl, refl, (omega arith, refl, refl, tt)) (omega arith) (omega arith)

alu_add-alu_adc_example :
    Gives (alu_add 0xBB) (ctx 0) 0x00 (add_flags 0x45 0xBB 0)
    × Gives (alu_adc 0xBB) (ctx 0) 0x01 (add_flags 0x45 0xBB 1)
unfolding flags_of
alu_add-alu_adc_example = alu_add-alu_adc 0xBB (ctx 0)

alu_sub-alu_sbc-alu_cp_example :
    Gives (alu_sub 0x46) (ctx 0) 0xFF (sub_flags 0x45 0x46 0)
    × Gives (alu_sbc 0x46) (ctx 0) 0xFE (sub_flags 0x45 0x46 1)
    × Gives (alu_cp 0x46) (ctx 0) 0x45 (sub_flags 0x45 0x46 0)
unfolding flags_of
alu_sub-alu_sbc-alu_cp_example = alu_sub-alu_sbc-alu_cp 0x46 (ctx 0) (omega arith) (omega arith)

-- 45 + 38 + 1 = 84, and 45 - 38 - 1 = 6.
op_daa-alu_adc_example :
    Gives (alu_adc (bcd 38) >> op_daa) (ctx 0) 0x84 (decimal_flags false 84 false)
unfolding flags_of
op_daa-alu_adc_example = op_daa-alu_adc 45 38 (omega arith) (omega arith) (ctx 0) refl

op_daa-alu_sbc_example :
    Gives (alu_sbc (bcd 38) >> op_daa) (ctx 0) 0x06 (decimal_flags true 6 false)
unfolding flags_of
op_daa-alu_sbc_example = op_daa-alu_sbc 45 38 (omega arith) (omega arith) (ctx 0) refl

stack_pop-stack_push_example :
    (do stack_push 0x1234; stack_pop) (ctx 0)
    ≡ ok (0x1234, with_bus (ctx 0) (pushed (ctx 0) 0x1234).bus)
stack_pop-stack_push_example = stack_pop-stack_push 0x1234 (ctx 0) (omega arith) (omega arith) refl

ret_if-rst_example :
    (rst 0x38 (ctx 0) ≡ ok (tt, with_pc (pushed (ctx 0) 0x0100) 0x38))
    × ((do rst 0x38; ret_if true) (ctx 0) ≡ ok (tt, with_bus (ctx 0) (pushed (ctx 0) 0x0100).bus))
ret_if-rst_example = ret_if-rst 0x38 (ctx 0) (omega arith) (omega arith) refl

-- The carry flag is set.
rotations_example :
    Returns (alu_rlc 0x81) (ctx 0) 0x03 (shift_flags 0x03 1)
    × Returns (alu_rrc 0x81) (ctx 0) 0xC0 (shift_flags 0xC0 1)
    × Returns (alu_rl 0x81) (ctx 0) 0x03 (shift_flags 0x03 1)
    × Returns (alu_rr 0x81) (ctx 0) 0xC0 (shift_flags 0xC0 1)
unfolding flags_of
rotations_example = rotations 0x81 (ctx 0) (omega arith)

shifts_example :
    Returns (alu_sla 0x81) (ctx 0) 0x02 (shift_flags 0x02 1)
    × Returns (alu_sra 0x81) (ctx 0) 0xC0 (shift_flags 0xC0 1)
    × Returns (alu_srl 0x81) (ctx 0) 0x40 (shift_flags 0x40 1)
    × Returns (alu_swap 0x81) (ctx 0) 0x18 (shift_flags 0x18 0)
shifts_example = shifts 0x81 (ctx 0) (omega arith)
