-- ===== src/RunsFetch.antt =====
-- The fetch of core/src/cpu.c, `read_u8`, in a valid context.
use agoge.Prelude.{refl, ℕ, ◌+◌, ◌<◌, ◌≡◌, u16, arith, ap}
use agoge.Ctx.{Ctx, Log, Disasm}
use agoge.Step.{ok}
use agoge.Bus.Memory.{memory, read_log, bus_read_lem, memory-lt}
use agoge.Cpu.Reg.{rd16, wr16}
use agoge.Cpu.Alu.{read_u8}
use agoge.Valid.{IsReady}
use agoge.Runs.{Runs, Done-Frame, Frame, twin}
use agoge.Log.Sends.{nothing}
use agoge.RunsBus.{twin-IsReady, read_log-Sends, Runs-bus_read}

-- The byte that the program counter stands at.
abbrev pub next_byte : {room : ℕ} {s : Ctx} → IsReady room s → ℕ
next_byte {s = s} h = memory h.bus_ok.cart_ok.inserted s.bus s.reg.pc

-- A fetch returns that byte, and so it does from a twin.
pub read_u8_byte :
    {room : ℕ} {s : Ctx} (h : IsReady room s) (log : Log) (e : Disasm)
    → (v : ℕ) × (s' : Ctx) × (log' : Log) × (read_u8 s ≡ ok (v, s'))
      × (read_u8 (twin log e s) ≡ ok (v, twin log' e s'))
      × (v < 256)
      × (v ≡ next_byte h)
      × IsReady room s'
      × Frame s s'
unfolding read_u8 rd16 wr16
read_u8_byte {room} {s} h log e =
    let h' : IsReady room (record s { reg = record s.reg { pc = u16 (s.reg.pc + 1) } }) = record {
      bus_ok = h.bus_ok;
      reg_ok = omega arith;
    } in
    let inside : u16 s.reg.pc ≡ s.reg.pc = omega arith in
    (
      memory h.bus_ok.cart_ok.inserted s.bus (u16 s.reg.pc),
      record s {
        reg = record s.reg { pc = u16 (s.reg.pc + 1) };
        log = read_log (u16 s.reg.pc) s.log;
      },
      read_log (u16 s.reg.pc) log,
      bus_read_lem h' s.reg.pc,
      bus_read_lem (twin-IsReady log e h') s.reg.pc,
      memory-lt h' (u16 s.reg.pc),
      ap (λ (a : ℕ). memory h.bus_ok.cart_ok.inserted s.bus a) inside,
      record { bus_ok = h.bus_ok; reg_ok = h'.reg_ok },
      record { same_disasm = refl; sends = read_log-Sends (u16 s.reg.pc) s.log },
    )

pub Runs-read_u8 : (n : ℕ) → Runs n read_u8
unfolding read_u8 rd16 wr16
Runs-read_u8 n = record {
  run = λ before room s log e le h.
      let h' : IsReady before (record s { reg = record s.reg { pc = u16 (s.reg.pc + 1) } }) =
        record { bus_ok = h.bus_ok; reg_ok = omega arith } in
      Done-Frame (record { same_disasm = refl; sends = nothing })
        ((Runs-bus_read n s.reg.pc).run before room _ log e le h');
}
