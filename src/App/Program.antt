-- ===== src/App/Program.antt =====
-- The whole of app/main.c, from the zeroed context.
use agoge.Prelude.{ℕ, ◌-◌, ◌*◌, ◌≡◌, ◌≢◌, true, bit_or, List, ◌++◌}
use agoge.Ctx.{Ctx, Log, Rom, lvl_trace}
use agoge.Step.{Result, ok, fault, Fault, out_of_bounds}
use agoge.Printf.{codes}
use agoge.Log.Fits.{with_log}
use agoge.Libc.{Libc}
use agoge.Cart.{retval_ok, cart_set}
use agoge.Cart.Insert.{cart_of, verdict, with_cart}
use agoge.Valid.{IsReady}
use agoge.Disasm.Instr.{byte_at}
use agoge.Boot.{power_up}
use agoge.App.{Outcome, exit_failure, in_loop, Opened, opened, unread, enabled_channels, main_loop}
use agoge.App.Turn.{turn_fault}
use agoge.App.Terminal.{terminal}
use agoge.RunsCrowded.{IsCrowded}
use agoge.App.Loop.{IsStop}

-- The log that `setup_ctx` leaves.
abbrev pub traced_log : Log → Log
traced_log log = record log {
  cb = true;
  curr_lvl = lvl_trace;
  ch_enabled = bit_or log.ch_enabled enabled_channels;
}

-- The context that `setup_ctx` leaves.
abbrev pub set_up : Log → Ctx
set_up log = record (power_up (traced_log log)) {
  reg = record (power_up (traced_log log)).reg { pc = 0x0100 };
}

-- How the loop ends there.
abbrev pub stop_fault : {n : ℕ} {s : Ctx} → IsStop n s → Fault
stop_fault stop = turn_fault (byte_at stop.ready) stop.at.reg.pc

abbrev pub usage_text : List ℕ → List ℕ
usage_text name =
    (name ++ codes ": Missing required argument.\n")
    ++ (codes "Syntax: " ++ (name ++ codes " <rom_file>\n"))

-- The callback has printed all messages, behind what it had printed before.
abbrev pub HasPrinted : List ℕ → Log → Type 0
HasPrinted before log = (more : List ℕ) × (terminal log.sent ≡ ok (before ++ more))

-- The context in which the loop starts, once `rom` is inserted.
abbrev pub started : Rom → Log → Ctx
started rom log = with_cart (set_up log) (cart_of rom 0)

-- What an inserted cartridge leads to, for a file whose copy is `rom`. Each case names the result of
-- `agoge_core_cart_set` and of the loop behind it.
pub data IsInsertion (n : ℕ) (log : Log) (before : List ℕ) (rom : Rom) (rom_size : ℕ)
    : Result (Outcome × Ctx) → Type 0 where
  turned_down :
      (log' : Log)
      → verdict rom rom_size ≢ retval_ok
      → cart_set rom rom_size (set_up log) ≡ ok (verdict rom rom_size, with_log (set_up log) log')
      → HasPrinted before log'
      → IsInsertion n log before rom rom_size (
          ok (
            exit_failure (codes "agoge_core_cart_set error, see log\n"),
            with_log (set_up log) log',
          ))
  turns :
      (s : Ctx)
      → verdict rom rom_size ≡ retval_ok
      → cart_set rom rom_size (set_up log) ≡ ok (retval_ok, started rom log)
      → main_loop n (started rom log) ≡ ok (tt, s)
      → IsReady (128 - 2 * n) s
      → HasPrinted before s.log
      → IsInsertion n log before rom rom_size (ok (in_loop, s))
  stopped :
      (stop : IsStop n (started rom log))
      → verdict rom rom_size ≡ retval_ok
      → cart_set rom rom_size (set_up log) ≡ ok (retval_ok, started rom log)
      → IsInsertion n log before rom rom_size (fault (stop_fault stop))
  crowded :
      verdict rom rom_size ≡ retval_ok
      → cart_set rom rom_size (set_up log) ≡ ok (retval_ok, started rom log)
      → main_loop n (started rom log) ≡ fault out_of_bounds
      → IsCrowded main_loop n 128 (started rom log)
      → IsInsertion n log before rom rom_size (fault out_of_bounds)

-- What the program comes to for what `open_rom` came to.
pub data IsRun (n : ℕ) (log : Log) (before : List ℕ)
    : Result Opened → Result (Outcome × Ctx) → Type 0 where
  not_read :
      (line : List ℕ) → IsRun n log before (ok (unread line)) (ok (exit_failure line, set_up log))
  overflow : IsRun n log before (fault out_of_bounds) (fault out_of_bounds)
  inserted :
      (rom : Rom) (rom_size : ℕ) {r : Result (Outcome × Ctx)}
      → IsInsertion n log before rom rom_size r
      → IsRun n log before (ok (opened rom rom_size)) r
