-- ===== src/App.antt =====
-- The program: app/main.c, with the disassembler's traces in its loop.
pub mod Turn
pub mod Round
pub mod Loop
pub mod Untraced
pub mod Input
pub mod Terminal
pub mod Program
use Prim.Native.String.{String}
use agoge.Prelude.{
  ℕ, zero, suc, bit_or, true, not, ltb, ◌==◌, ◌||◌, if◌then◌else◌, List, [], ◌∷◌, ◌++◌,
}
use agoge.Ctx.{
  Rom, LogLvl, LogMsg, lvl_off, lvl_info, lvl_warn, lvl_err, lvl_dbg, lvl_trace, cart_size_max,
}
use agoge.Step.{
  Result, ok, fault, out_of_bounds, null_pointer, unreachable, M, pure, lift_from, modify_log,
  try_then, ◌>>=◌, ◌>>◌,
}
use agoge.Printf.{codes, text, vsprintf}
use agoge.Libc.{Libc, File, Call, done, failed}
use agoge.Cart.{CartRetval, retval_ok, cart_set}
use agoge.Cpu.Run.{ctx_reset, ctx_step}
use agoge.Disasm.{disasm_trace_before, disasm_trace_after}

-- The channels of the context, the bus, the cartridge and the disassembler.
abbrev pub enabled_channels : ℕ
enabled_channels = 0x1B

-- `setup_ctx`.
unfoldable pub setup_ctx : M (Unit {0})
unfolding ctx_reset
setup_ctx = do
  modify_log (λ log. record log {
    cb = true;
    curr_lvl = lvl_trace;
    ch_enabled = bit_or log.ch_enabled enabled_channels;
  })
  ctx_reset

-- One turn of the loop of `main`.
unfoldable pub traced_round : M (Unit {0})
unfolding disasm_trace_before ctx_step disasm_trace_after
traced_round = do disasm_trace_before; ctx_step 1; disasm_trace_after

-- `n` turns. The loop of the source has no end.
unfoldable pub main_loop : ℕ → M (Unit {0})
unfolding traced_round
main_loop zero = pure tt
main_loop (suc n) = do traced_round; main_loop n

-- What `log_cb` prints at a level. There is no way to its `default` in C.
unfoldable pub log_print : LogLvl → List ℕ → Result (List ℕ)
unfolding vsprintf
log_print lvl_info msg = vsprintf "\u{1b}[1;97m%s\n\u{1b}[0m" (text msg ∷ [])
log_print lvl_warn msg = vsprintf "\u{1b}[1;93m%s\n\u{1b}[0m" (text msg ∷ [])
log_print lvl_err msg = vsprintf "\u{1b}[1;91m%s\n\u{1b}[0m" (text msg ∷ [])
log_print lvl_dbg msg = vsprintf "\u{1b}[0;95m%s\n\u{1b}[0m" (text msg ∷ [])
log_print lvl_trace msg = vsprintf "\u{1b}[0;95m%s\n\u{1b}[0m" (text msg ∷ [])
log_print lvl_off msg = fault unreachable

-- `log_cb`.
unfoldable pub log_cb : LogMsg → Result (List ℕ)
unfolding log_print
log_cb msg = log_print msg.lvl msg.msg

-- What `open_rom` leaves: the static `rom` and `rom_size`, or what it printed on the standard error.
pub data Opened : Type 0 where
  opened : Rom → ℕ → Opened
  unread : List ℕ → Opened

-- One of its messages, on the path and the text of the error.
abbrev pub report : String → List ℕ → List ℕ → Result Opened
report fmt rom_file error =
    try_then (vsprintf fmt (text rom_file ∷ text error ∷ [])) λ line. ok (unread line)

-- The static array `rom` after `fread` has stored so many bytes of a file.
abbrev pub rom_of : File → ℕ → Rom
rom_of file count = record {
  byte = λ i. if ltb i count then file.byte i else 0;
  size = cart_size_max;
}

-- From the call of `fread` on, which writes past `rom` where more bytes are read than it holds.
unfoldable pub read_rom : List ℕ → ℕ → File → Result Opened
unfolding vsprintf
read_rom rom_file st_size file =
    let rom_size = file.fread st_size in
    if ltb cart_size_max rom_size
    then fault out_of_bounds
    else if not (rom_size == st_size) || file.ferror st_size
    then report "Error reading ROM %s: %s\n" rom_file (file.strerror st_size)
    else ok (opened (rom_of file rom_size) rom_size)

-- From the answer of `fopen` on.
unfoldable pub open_file : List ℕ → ℕ → Call File → Result Opened
unfolding read_rom vsprintf
open_file rom_file st_size (failed error) = report "Unable to open ROM %s: %s\n" rom_file error
open_file rom_file st_size (done file) = read_rom rom_file st_size file

-- From the answer of `stat` on.
unfoldable pub open_sized : Libc → List ℕ → Call ℕ → Result Opened
unfolding open_file vsprintf
open_sized libc rom_file (failed error) =
    report "Unable to get file size of ROM %s: %s\n" rom_file error
open_sized libc rom_file (done st_size) = open_file rom_file st_size (libc.fopen rom_file)

-- `open_rom`.
unfoldable pub open_rom : Libc → List ℕ → Result Opened
unfolding open_sized
open_rom libc rom_file = open_sized libc rom_file (libc.stat rom_file)

-- How `main` goes on: it ends in EXIT_FAILURE with this on the standard error, or is in its loop.
pub data Outcome : Type 0 where
  exit_failure : List ℕ → Outcome
  in_loop : Outcome

-- What follows the answer to the cartridge: the loop, where it was accepted.
unfoldable pub main_start : ℕ → CartRetval → M Outcome
unfolding main_loop
main_start n retval_ok = do main_loop n; pure in_loop
main_start n ret = pure (exit_failure (codes "agoge_core_cart_set error, see log\n"))

-- What follows `open_rom`.
unfoldable pub main_insert : ℕ → Opened → M Outcome
unfolding cart_set main_start
main_insert n (unread line) = pure (exit_failure line)
main_insert n (opened rom rom_size) = do ret ← cart_set rom rom_size; main_start n ret

-- The two lines for a missing argument.
abbrev pub usage : List ℕ → Result (List ℕ)
usage name = try_then (vsprintf "%s: Missing required argument.\n" (text name ∷ [])) λ line.
    try_then (vsprintf "Syntax: %s <rom_file>\n" (text name ∷ [])) λ syntax. ok (line ++ syntax)

-- `main` for its arguments, up to `n` turns of its loop. `argv[0]` is NULL where there is none.
unfoldable pub main : Libc → List (List ℕ) → ℕ → M Outcome
unfolding setup_ctx open_rom main_insert vsprintf
main libc [] n = λ _. fault null_pointer
main libc (name ∷ []) n = do line ← lift_from (usage name); pure (exit_failure line)
main libc (name ∷ rom_file ∷ _) n = do
  setup_ctx
  file ← lift_from (open_rom libc rom_file)
  main_insert n file
