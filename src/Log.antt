-- ===== src/Log.antt =====
-- Logging: `LOG_HANDLE` of core/src/log.h and `agoge_core_log_handle` of core/src/log.c. The callback is
-- the application's; it is taken to return and, as the one of app/main.c, to leave the context alone.
pub mod Fits
pub mod Texts
pub mod Sends
use Prim.Native.String.{String}
use agoge.Prelude.{
  ℕ, ◌^◌, Bool, ◌&&◌, ltb, leb, nonzero, if◌then◌else◌, bit_and, List, ◌∷◌, ◌++◌, length, Option,
  none, some,
}
use agoge.Ctx.{
  Log, LogLvl, LogCh, LogMsg, lvl_off, lvl_info, lvl_warn, lvl_err, lvl_dbg, lvl_trace, ch_ctx,
  ch_bus, ch_cpu, ch_cart, ch_disasm,
}
use agoge.Step.{
  Result, ok, fault, out_of_bounds, M, pure, gets, lift_from, modify_log, deref, try_then, ◌>>=◌,
}
use agoge.Printf.{Arg, codes, vsprintf}

abbrev pub lvl_rank : LogLvl → ℕ
lvl_rank lvl_off = 0
lvl_rank lvl_info = 1
lvl_rank lvl_warn = 2
lvl_rank lvl_err = 3
lvl_rank lvl_dbg = 4
lvl_rank lvl_trace = 5

abbrev pub ch_rank : LogCh → ℕ
ch_rank ch_ctx = 0
ch_rank ch_bus = 1
ch_rank ch_cpu = 2
ch_rank ch_cart = 3
ch_rank ch_disasm = 4

abbrev pub log_msg_max : ℕ
log_msg_max = 512

-- `lvl_tbl`, where two levels are not set.
abbrev pub lvl_tbl : LogLvl → Option String
lvl_tbl lvl_info = some "[info] "
lvl_tbl lvl_warn = some "[warn] "
lvl_tbl lvl_err = some "[error] "
lvl_tbl lvl_trace = some "[trace] "
lvl_tbl lvl_off = none
lvl_tbl lvl_dbg = none

abbrev pub ch_tbl : LogCh → String
ch_tbl ch_ctx = "[ctx] "
ch_tbl ch_bus = "[bus] "
ch_tbl ch_cpu = "[cpu] "
ch_tbl ch_cart = "[cart] "
ch_tbl ch_disasm = "[disasm] "

-- The condition of `LOG_HANDLE`.
unfoldable pub log_enabled : Log → LogLvl → LogCh → Bool
log_enabled log lvl ch =
    log.cb
    && leb (lvl_rank lvl) (lvl_rank log.curr_lvl)
    && nonzero (bit_and log.ch_enabled (2 ^ ch_rank ch))

-- The callback gets a text that fits the buffer with its NUL. The field `ch` of the message is not set.
abbrev pub log_call : LogLvl → List ℕ → Log → Result Log
log_call lvl text log =
    if ltb (length text) log_msg_max
    then ok (record log {
      sent = record { msg = text; msg_len = length text; ch = ch_ctx; lvl = lvl } ∷ log.sent;
    })
    else fault out_of_bounds

-- `agoge_core_log_handle`. A copy from the NULL of a level without a prefix counts as a fault, though it
-- is one of no bytes; the core logs at no such level.
unfoldable pub log_handle : LogLvl → LogCh → String → List Arg → Log → Result Log
unfolding vsprintf
log_handle lvl ch fmt args log = try_then (deref (lvl_tbl lvl)) λ lvl_str.
    try_then (vsprintf fmt args)
      λ text. log_call lvl (codes lvl_str ++ (codes (ch_tbl ch) ++ text)) log

-- `LOG_HANDLE`, at one of its four levels.
unfoldable pub log_message : LogLvl → LogCh → String → List Arg → M (Unit {0})
unfolding log_enabled log_handle
log_message lvl ch fmt args = do
  log ← gets (λ s. s.log)
  if log_enabled log lvl ch
      then (do log' ← lift_from (log_handle lvl ch fmt args log); modify_log (λ _. log'))
      else pure tt
