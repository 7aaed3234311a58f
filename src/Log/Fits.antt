-- ===== src/Log/Fits.antt =====
-- The messages of the core and the 512 bytes of the buffer in `agoge_core_log_handle`.
use Prim.Native.String.{String}
use agoge.Prelude.{
  ℕ, ◌<◌, ◌≡◌, refl, true, false, ltb, if◌then◌else◌, List, ◌∷◌, ◌++◌, length, some, arith,
  Bool-cases, inl, inr,
}
use agoge.Ctx.{Ctx, Log, LogLvl, LogCh, ch_ctx}
use agoge.Step.{ok}
use agoge.Printf.{Arg, codes, vsprintf}
use agoge.Log.{lvl_tbl, ch_tbl, log_enabled, log_handle, log_message}

-- The text of a message: the level's prefix, the channel's and what was printed.
abbrev pub log_text : String → LogCh → List ℕ → List ℕ
log_text lvl_str ch text = codes lvl_str ++ (codes (ch_tbl ch) ++ text)

-- The log after a message, if its level and channel are enabled.
unfoldable pub logged : LogLvl → LogCh → List ℕ → Log → Log
unfolding log_enabled
logged lvl ch text log =
    if log_enabled log lvl ch
    then record log {
      sent = record { msg = text; msg_len = length text; ch = ch_ctx; lvl = lvl } ∷ log.sent;
    }
    else log

pub logged-off :
    (lvl : LogLvl) (ch : LogCh) (text : List ℕ) (log : Log)
    → log_enabled log lvl ch ≡ false
    → logged lvl ch text log ≡ log
unfolding logged
logged-off lvl ch text log off = rw off refl

abbrev pub with_log : Ctx → Log → Ctx
with_log s log = record s { log = log }

-- A message that is printed to a text that fits is logged, where that is enabled, and changes nothing
-- else.
pub log_message_lem :
    (lvl : LogLvl) (ch : LogCh) (fmt : String) (args : List Arg) (lvl_str : String) (text : List ℕ)
    (s : Ctx)
    → lvl_tbl lvl ≡ some lvl_str
    → vsprintf fmt args ≡ ok text
    → length (log_text lvl_str ch text) < 512
    → log_message lvl ch fmt args s
      ≡ ok (tt, with_log s (logged lvl ch (log_text lvl_str ch text) s.log))
unfolding log_message log_handle logged
log_message_lem lvl ch fmt args lvl_str text s known printed fits =
    let size : ltb (length (log_text lvl_str ch text)) 512 ≡ true = ground arith in
    elim (Bool-cases (log_enabled s.log lvl ch)) [
      | inl on ↦ rw (on, known, printed, size) refl
      | inr off ↦ rw off refl
    ]
