-- ===== src/Log/Sends.antt =====
-- What the log gets while the core runs: messages at the levels that have a prefix, and nothing else.
use agoge.Prelude.{ℕ, ◌≡◌, true, false, Bool, List, ◌∷◌, length, Bool-cases, inl, inr}
use agoge.Ctx.{Log, LogLvl, LogCh, LogMsg, lvl_off, ch_ctx}
use agoge.Log.{log_enabled}
use agoge.Log.Fits.{logged}

abbrev pub is_off : LogLvl → Bool
is_off lvl_off = true
is_off _ = false

-- The callback got some messages, each at a level that is not OFF; the log's settings are as before.
pub data Sends (log : Log) : Log → Type 0 where
  nothing : Sends log log
  and_one :
      {log' : Log} (m : LogMsg)
      → Sends log log'
      → is_off m.lvl ≡ false
      → Sends log (record log' { sent = m ∷ log'.sent })

pub Sends-trans : {a b c : Log} → Sends a b → Sends b c → Sends a c
Sends-trans h nothing = h
Sends-trans h (and_one m k on) = and_one m (Sends-trans h k) on

pub logged-Sends :
    (lvl : LogLvl) (ch : LogCh) (text : List ℕ) (log : Log)
    → is_off lvl ≡ false
    → Sends log (logged lvl ch text log)
unfolding logged
logged-Sends lvl ch text log known = elim (Bool-cases (log_enabled log lvl ch)) [
  | inl on ↦
      rw on (
        and_one (record { msg = text; msg_len = length text; ch = ch_ctx; lvl = lvl }) nothing
          known)
  | inr off ↦ rw off nothing
]
