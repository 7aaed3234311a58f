-- ===== src/App/Terminal.antt =====
-- What `log_cb` of app/main.c prints on the terminal.
use agoge.Prelude.{ℕ, ◌≡◌, refl, ap, sym, ◌∙◌, false, List, [], ◌∷◌, ◌++◌}
use agoge.Ctx.{Log, LogLvl, LogMsg, lvl_off, lvl_info, lvl_warn, lvl_err, lvl_dbg, lvl_trace}
use agoge.Step.{Result, ok, try_then}
use agoge.Log.Sends.{is_off, Sends, nothing, and_one}
use agoge.Disasm.Line.{append_assoc}
use agoge.App.{log_print, log_cb}

-- What stands on the terminal behind these messages, the latest of which is the first of the list.
unfoldable pub terminal : List LogMsg → Result (List ℕ)
unfolding log_cb
terminal [] = ok []
terminal (msg ∷ sent) =
    try_then (terminal sent) λ before. try_then (log_cb msg) λ line. ok (before ++ line)

log_print-ok :
    (lvl : LogLvl) (msg : List ℕ)
    → is_off lvl ≡ false
    → (line : List ℕ) × (log_print lvl msg ≡ ok line)
unfolding log_print
log_print-ok lvl_off msg on = absurd (cc on)
log_print-ok lvl_info msg on = (_, refl)
log_print-ok lvl_warn msg on = (_, refl)
log_print-ok lvl_err msg on = (_, refl)
log_print-ok lvl_dbg msg on = (_, refl)
log_print-ok lvl_trace msg on = (_, refl)

append-nil : (t : List ℕ) → t ++ [] ≡ t
append-nil [] = refl
append-nil (x ∷ t) = ap (λ xs. x ∷ xs) (append-nil t)

-- The callback prints what the core sends, behind what it has printed.
pub terminal-Sends :
    {log log' : Log} (before : List ℕ)
    → Sends log log'
    → terminal log.sent ≡ ok before
    → (more : List ℕ) × (terminal log'.sent ≡ ok (before ++ more))
unfolding terminal log_cb
terminal-Sends before nothing e = ([], e ∙ ap ok (sym (append-nil before)))
terminal-Sends before (and_one msg h on) e =
    let (more, e') = terminal-Sends before h e in
    let (line, printed) = log_print-ok msg.lvl msg.msg on in
    (more ++ line, rw (e', printed) (ap ok (sym (append_assoc before more line))))
