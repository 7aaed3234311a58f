-- ===== src/App/Loop.antt =====
-- The loop of app/main.c from a valid context.
use agoge.Prelude.{ℕ, zero, suc, ◌-◌, ◌*◌, ◌<◌, ◌≡◌, refl, false, arith, Bool-cases, inl, inr, ◌⊎◌}
use agoge.Ctx.{Ctx}
use agoge.Step.{ok, fault, out_of_bounds}
use agoge.Valid.{IsReady}
use agoge.Runs.{IsReady-le}
use agoge.RunsCrowded.{IsCrowded, IsCrowded-now, IsCrowded-later}
use agoge.Disasm.Instr.{byte_at}
use agoge.App.{traced_round, main_loop}
use agoge.App.Turn.{shows, turn_fault}
use agoge.App.Round.{IsTurn-cases, traced_round-fault}
use agoge.Log.Sends.{Sends, Sends-trans, nothing}

-- The loop came, after `k` turns, to an instruction that cannot be shown, and ended there.
pub record IsStop (n : ℕ) (s : Ctx) : Type 0 where
  pub k : ℕ
  pub at : Ctx
  pub before : k < n
  pub reached : main_loop k s ≡ ok (tt, at)
  pub left : ℕ
  pub ready : IsReady left at
  pub hidden : shows (byte_at ready) at.reg.pc ≡ false
  pub stopped : main_loop n s ≡ fault (turn_fault (byte_at ready) at.reg.pc)

pub later : (n : ℕ) (s s' : Ctx) → traced_round s ≡ ok (tt, s') → IsStop n s' → IsStop (suc n) s
unfolding main_loop
later n s s' e stop = record {
  k = suc stop.k;
  at = stop.at;
  before = omega (arith, stop.before);
  reached = rw e stop.reached;
  left = stop.left;
  ready = stop.ready;
  hidden = stop.hidden;
  stopped = rw e stop.stopped;
}

pub IsStop-now :
    (n room : ℕ) (s : Ctx) (h : IsReady room s)
    → shows (byte_at h) s.reg.pc ≡ false
    → traced_round s ≡ fault (turn_fault (byte_at h) s.reg.pc)
    → IsStop (suc n) s
unfolding main_loop
IsStop-now n room s h cannot ended = record {
  k = 0;
  at = s;
  before = omega arith;
  reached = refl;
  left = room;
  ready = h;
  hidden = cannot;
  stopped = rw ended refl;
}

-- From a valid context with room for `room` bytes at the serial port: the loop makes `n` turns, leaves a
-- valid context, with room for two bytes less for each turn, or for none where `room` is below that, and a
-- log that has sent messages at no level
-- but those that the callback prints. Or it makes fewer turns, and the next one is at an instruction
-- without a text or without known traces, where it ends in that instruction's fault. Or it comes, after
-- fewer turns, to a valid context where the port holds 126 bytes or more, and ends in an access past the
-- end of the port.
pub main_loop_lem :
    (n room : ℕ) (s : Ctx)
    → IsReady room s
    → ((s' : Ctx) × (main_loop n s ≡ ok (tt, s')) × IsReady (room - 2 * n) s' × Sends s.log s'.log)
      ⊎ (IsStop n s ⊎ ((main_loop n s ≡ fault out_of_bounds) × IsCrowded main_loop n room s))
unfolding main_loop
main_loop_lem zero room s h = inl (s, refl, IsReady-le (omega arith) h, nothing)
main_loop_lem (suc n) room s h = elim (Bool-cases (shows (byte_at h) s.reg.pc)) [
  | inr cannot ↦ elim (traced_round-fault room h cannot) [
    | inl ended ↦ inr (inl (IsStop-now n room s h cannot ended))
    | inr (many, over) ↦ inr (inr (rw over refl, IsCrowded-now main_loop n h many refl))
  ]
  | inl can ↦ elim (IsTurn-cases room h can) [
    | inr (many, over) ↦ inr (inr (rw over refl, IsCrowded-now main_loop n h many refl))
    | inl (t, turned, _, ready, sent) ↦ elim (main_loop_lem n (room - 2) t ready) [
      | inl (s', ran, ready', more) ↦
          inl (s', rw turned ran, IsReady-le (omega arith) ready', Sends-trans sent more)
      | inr (inl stop) ↦ inr (inl (later n s t turned stop))
      | inr (inr (over, c)) ↦ inr (
          inr (
            rw turned over,
            IsCrowded-later main_loop n (room - 2) t (omega arith) (λ k. rw turned refl) c,
          ))
    ]
  ]
]
