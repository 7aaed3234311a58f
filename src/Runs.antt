-- ===== src/Runs.antt =====
-- Actions that return, keep the context valid, leave the disassembler alone and log at no level but those
-- with a prefix, while they write at most so many bytes to the serial port; and that neither ask the log
-- nor the disassembler: one rule for each way to build an action.
use agoge.Prelude.{
  ℕ, ◌<◌, ◌-◌, ◌⊎◌, inl, inr, suc, ◌≤◌, ◌≡◌, refl, ◌∙◌, Bool, true, false, if◌then◌else◌, arith,
}
use agoge.Ctx.{Ctx, Reg, Log, Disasm}
use agoge.Step.{
  Result, ok, fault, out_of_bounds, M, pure, ◌>>=◌, gets, modify_reg, and_then, assert,
}
use agoge.Log.Sends.{Sends, nothing, Sends-trans}
use agoge.Valid.{IsReady, IsReg}

-- The same processor and bus, with another log and another disassembler.
abbrev pub twin : Log → Disasm → Ctx → Ctx
twin log d s = record s { log = log; disasm = d }

-- The disassembler is left alone, and the log gets messages.
pub record Frame (s s' : Ctx) : Type 0 where
  pub same_disasm : s'.disasm ≡ s.disasm
  pub sends : Sends s.log s'.log

pub Frame-trans : {s t u : Ctx} → Frame s t → Frame t u → Frame s u
Frame-trans h k = record {
  same_disasm = k.same_disasm ∙ h.same_disasm;
  sends = Sends-trans h.sends k.sends;
}

-- The run returned a value, and left room for `room` bytes. From a twin it returned the same, in a twin,
-- where that is one byte or more. Where there is none the run may have written past the serial buffer.
pub data Done {A : Type 0} (start : Ctx) (e : Disasm) (room : ℕ)
    : Result (A × Ctx) → Result (A × Ctx) → Type 0 where
  done :
      (v : A) (s : Ctx) (log : Log)
      → Frame start s
      → IsReady room s
      → Done start e room (ok (v, s)) (ok (v, twin log e s))
  done_full :
      (v : A) (s : Ctx) {r' : Result (A × Ctx)}
      → room ≡ 0
      → Frame start s
      → IsReady room s
      → Done start e room (ok (v, s)) r'
  spilled : {r' : Result (A × Ctx)} → room ≡ 0 → Done start e room (fault out_of_bounds) r'

-- The action takes `n` bytes of room at most.
pub record Runs {A : Type 0} (n : ℕ) (m : M A) : Type 0 where
  pub run :
      (before room : ℕ) (s : Ctx) (log : Log) (e : Disasm)
      → room ≤ before - n
      → IsReady before s
      → Done s e room (m s) (m (twin log e s))

pub IsReady-le : {n k : ℕ} {s : Ctx} → n ≤ k → IsReady k s → IsReady n s
IsReady-le le h = record {
  bus_ok = record {
    cart_ok = h.bus_ok.cart_ok;
    wram_ok = h.bus_ok.wram_ok;
    hram_ok = h.bus_ok.hram_ok;
    serial_ok = record { fits = omega arith; rest = h.bus_ok.serial_ok.rest };
  };
  reg_ok = h.reg_ok;
}

module _ {A : Type 0} where
  pub Done-Frame :
      {s t : Ctx} {e : Disasm} {room : ℕ} {r r' : Result (A × Ctx)}
      → Frame s t
      → Done t e room r r'
      → Done s e room r r'
  Done-Frame p (done v u log q h) = done v u log (Frame-trans p q) h
  Done-Frame p (done_full v u z q h) = done_full v u z (Frame-trans p q) h
  Done-Frame p (spilled z) = spilled z

  -- Without room nothing is said of the twin.
  pub Done-alone :
      {s : Ctx} {e : Disasm} {room : ℕ} {r r' : Result (A × Ctx)} (r'' : Result (A × Ctx))
      → room ≡ 0
      → Done s e room r r'
      → Done s e room r r''
  Done-alone r'' z (done v u log q h) = done_full v u z q h
  Done-alone r'' z (done_full v u _ q h) = done_full v u z q h
  Done-alone r'' z (spilled _) = spilled z

  -- The run and its twin, where there is room.
  pub Done-lem :
      {start : Ctx} {e : Disasm} {room : ℕ} {r r' : Result (A × Ctx)}
      → 0 < room
      → Done start e room r r'
      → (v : A) × (s : Ctx) × (log : Log) × (r ≡ ok (v, s))
        × (r' ≡ ok (v, twin log e s))
        × IsReady room s
        × Frame start s
  Done-lem some_room (done v s log p h) = (v, s, log, refl, refl, h, p)
  Done-lem some_room (done_full v s z p h) = absurd (omega arith)
  Done-lem some_room (spilled z) = absurd (omega arith)

  -- The run in any case.
  pub Done-cases :
      {start : Ctx} {e : Disasm} {room : ℕ} {r r' : Result (A × Ctx)}
      → Done start e room r r'
      → ((v : A) × (s : Ctx) × (r ≡ ok (v, s)) × IsReady room s × Frame start s)
        ⊎ (r ≡ fault out_of_bounds)
  Done-cases (done v s log p h) = inl (v, s, refl, h, p)
  Done-cases (done_full v s z p h) = inl (v, s, refl, h, p)
  Done-cases (spilled z) = inr refl

module _ {A B : Type 0} where
  and_then-Done :
      {start : Ctx} {e : Disasm} (i k room : ℕ) (r r' : Result (A × Ctx)) (f : A → M B)
      → room ≤ k - i
      → Done start e k r r'
      → ((v : A) → Runs i (f v))
      → Done start e room (and_then r f) (and_then r' f)
  and_then-Done {e = e} i k room _ _ f le (done v s log p h) kf =
      Done-Frame p ((kf v).run k room s log e le h)
  and_then-Done {e = e} i k room _ r' f le (done_full v s z p h) kf =
      Done-alone (and_then r' f) (omega arith) (Done-Frame p ((kf v).run k room s s.log e le h))
  and_then-Done i k room _ _ f le (spilled z) kf = spilled (omega arith)

  pub Runs-bind :
      (n : ℕ) (m : M A) (f : A → M B) → Runs 0 m → ((v : A) → Runs n (f v)) → Runs n (m >>= f)
  Runs-bind n m f km kf = record {
    run = λ before room s log e le h.
        and_then-Done n before room (m s) (m (twin log e s)) f (omega arith)
          (km.run before before s log e (omega arith) h) kf;
  }

  -- The first part may write one byte, or two.
  pub Runs-bind_one :
      (n : ℕ) (m : M A) (f : A → M B) → Runs 1 m → ((v : A) → Runs n (f v)) → Runs (suc n) (m >>= f)
  Runs-bind_one n m f km kf = record {
    run = λ before room s log e le h.
        and_then-Done n (before - 1) room (m s) (m (twin log e s)) f (omega arith)
          (km.run before (before - 1) s log e (omega arith) h) kf;
  }

  pub Runs-bind_two :
      (n : ℕ) (m : M A) (f : A → M B)
      → Runs 2 m
      → ((v : A) → Runs n (f v))
      → Runs (suc (suc n)) (m >>= f)
  Runs-bind_two n m f km kf = record {
    run = λ before room s log e le h.
        and_then-Done n (before - 2) room (m s) (m (twin log e s)) f (omega arith)
          (km.run before (before - 2) s log e (omega arith) h) kf;
  }

module _ {A : Type 0} (n : ℕ) where
  pub Runs-pure : (v : A) → Runs n (pure v)
  Runs-pure v = record {
    run = λ before room s log e le h.
        done v s log (record { same_disasm = refl; sends = nothing }) (IsReady-le (omega arith) h);
  }

  pub Runs-gets : (g : Reg → A) → Runs n (gets (λ s. g s.reg))
  Runs-gets g = record {
    run = λ before room s log e le h.
        done (g s.reg) s log (record { same_disasm = refl; sends = nothing })
          (IsReady-le (omega arith) h);
  }

  pub Runs-if : (x : Bool) (m k : M A) → Runs n m → Runs n k → Runs n (if x then m else k)
  Runs-if true m k km kk = km
  Runs-if false m k km kk = kk

pub Runs-modify_reg :
    (n : ℕ) (g : Reg → Reg) → ((r : Reg) → IsReg r → IsReg (g r)) → Runs n (modify_reg g)
Runs-modify_reg n g keep = record {
  run = λ before room s log e le h.
      done tt (record s { reg = g s.reg }) log (record { same_disasm = refl; sends = nothing })
        (record {
          bus_ok = (IsReady-le {s = s} (omega arith) h).bus_ok;
          reg_ok = keep s.reg h.reg_ok;
        });
}

pub Runs-assert : (n : ℕ) (x : Bool) → x ≡ true → Runs n (assert x)
unfolding assert
Runs-assert n true e = Runs-pure n tt
Runs-assert n false e = absurd (cc e)

pub ruleset run_rules =
    (Runs-bind, Runs-bind_one, Runs-bind_two, Runs-pure, Runs-gets, Runs-if, Runs-assert)
