-- ===== src/Boot.antt =====
-- From power-up on: `agoge_core_ctx_reset`, `agoge_core_cart_set` and `agoge_core_ctx_step` of
-- core/src/ctx.c and core/src/cart.c, called in turn without the disassembler between them.
use agoge.Prelude.{
  none, ℕ, zero, suc, ◌+◌, ◌*◌, ◌<◌, ◌≤◌, ◌≡◌, refl, sym, ap, ◌∙◌, ◌==◌, false, ◌⊎◌, inl, inr,
  arith, u32,
}
use agoge.Ctx.{Ctx, Rom, Cart, Log, zero_disasm}
use agoge.Step.{
  Result, ok, fault, Fault, null_jump, assertion, M, pure, ◌>>=◌, ◌>>◌, and_then, assert,
}
use agoge.Bus.{empty_serial}
use agoge.Cart.{CartRetval, retval_ok, cart_set}
use agoge.Cart.Insert.{cart_of, accepted, refused, verdict, with_cart, cart_set_lem}
use agoge.Cpu.Run.{cpu_step, dispatch, cpu_run, cpu_reset, ctx_reset, ctx_step}
use agoge.Cpu.Reg.{wr16}
use agoge.Valid.{AreBytes, IsCart, IsReady}
use agoge.Runs.{IsReady-le}
use agoge.RunsCpu.Run.{dispatch-IsReady}

-- The static context of the application: all zero, and no callback, level or channel fixed.
abbrev pub power_up : Log → Ctx
power_up log = record {
  bus = record {
    wram = λ _. 0;
    hram = λ _. 0;
    cart = record { rom = none; banked_read_cb = none; rom_bank = 0 };
    serial = empty_serial;
  };
  log = log;
  reg = record { b = 0; c = 0; d = 0; e = 0; h = 0; l = 0; a = 0; f = 0; pc = 0; sp = 0 };
  disasm = zero_disasm;
}

-- `n` steps of one instruction.
unfoldable pub rounds : ℕ → M (Unit {0})
unfolding ctx_step
rounds zero = pure tt
rounds (suc n) = do ctx_step 1; rounds n

-- What follows the answer to the cartridge: the loop, where it was accepted.
unfoldable pub start : ℕ → CartRetval → M CartRetval
unfolding rounds
start n retval_ok = do rounds n; pure retval_ok
start n ret = pure ret

-- Reset, insert the cartridge, and run.
unfoldable pub boot : Rom → ℕ → ℕ → M CartRetval
unfolding ctx_reset cart_set start
boot rom data_size n = do ctx_reset; ret ← cart_set rom data_size; start n ret

and_then_assoc :
    {A B C : Type 0} (r : Result (A × Ctx)) (k : A → M B) (l : B → M C)
    → and_then (and_then r k) l ≡ and_then r (λ v. k v >>= l)
and_then_assoc (ok (v, s)) k l = refl
and_then_assoc (fault x) k l = refl

and_then_ap :
    {A B : Type 0} (r : Result (A × Ctx)) {k l : A → M B}
    → ((v : A) (s : Ctx) → k v s ≡ l v s)
    → and_then r k ≡ and_then r l
and_then_ap (ok (v, s)) e = e v s
and_then_ap (fault x) e = refl

pub dispatch_add : (m n : ℕ) (s : Ctx) → dispatch (m + n) s ≡ (do dispatch m; dispatch n) s
unfolding dispatch
dispatch_add zero n s = ap (λ (k : ℕ). dispatch k s) (omega arith)
dispatch_add (suc m) n s =
    let e : suc m + n ≡ suc (m + n) = omega arith in
    ap (λ (k : ℕ). dispatch k s) e
    ∙ (and_then_ap (cpu_step s) (λ _ t. dispatch_add m n t)
        ∙ sym (and_then_assoc (cpu_step s) (λ _. dispatch m) (λ _. dispatch n)))

pub ctx_step-dispatch :
    (num_cycles : ℕ) (s : Ctx)
    → 0 < u32 num_cycles
    → ctx_step num_cycles s ≡ dispatch (u32 num_cycles) s
unfolding ctx_step cpu_run assert
ctx_step-dispatch num_cycles s lt =
    let some_left : (u32 num_cycles == 0) ≡ false = ground arith in
    let once : u32 (u32 num_cycles) ≡ u32 num_cycles = omega arith in
    rw (some_left, once, some_left) refl

pub ctx_step-zero :
    (num_cycles : ℕ) (s : Ctx) → u32 num_cycles ≡ 0 → ctx_step num_cycles s ≡ fault assertion
unfolding ctx_step assert
ctx_step-zero num_cycles s e = rw e refl

-- One instruction.
pub ctx_step_one : (s s' : Ctx) → cpu_step s ≡ ok (tt, s') → ctx_step 1 s ≡ ok (tt, s')
unfolding dispatch
ctx_step_one s s' e = ctx_step-dispatch 1 s (omega arith) ∙ rw e refl

pub ctx_step_fault : (s : Ctx) (x : Fault) → cpu_step s ≡ fault x → ctx_step 1 s ≡ fault x
unfolding dispatch
ctx_step_fault s x e = ctx_step-dispatch 1 s (omega arith) ∙ rw e refl

pub rounds-dispatch : (n : ℕ) (s : Ctx) → rounds n s ≡ dispatch n s
unfolding rounds dispatch
rounds-dispatch zero s = refl
rounds-dispatch (suc n) s = rw (ctx_step-dispatch 1 s (omega arith)) (
    and_then_assoc (cpu_step s) (λ _. dispatch zero) (λ _. rounds n)
    ∙ and_then_ap (cpu_step s) (λ _ t. rounds-dispatch n t))

pub booted-IsReady :
    (log : Log) (cart : Cart) (room : ℕ)
    → IsCart cart
    → room ≤ 128
    → IsReady room
        (with_cart (record (power_up log) { reg = record (power_up log).reg { pc = 0x0100 } }) cart)
booted-IsReady log cart room h le = record {
  bus_ok = record {
    cart_ok = h;
    wram_ok = λ i. omega arith;
    hram_ok = λ i. omega arith;
    serial_ok = record { fits = omega arith; rest = λ i le. refl };
  };
  reg_ok = record {
    b_lt = omega arith;
    c_lt = omega arith;
    d_lt = omega arith;
    e_lt = omega arith;
    h_lt = omega arith;
    l_lt = omega arith;
    a_lt = omega arith;
    f_lt = omega arith;
    f_low = refl;
    pc_lt = omega arith;
    sp_lt = omega arith;
  };
}

module _ (rom : Rom) (data_size n room : ℕ) (log : Log) (bytes : AreBytes rom.byte)
    (holds : data_size ≤ rom.size) (good : verdict rom data_size ≡ retval_ok)
    (few : 2 * n + room ≤ 127) where
  -- From the zeroed context, for an accepted cartridge and so few rounds that two bytes for each leave
  -- room in the serial buffer: reset, insertion and the rounds return `retval_ok` with a valid context,
  -- or end at an opcode without a handler. There is no other fault.
  boot-IsReady :
      ((s : Ctx) × (boot rom data_size n (power_up log) ≡ ok (retval_ok, s)) × IsReady room s)
      ⊎ (boot rom data_size n (power_up log) ≡ fault null_jump)
  unfolding boot start ctx_reset cpu_reset wr16
  boot-IsReady =
      elim (cart_set_lem rom data_size
        (record (power_up log) { reg = record (power_up log).reg { pc = 0x0100 } }) bytes holds) [
          | refused log' ne r _ ↦ absurd (ne good)
          | accepted v r h ↦
              elim (dispatch-IsReady n (2 * n + room + 1) _
                (booted-IsReady log (cart_of rom 0) (2 * n + room + 1) h (omega arith))) [
                  | inl (s, ran, ready) ↦ inl (
                    s,
                    rw (r, good, rounds-dispatch n _, ran) refl,
                    IsReady-le (omega arith) ready,
                  )
                  | inr (inl hole) ↦ inr (rw (r, good, rounds-dispatch n _, hole) refl)
                  | inr (inr (_, c)) ↦
                      absurd (omega (arith, c.before, c.many, c.ready.bus_ok.serial_ok.fits))
                ]
        ]
