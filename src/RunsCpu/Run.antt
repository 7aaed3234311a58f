-- ===== src/RunsCpu/Run.antt =====
-- Whole instructions, and runs of them, from a valid context.
use agoge.Prelude.{
  ℕ, zero, suc, ◌-◌, ◌*◌, ◌≤◌, ◌<◌, leb, ◌≡◌, refl, true, false, ◌⊎◌, inl, inr, arith, Bool-cases,
}
use agoge.Ctx.{Ctx, Log, Disasm}
use agoge.Step.{ok, fault, null_jump, out_of_bounds}
use agoge.Cpu.Op.{Op, row_0, row_1, row_2, row_3, row_c, row_d, row_e, row_f, ld, alu, prefix_cb}
use agoge.Cpu.Run.{goto_cb, exec_prefix_cb, exec_op, goto_op, cpu_step, dispatch}
use agoge.Valid.{IsReady}
use agoge.Runs.{Runs, Done, Done-Frame, Done-lem, Done-cases, Frame, twin, IsReady-le}
use agoge.RunsCrowded.{IsCrowded, IsCrowded-now, IsCrowded-later}
use agoge.RunsFetch.{read_u8_byte, next_byte}
use agoge.RunsCpu.Handlers.{
  Runs-exec_row_0, Runs-exec_row_1, Runs-exec_row_2, Runs-exec_row_3, Runs-exec_row_c,
  Runs-exec_row_d, Runs-exec_row_e, Runs-exec_row_f,
}
use agoge.RunsCpu.Block.{Runs-exec_ld, Runs-exec_alu, Runs-exec_cb}
use agoge.RunsCpu.Tables.{unhandled, op_tbl_hole, op_tbl_set, cb_tbl_set}

Runs-exec_prefix_cb : Runs 2 exec_prefix_cb
unfolding exec_prefix_cb goto_cb
Runs-exec_prefix_cb = record {
  run = λ before room s log e le h.
      let (v, s', log', p, p', lt, at, h', kept) = read_u8_byte h log e in
      let (op, found, numbered) = cb_tbl_set v lt in
      rw (p, p', found)
        (Done-Frame kept ((Runs-exec_cb op numbered).run before room s' log' e le h'));
}

Runs-exec_op : (op : Op) → Runs 2 (exec_op op)
unfolding exec_op
Runs-exec_op (row_0 op) = Runs-exec_row_0 op
Runs-exec_op (row_1 op) = Runs-exec_row_1 op
Runs-exec_op (row_2 op) = Runs-exec_row_2 op
Runs-exec_op (row_3 op) = Runs-exec_row_3 op
Runs-exec_op (row_c op) = Runs-exec_row_c op
Runs-exec_op (row_d op) = Runs-exec_row_d op
Runs-exec_op (row_e op) = Runs-exec_row_e op
Runs-exec_op (row_f op) = Runs-exec_row_f op
Runs-exec_op (ld x y) = Runs-exec_ld 1 x y
Runs-exec_op (alu op y) = Runs-exec_alu 2 op y
Runs-exec_op prefix_cb = Runs-exec_prefix_cb

cpu_step-Done :
    (before room : ℕ) (s : Ctx) (log : Log) (e : Disasm) (h : IsReady before s)
    → room ≤ before - 2
    → unhandled (next_byte h) ≡ false
    → Done s e room (cpu_step s) (cpu_step (twin log e s))
unfolding cpu_step goto_op
cpu_step-Done before room s log e h le handled =
    let (v, s', log', p, p', lt, at, h', kept) = read_u8_byte h log e in
    let (op, found) = op_tbl_set v lt (rw at handled) in
    rw (p, p', found) (Done-Frame kept ((Runs-exec_op op).run before room s' log' e le h'))

-- While the port holds fewer than 126 bytes there is room for the two bytes of an instruction and a NUL.
abbrev room_left : Ctx → ℕ
room_left s = 128 - s.bus.serial.data_size

abbrev roomy : {room : ℕ} {s : Ctx} → IsReady room s → IsReady (room_left s) s
roomy h = record {
  bus_ok = record {
    cart_ok = h.bus_ok.cart_ok;
    wram_ok = h.bus_ok.wram_ok;
    hram_ok = h.bus_ok.hram_ok;
    serial_ok = record { fits = omega arith; rest = h.bus_ok.serial_ok.rest };
  };
  reg_ok = h.reg_ok;
}

-- An instruction that returns leaves the disassembler alone and logs with a prefix only; where the port
-- holds fewer than 126 bytes it does, and the same from a twin.
pub cpu_step-twin :
    (room : ℕ) (s : Ctx) (log : Log) (e : Disasm) (h : IsReady room s)
    → unhandled (next_byte h) ≡ false
    → s.bus.serial.data_size < 126
    → (s' : Ctx) × (log' : Log) × (cpu_step s ≡ ok (tt, s'))
      × (cpu_step (twin log e s) ≡ ok (tt, twin log' e s'))
      × IsReady (room - 2) s'
      × Frame s s'
cpu_step-twin room s log e h handled few =
    let (v, s', log', p, p', h', kept) =
      Done-lem (omega arith)
        (cpu_step-Done (room_left s) (room_left s - 2) s log e (roomy h) (omega arith) handled) in
    (s', log', p, p', IsReady-le (omega (arith, h.bus_ok.serial_ok.fits)) h', kept)

-- An instruction returns, or it is one that fills the port.
pub cpu_step-cases :
    (room : ℕ) (s : Ctx) (h : IsReady room s)
    → unhandled (next_byte h) ≡ false
    → ((s' : Ctx) × (cpu_step s ≡ ok (tt, s')) × IsReady (room - 2) s' × Frame s s')
      ⊎ ((126 ≤ s.bus.serial.data_size) × (cpu_step s ≡ fault out_of_bounds))
cpu_step-cases room s h handled = elim (Bool-cases (leb 126 s.bus.serial.data_size)) [
  | inr few ↦
      let (s', _, e, _, h', kept) = cpu_step-twin room s s.log s.disasm h handled (ground arith) in
      inl (s', e, h', kept)
  | inl many ↦
      elim (Done-cases (cpu_step-Done room (room - 2) s s.log s.disasm h (omega arith) handled)) [
        | inl (v, s', e, h', kept) ↦ inl (s', e, h', kept)
        | inr over ↦ inr (ground arith, over)
      ]
]

-- From a valid context with room for `room` bytes at the serial port, where the program counter stands at
-- an opcode with a handler, an instruction returns, and the context that it leaves is valid, with room for
-- two bytes less, or for none where `room` is below two; or the port holds 126 bytes or more, and the
-- instruction ends in an access past the end of the port.
pub cpu_step-IsReady :
    (room : ℕ) (s : Ctx) (h : IsReady room s)
    → unhandled (next_byte h) ≡ false
    → ((s' : Ctx) × (cpu_step s ≡ ok (tt, s')) × IsReady (room - 2) s')
      ⊎ ((126 ≤ s.bus.serial.data_size) × (cpu_step s ≡ fault out_of_bounds))
cpu_step-IsReady room s h handled = elim (cpu_step-cases room s h handled) [
  | inl (s', e, h', _) ↦ inl (s', e, h')
  | inr over ↦ inr over
]

-- In a valid context, at STOP, HALT and the codes that the processor does not have, an instruction jumps through an
-- entry of the table that is not set.
pub cpu_step-null_jump :
    (room : ℕ) (s : Ctx) (h : IsReady room s)
    → unhandled (next_byte h) ≡ true
    → cpu_step s ≡ fault null_jump
unfolding cpu_step goto_op
cpu_step-null_jump room s h hole =
    let (v, s', _, e, _, lt, at, h', kept) = read_u8_byte h s.log s.disasm in
    rw (e, op_tbl_hole v lt (rw at hole)) refl

-- From a valid context with room for `room` bytes at the serial port, a run of `n` instructions returns
-- with a valid context, with room for two bytes less for each, or for none where `room` is below that; or
-- it ends at an opcode without a handler;
-- or it comes, after fewer instructions, to a valid context where the port holds 126 bytes or more, and
-- ends in an access past the end of the port. It never ends in another fault.
pub dispatch-IsReady :
    (n room : ℕ) (s : Ctx)
    → IsReady room s
    → ((s' : Ctx) × (dispatch n s ≡ ok (tt, s')) × IsReady (room - 2 * n) s')
      ⊎ ((dispatch n s ≡ fault null_jump)
          ⊎ ((dispatch n s ≡ fault out_of_bounds) × IsCrowded dispatch n room s))
unfolding dispatch
dispatch-IsReady zero room s h = inl (s, refl, IsReady-le (omega arith) h)
dispatch-IsReady (suc n) room s h = elim (Bool-cases (unhandled (next_byte h))) [
  | inl hole ↦ inr (inl (rw (cpu_step-null_jump room s h hole) refl))
  | inr set ↦ elim (cpu_step-IsReady room s h set) [
    | inr (many, over) ↦ inr (inr (rw over refl, IsCrowded-now dispatch n h many refl))
    | inl (t, ran, h₁) ↦ elim (dispatch-IsReady n (room - 2) t h₁) [
      | inl (s', e, h') ↦ inl (s', rw ran e, IsReady-le (omega arith) h')
      | inr (inl hole) ↦ inr (inl (rw ran hole))
      | inr (inr (over, c)) ↦ inr (
          inr (
            rw ran over,
            IsCrowded-later dispatch n (room - 2) t (omega arith) (λ k. rw ran refl) c,
          ))
    ]
  ]
]
