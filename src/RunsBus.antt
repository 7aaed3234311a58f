-- ===== src/RunsBus.antt =====
-- Validity of the context under the bus accesses of core/src/bus.c and instruction fetches.
use agoge.Prelude.{
  ◌⊎◌, length, [], ◌∷◌, ℕ, zero, suc, ◌+◌, ◌-◌, ◌≤◌, ◌<◌, ◌≡◌, refl, Bool, true, false, ltb, ◌==◌,
  if◌then◌else◌, u8, u16, arith, List, inl, inr, Bool-cases,
}
use agoge.Ctx.{Ctx, Log, Disasm, serial_size, wram_size, hram_size, lvl_trace, lvl_warn, ch_bus}
use agoge.Log.Fits.{logged, with_log}
use agoge.Step.{ok, fault, out_of_bounds}
use agoge.Log.{log_enabled}
use agoge.Log.Texts.{read_text, write_text, line_text, log-write_text, log-line_text}
use agoge.Bus.{
  wram, hram, serial, write_jmp_tbl, write_target, bus_read, bus_write, update, serial_write,
  serial_flush, c_string, Target, unknown, empty_serial,
}
use agoge.Bus.Memory.{mapped, read_log, bus_read_lem}
use agoge.Valid.{IsReady, AreBytes}
use agoge.Runs.{Runs, Done, done, done_full, spilled, Done-Frame, twin, IsReady-le}
use agoge.Log.Sends.{Sends, nothing, logged-Sends}

logged-IsReady :
    {room : ℕ} {s : Ctx} (log : Log) → IsReady room s → IsReady room (record s { log = log })
logged-IsReady log h = record { bus_ok = h.bus_ok; reg_ok = h.reg_ok }

abbrev pub twin-IsReady :
    {room : ℕ} {s : Ctx} (log : Log) (e : Disasm) → IsReady room s → IsReady room (twin log e s)
twin-IsReady log e h = record { bus_ok = h.bus_ok; reg_ok = h.reg_ok }

pub read_log-Sends : (a : ℕ) (log : Log) → Sends log (read_log a log)
read_log-Sends a log = elim (Bool-cases (mapped a)) [
  | inl known ↦ rw known nothing
  | inr other ↦ rw other (logged-Sends lvl_warn ch_bus (read_text a) log refl)
]

pub Runs-bus_read : (n addr : ℕ) → Runs n (bus_read addr)
Runs-bus_read n addr = record {
  run = λ before room s log e le h.
      let h' = IsReady-le {n = room} (omega arith) h in
      rw (bus_read_lem h' addr, bus_read_lem (twin-IsReady log e h') addr)
        (done _ (record s { log = read_log (u16 addr) s.log }) (read_log (u16 addr) log)
          (record { same_disasm = refl; sends = read_log-Sends (u16 addr) s.log })
          (logged-IsReady _ h'));
}

-- A NUL among the `n` bytes from `i` on ends the text.
c_string-total :
    (n i k : ℕ) (array : ℕ → ℕ)
    → array k ≡ 0
    → i ≤ k
    → k < i + n
    → (cs : List ℕ) × (c_string n array i ≡ ok cs) × (length cs ≤ n)
unfolding c_string
c_string-total zero i k array e lo hi = absurd (omega arith)
c_string-total (suc n) i k array e lo hi = elim (Bool-cases (array i == 0)) [
  | inl z ↦ ([], rw z refl, omega arith)
  | inr nz ↦
      let (cs, p, le) = c_string-total n (i + 1) k array e (ground arith) (omega arith) in
      (array i ∷ cs, rw (nz, p) refl, omega arith)
]

update-AreBytes : (array : ℕ → ℕ) (i v : ℕ) → AreBytes array → v < 256 → AreBytes (update array i v)
update-AreBytes array i v h lt j = ground (arith, h j)

cleared-IsReady :
    {room : ℕ} {s : Ctx} (log : Log)
    → IsReady room s
    → IsReady room (record s { log = log; bus = record s.bus { serial = empty_serial } })
cleared-IsReady log h = record {
  bus_ok = record {
    cart_ok = h.bus_ok.cart_ok;
    wram_ok = h.bus_ok.wram_ok;
    hram_ok = h.bus_ok.hram_ok;
    serial_ok = record { fits = omega arith; rest = λ i le. refl };
  };
  reg_ok = h.reg_ok;
}

-- What an end of line leaves.
abbrev flushed : Log → Ctx → Ctx
flushed log s = record s { log = log; bus = record s.bus { serial = empty_serial } }

serial_flush_lem :
    {room : ℕ} (s : Ctx)
    → IsReady (suc room) s
    → (log : Log) × (serial_flush s ≡ ok (tt, flushed log s)) × Sends s.log log
unfolding serial_flush
serial_flush_lem s h = elim (Bool-cases (log_enabled s.log lvl_trace ch_bus)) [
  | inl on ↦
      let ser = h.bus_ok.serial_ok in
      let (cs, p, short) =
        c_string-total serial_size 0 s.bus.serial.data_size s.bus.serial.chars
          (ser.rest _ (omega arith)) (omega arith) (omega arith) in
      (
        logged lvl_trace ch_bus (line_text cs) s.log,
        rw (on, p, log-line_text s cs short) refl,
        logged-Sends lvl_trace ch_bus (line_text cs) s.log refl,
      )
  | inr off ↦ (s.log, rw off refl, nothing)
]

-- Without a NUL the text of the line ends past the buffer.
c_string-cases :
    (n i : ℕ) (array : ℕ → ℕ)
    → ((cs : List ℕ) × (c_string n array i ≡ ok cs) × (length cs ≤ n))
      ⊎ (c_string n array i ≡ fault out_of_bounds)
unfolding c_string
c_string-cases zero i array = inr refl
c_string-cases (suc n) i array = elim (Bool-cases (array i == 0)) [
  | inl z ↦ inl ([], rw z refl, omega arith)
  | inr nz ↦ elim (c_string-cases n (i + 1) array) [
    | inl (cs, p, le) ↦ inl (array i ∷ cs, rw (nz, p) refl, omega arith)
    | inr p ↦ inr (rw (nz, p) refl)
  ]
]

serial_flush_full :
    (s : Ctx)
    → ((log : Log) × (serial_flush s ≡ ok (tt, flushed log s)) × Sends s.log log)
      ⊎ (serial_flush s ≡ fault out_of_bounds)
unfolding serial_flush
serial_flush_full s = elim (Bool-cases (log_enabled s.log lvl_trace ch_bus)) [
  | inl on ↦ elim (c_string-cases serial_size 0 s.bus.serial.chars) [
    | inl (cs, p, short) ↦ inl (
      logged lvl_trace ch_bus (line_text cs) s.log,
      rw (on, p, log-line_text s cs short) refl,
      logged-Sends lvl_trace ch_bus (line_text cs) s.log refl,
    )
    | inr p ↦ inr (rw (on, p) refl)
  ]
  | inr off ↦ inl (s.log, rw off refl, nothing)
]

serial_flush-Done :
    (room : ℕ) (s : Ctx) (log : Log) (e : Disasm)
    → IsReady room s
    → Done s e room (serial_flush s) (serial_flush (twin log e s))
serial_flush-Done zero s log e h = elim (serial_flush_full s) [
  | inl (log₁, e₁, sent) ↦ rw e₁ (
      done_full tt (flushed log₁ s) refl (record { same_disasm = refl; sends = sent })
        (cleared-IsReady log₁ h))
  | inr over ↦ rw over (spilled refl)
]
serial_flush-Done (suc room) s log e h =
    let (log₁, e₁, sent) = serial_flush_lem s h in
    let (log₂, e₂, _) = serial_flush_lem (twin log e s) (twin-IsReady log e h) in
    rw (e₁, e₂)
      (done tt (flushed log₁ s) log₂ (record { same_disasm = refl; sends = sent })
        (cleared-IsReady log₁ h))

appended-IsReady :
    {room before : ℕ} {s : Ctx} (v : ℕ)
    → s.bus.serial.data_size + 1 + room ≤ 128
    → IsReady before s
    → IsReady room (record s {
      bus = record s.bus {
        serial = record {
          chars = update s.bus.serial.chars s.bus.serial.data_size v;
          data_size = s.bus.serial.data_size + 1;
        };
      };
    })
appended-IsReady {s = s} v le h = record {
  bus_ok = record {
    cart_ok = h.bus_ok.cart_ok;
    wram_ok = h.bus_ok.wram_ok;
    hram_ok = h.bus_ok.hram_ok;
    serial_ok = record {
      fits = omega arith;
      rest = λ i p. ground (arith, h.bus_ok.serial_ok.rest i);
    };
  };
  reg_ok = h.reg_ok;
}

Runs-serial_write : (n v : ℕ) → Runs (suc n) (serial_write v)
unfolding serial_write
Runs-serial_write n v = record {
  run = λ before room s log e le h.
      let size : s.bus.serial.data_size + before ≤ 128 = h.bus_ok.serial_ok.fits in
      elim (Bool-cases (ltb s.bus.serial.data_size serial_size)) [
        | inr over ↦
            let none_left : 128 ≤ s.bus.serial.data_size = ground arith in
            rw over (spilled (omega arith))
        | inl fits ↦
            let below : s.bus.serial.data_size < 128 = ground arith in
            let next = appended-IsReady {room = room} v (omega arith) h in
            elim (Bool-cases (v == 0x0A)) [
              | inl eol ↦
                  rw (fits, eol)
                    (Done-Frame (record { same_disasm = refl; sends = nothing })
                      (serial_flush-Done room _ log e next))
              | inr other ↦
                  rw (fits, other)
                    (done tt _ log (record { same_disasm = refl; sends = nothing }) next)
            ]
      ];
}

module _ (n addr v : ℕ) (byte : v < 256) where
  Runs-wram_write : 0xC000 ≤ addr → addr < 0xE000 → Runs n (write_target wram addr v)
  unfolding write_target
  Runs-wram_write lo hi = record {
    run = λ before room s log e le h.
        let h' = IsReady-le {n = room} (omega arith) h in
        let fits : ltb (addr - 0xC000) wram_size ≡ true = ground arith in
        rw fits (
          done tt _ log (record { same_disasm = refl; sends = nothing })
            (record {
              bus_ok = record {
                cart_ok = h'.bus_ok.cart_ok;
                wram_ok = update-AreBytes s.bus.wram (addr - 0xC000) v h.bus_ok.wram_ok byte;
                hram_ok = h'.bus_ok.hram_ok;
                serial_ok = h'.bus_ok.serial_ok;
              };
              reg_ok = h'.reg_ok;
            }));
  }

  Runs-hram_write : 0xFF80 ≤ addr → addr < 0xFFFF → Runs n (write_target hram addr v)
  unfolding write_target
  Runs-hram_write lo hi = record {
    run = λ before room s log e le h.
        let h' = IsReady-le {n = room} (omega arith) h in
        let fits : ltb (addr - 0xFF80) hram_size ≡ true = ground arith in
        rw fits (
          done tt _ log (record { same_disasm = refl; sends = nothing })
            (record {
              bus_ok = record {
                cart_ok = h'.bus_ok.cart_ok;
                wram_ok = h'.bus_ok.wram_ok;
                hram_ok = update-AreBytes s.bus.hram (addr - 0xFF80) v h.bus_ok.hram_ok byte;
                serial_ok = h'.bus_ok.serial_ok;
              };
              reg_ok = h'.reg_ok;
            }));
  }

-- Where the write table leads, by the address.
data WriteCase (addr : ℕ) : Target → Type 0 where
  to_wram : 0xC000 ≤ addr → addr < 0xE000 → WriteCase addr wram
  to_hram : 0xFF80 ≤ addr → addr < 0xFFFF → WriteCase addr hram
  to_serial : addr ≡ 0xFF01 → WriteCase addr serial
  to_nothing : WriteCase addr unknown

WriteCase-if :
    {addr : ℕ} (x : Bool) (t u : Target)
    → (x ≡ true → WriteCase addr t)
    → (x ≡ false → WriteCase addr u)
    → WriteCase addr (if x then t else u)
WriteCase-if true t u p q = p refl
WriteCase-if false t u p q = q refl

write_case : (addr : ℕ) → WriteCase addr (write_jmp_tbl addr)
unfolding write_jmp_tbl
write_case addr =
    WriteCase-if (ltb addr 0xC000) _ _ (λ _. to_nothing)
      λ e₀.
        WriteCase-if (ltb addr 0xE000) _ _ (λ e. to_wram (ground arith) (ground arith))
          λ e₁.
            WriteCase-if (ltb addr 0xFF01) _ _ (λ _. to_nothing)
              λ e₂.
                WriteCase-if (ltb addr 0xFF02) _ _ (λ e. to_serial (ground arith))
                  λ e₃.
                    WriteCase-if (ltb addr 0xFF80) _ _ (λ _. to_nothing)
                      λ e₄.
                        WriteCase-if (ltb addr 0xFFFF) _ _
                          (λ e. to_hram (ground arith) (ground arith)) λ e₅. to_nothing

Runs-write_target :
    (n addr v : ℕ) (t : Target) → v < 256 → WriteCase addr t → Runs (suc n) (write_target t addr v)
unfolding write_target
Runs-write_target n addr v _ byte (to_wram lo hi) = Runs-wram_write (suc n) addr v byte lo hi
Runs-write_target n addr v _ byte (to_hram lo hi) = Runs-hram_write (suc n) addr v byte lo hi
Runs-write_target n addr v _ byte (to_serial e) = Runs-serial_write n v
Runs-write_target n addr v _ byte to_nothing = record {
  run = λ before room s log e le h.
      rw (log-write_text s addr v, log-write_text (twin log e s) addr v)
        (done tt (with_log s (logged lvl_warn ch_bus (write_text addr v) s.log))
          (logged lvl_warn ch_bus (write_text addr v) log)
          (record {
            same_disasm = refl;
            sends = logged-Sends lvl_warn ch_bus (write_text addr v) s.log refl;
          })
          (logged-IsReady _ (IsReady-le {n = room} (omega arith) h)));
}

pub Runs-bus_write : (n addr v : ℕ) → Runs (suc n) (bus_write addr v)
unfolding bus_write
Runs-bus_write n addr v =
    Runs-write_target n (u16 addr) (u8 v) _ (omega arith) (write_case (u16 addr))
