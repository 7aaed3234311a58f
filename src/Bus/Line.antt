-- ===== src/Bus/Line.antt =====
-- The serial port of core/src/bus.c, line by line.
use agoge.Prelude.{
  ap, ◌∙◌, ℕ, zero, suc, ◌+◌, ◌≤◌, ◌<◌, ◌≡◌, refl, true, false, ltb, ◌==◌, List, [], ◌∷◌, ◌++◌,
  length, length-append, arith, u8, Bool-cases, inl, inr,
}
use agoge.Ctx.{Ctx, Serial, Log, serial_size, lvl_trace, ch_bus}
use agoge.Step.{ok, fault, out_of_bounds, M, pure, ◌>>◌}
use agoge.Log.{log_enabled}
use agoge.Log.Fits.{logged, logged-off}
use agoge.Log.Texts.{line_text, log-line_text}
use agoge.Bus.{
  bus_write, write_target, write_jmp_tbl, serial_write, serial_flush, c_string, update,
  empty_serial,
}

-- The bytes of a list, written to the serial port in turn.
unfoldable pub send : List ℕ → M (Unit {0})
send [] = pure tt
send (c ∷ cs) = do bus_write 0xFF01 c; send cs

-- A byte of a line's text: neither NUL nor the end of the line.
abbrev pub IsText : List ℕ → Type 0
IsText [] = Unit {0}
IsText (c ∷ cs) = (c < 256) × ((c == 0) ≡ false) × ((c == 0x0A) ≡ false) × IsText cs

abbrev appended : Serial → List ℕ → Serial
appended port [] = port
appended port (c ∷ cs) =
    appended (record { chars = update port.chars port.data_size c; data_size = port.data_size + 1 })
      cs

abbrev pub with_serial : Ctx → Serial → Ctx
with_serial s port = record s { bus = record s.bus { serial = port } }

-- From `i` on the array holds the bytes of the list.
abbrev Holds : (ℕ → ℕ) → ℕ → List ℕ → Type 0
Holds array i [] = Unit {0}
Holds array i (c ∷ cs) = (array i ≡ c) × Holds array (i + 1) cs

store_text :
    (c : ℕ) (s : Ctx)
    → c < 256
    → (c == 0x0A) ≡ false
    → s.bus.serial.data_size < 128
    → bus_write 0xFF01 c s
      ≡ ok (
        tt,
        with_serial s (record {
          chars = update s.bus.serial.chars s.bus.serial.data_size c;
          data_size = s.bus.serial.data_size + 1;
        }),
      )
unfolding bus_write write_jmp_tbl write_target serial_write
store_text c s lt text room =
    let byte : u8 c ≡ c = omega arith in
    let fits : ltb s.bus.serial.data_size serial_size ≡ true = ground arith in
    rw (byte, fits, text) refl

send_text :
    (cs : List ℕ) (s : Ctx)
    → IsText cs
    → s.bus.serial.data_size + length cs ≤ 128
    → send cs s ≡ ok (tt, with_serial s (appended s.bus.serial cs))
unfolding send
send_text [] s _ room = refl
send_text (c ∷ cs) s (lt, _, text, rest) room =
    rw (store_text c s lt text (omega arith)) (send_text cs _ rest (omega arith))

appended-below :
    (cs : List ℕ) (port : Serial) (i : ℕ)
    → i < port.data_size
    → (appended port cs).chars i ≡ port.chars i
appended-below [] port i lt = refl
appended-below (c ∷ cs) port i lt =
    appended-below cs
      (record { chars = update port.chars port.data_size c; data_size = port.data_size + 1 }) i
      (omega arith)
    ∙ ground arith

appended-Holds :
    (cs : List ℕ) (port : Serial) (n : ℕ) → port.data_size ≡ n → Holds (appended port cs).chars n cs
appended-Holds [] port n e = tt
appended-Holds (c ∷ cs) port n e =
    let port' : Serial = record {
      chars = update port.chars port.data_size c;
      data_size = port.data_size + 1;
    } in
    (
      appended-below cs port' n (omega arith) ∙ ground arith,
      appended-Holds cs port' (n + 1) (omega arith),
    )

appended-above :
    (cs : List ℕ) (port : Serial) (i : ℕ)
    → port.data_size + length cs ≤ i
    → (appended port cs).chars i ≡ port.chars i
appended-above [] port i le = refl
appended-above (c ∷ cs) port i le =
    appended-above cs
      (record { chars = update port.chars port.data_size c; data_size = port.data_size + 1 }) i
      (omega arith)
    ∙ ground arith

appended-data_size :
    (cs : List ℕ) (port : Serial) → (appended port cs).data_size ≡ port.data_size + length cs
appended-data_size [] port = omega arith
appended-data_size (c ∷ cs) port = appended-data_size cs _ ∙ omega arith

-- A text, the end of the line and a NUL are read back as the line.
c_string-line :
    (cs : List ℕ) (n i : ℕ) (array : ℕ → ℕ)
    → IsText cs
    → Holds array i cs
    → array (i + length cs) ≡ 0x0A
    → array (i + length cs + 1) ≡ 0
    → length cs + 2 ≤ n
    → c_string n array i ≡ ok (cs ++ (0x0A ∷ []))
unfolding c_string
c_string-line [] zero i array _ _ eol nul room = absurd (omega arith)
c_string-line [] (suc zero) i array _ _ eol nul room = absurd (omega arith)
c_string-line [] (suc (suc n)) i array _ _ eol nul room =
    let here : array i ≡ 0x0A = ap array (omega arith) ∙ eol in
    let next : array (i + 1) ≡ 0 = ap array (omega arith) ∙ nul in
    rw (here, next) (ap (λ (x : ℕ). ok (x ∷ [])) here)
c_string-line (c ∷ cs) zero i array _ _ eol nul room = absurd (omega arith)
c_string-line (c ∷ cs) (suc n) i array (lt, nz, text, rest) (here, holds) eol nul room =
    rw
      (
        here,
        nz,
        c_string-line cs n (i + 1) array rest holds (ap array (omega arith) ∙ eol)
            (ap array (omega arith) ∙ nul) (omega arith),
      )
      (ap (λ (x : ℕ). ok (x ∷ (cs ++ (0x0A ∷ [])))) here)

update-Holds :
    (cs : List ℕ) (array : ℕ → ℕ) (i k v : ℕ)
    → Holds array i cs
    → i + length cs ≤ k
    → Holds (update array k v) i cs
update-Holds [] array i k v _ le = tt
update-Holds (c ∷ cs) array i k v (here, holds) le =
    (ground (arith, here), update-Holds cs array (i + 1) k v holds (omega arith))

-- The log after a line.
abbrev pub line_log : List ℕ → Log → Log
line_log line log = logged lvl_trace ch_bus (line_text line) log

module _ (cs : List ℕ) (s : Ctx) (text : IsText cs) (room : length cs ≤ 126)
    (empty : s.bus.serial ≡ empty_serial) where
  -- A line of at most 126 bytes, none of them a NUL or an end of line, is sent to an empty port and
  -- ended: where traces of the bus are enabled the log gets one message, the prefixes and exactly that line, and
  -- the port is empty again; nothing else changes.
  pub send_line :
      (do send cs; bus_write 0xFF01 0x0A) s
      ≡ ok (tt, record (with_serial s empty_serial) { log = line_log (cs ++ (0x0A ∷ [])) s.log })
  unfolding bus_write write_jmp_tbl write_target serial_write serial_flush
  send_line =
      let port : Serial = appended s.bus.serial cs in
      let start : s.bus.serial.data_size ≡ 0 = ap (λ x. x.data_size) empty in
      let size : port.data_size ≡ length cs = omega (arith, appended-data_size cs s.bus.serial) in
      let fits : ltb port.data_size serial_size ≡ true = ground arith in
      let array : ℕ → ℕ = update port.chars port.data_size 0x0A in
      let held : Holds port.chars 0 cs = appended-Holds cs s.bus.serial 0 start in
      let rest : port.chars (0 + length cs + 1) ≡ 0 =
        appended-above cs s.bus.serial (0 + length cs + 1) (omega arith)
        ∙ ap (λ x. x.chars (0 + length cs + 1)) empty in
      let eol : array (0 + length cs) ≡ 0x0A = ground arith in
      let nul : array (0 + length cs + 1) ≡ 0 = ground (arith, rest) in
      let line : c_string serial_size array 0 ≡ ok (cs ++ (0x0A ∷ [])) =
        c_string-line cs serial_size 0 array text
          (update-Holds cs port.chars 0 port.data_size 0x0A held (omega arith)) eol nul
          (omega arith) in
      let short : length (cs ++ (0x0A ∷ [])) ≤ 128 = omega (arith, length-append cs (0x0A ∷ [])) in
      elim (Bool-cases (log_enabled s.log lvl_trace ch_bus)) [
        | inl on ↦
            rw (send_text cs s text (omega arith), fits, on, line, log-line_text _ _ short) refl
        | inr off ↦
            rw
              (
                send_text cs s text (omega arith),
                fits,
                off,
                logged-off lvl_trace ch_bus (line_text (cs ++ (0x0A ∷ []))) s.log off,
              )
              refl
      ]

-- From a port that holds at most 128 bytes, sending bytes without a NUL or an end of line, so many that
-- the port would hold more than 128, ends in a write past the end of its buffer.
pub send_overflow :
    (cs : List ℕ) (s : Ctx)
    → IsText cs
    → s.bus.serial.data_size ≤ 128
    → 128 < s.bus.serial.data_size + length cs
    → send cs s ≡ fault out_of_bounds
unfolding send bus_write write_jmp_tbl write_target serial_write
send_overflow [] s _ held over = absurd (omega arith)
send_overflow (c ∷ cs) s (lt, nz, text, rest) held over =
    elim (Bool-cases (ltb s.bus.serial.data_size 128)) [
      | inl fits ↦
          rw (store_text c s lt text (ground arith))
            (send_overflow cs _ rest (ground arith) (omega arith))
      | inr full ↦ rw full refl
    ]
