-- ===== src/Bus.antt =====
-- The system bus: core/src/bus.c, with the banked reads of core/src/cart.c that it calls.
pub mod Memory
pub mod Ram
pub mod Line
use agoge.Prelude.{
  u8, u16, ◌%◌, ℕ, zero, suc, ◌+◌, ◌-◌, ◌*◌, Bool, true, false, ltb, ◌==◌, if◌then◌else◌, Option,
  none, some, List, [], ◌∷◌,
}
use agoge.Ctx.{
  Ctx, Bus, Cart, Serial, Rom, BankedReadCb, mbc_banked_read_cb_none, mbc_banked_read_cb_mbc1,
  hram_size, wram_size, serial_size, lvl_warn, lvl_trace, ch_bus,
}
use agoge.Step.{
  Fault, out_of_bounds, Result, ok, fault, M, pure, lift_from, gets, ◌>>=◌, ◌>>◌, modify_bus, load,
  deref,
}
use agoge.Printf.{num, text}
use agoge.Log.{log_enabled, log_message}

-- The labels of the two jump tables.
pub data Target : Type 0 where
  unbanked_rom banked_rom unknown wram hram serial : Target

unfoldable pub read_jmp_tbl : ℕ → Target
read_jmp_tbl addr =
    if ltb addr 0x4000
    then unbanked_rom
    else if ltb addr 0x8000
    then banked_rom
    else if ltb addr 0xC000
    then unknown
    else if ltb addr 0xE000
    then wram
    else if ltb addr 0xFF80
    then unknown
    else if ltb addr 0xFFFF
    then hram
    else unknown

unfoldable pub write_jmp_tbl : ℕ → Target
write_jmp_tbl addr =
    if ltb addr 0xC000
    then unknown
    else if ltb addr 0xE000
    then wram
    else if ltb addr 0xFF01
    then unknown
    else if ltb addr 0xFF02
    then serial
    else if ltb addr 0xFF80
    then unknown
    else if ltb addr 0xFFFF
    then hram
    else unknown

-- `cart.data[i]`.
unfoldable pub cart_data : Cart → ℕ → Result ℕ
cart_data cart i = elim (deref cart.rom) [ ok rom ↦ load rom.size rom.byte i | fault x ↦ fault x ]

unfoldable pub mbc_banked_read : BankedReadCb → Cart → ℕ → Result ℕ
unfolding cart_data
mbc_banked_read mbc_banked_read_cb_none cart addr = cart_data cart addr
mbc_banked_read mbc_banked_read_cb_mbc1 cart addr =
    cart_data cart ((addr - 0x4000) + cart.rom_bank * 0x4000)

-- `cart.banked_read_cb(ctx, addr)`.
unfoldable pub banked_rom_read : Cart → ℕ → Result ℕ
unfolding mbc_banked_read
banked_rom_read cart addr = elim (deref cart.banked_read_cb) [
  | ok cb ↦ mbc_banked_read cb cart addr
  | fault x ↦ fault x
]

unfoldable pub read_target : Target → ℕ → M ℕ
unfolding banked_rom_read log_message
read_target unbanked_rom addr = do cart ← gets (λ s. s.bus.cart); lift_from (cart_data cart addr)
read_target banked_rom addr = do
  cart ← gets (λ s. s.bus.cart)
  lift_from (banked_rom_read cart addr)
read_target wram addr = do
  array ← gets (λ s. s.bus.wram)
  lift_from (load wram_size array (addr - 0xC000))
read_target hram addr = do
  array ← gets (λ s. s.bus.hram)
  lift_from (load hram_size array (addr - 0xFF80))
read_target _ addr = do
  log_message lvl_warn ch_bus "Unknown memory read: $%04X, returning $FF" (num addr ∷ [])
  pure 0xFF

-- `agoge_core_bus_read`. The parameters of the bus functions cut their arguments to 16 and 8 bits.
unfoldable pub bus_read : ℕ → M ℕ
unfolding read_target read_jmp_tbl
bus_read addr = read_target (read_jmp_tbl (u16 addr)) (u16 addr)

abbrev pub update : (ℕ → ℕ) → ℕ → ℕ → ℕ → ℕ
update array i v j = if j == i then v else array j

-- `array[i] = v` for an array of `size` bytes.
abbrev pub store : ℕ → (ℕ → ℕ) → ℕ → ℕ → Result (ℕ → ℕ)
store size array i v = if ltb i size then ok (update array i v) else fault out_of_bounds

-- The bytes that `%s` prints: those before the first NUL among the `n` from `i` on.
unfoldable pub c_string : ℕ → (ℕ → ℕ) → ℕ → Result (List ℕ)
c_string zero array i = fault out_of_bounds
c_string (suc n) array i =
    let rest = c_string n array (i + 1) in
    if array i == 0 then ok [] else elim rest [ ok cs ↦ ok (array i ∷ cs) | fault x ↦ fault x ]

abbrev pub empty_serial : Serial
empty_serial = record { chars = λ _. 0; data_size = 0 }

-- A line is complete: it is logged, where that is enabled, and the buffer is cleared.
unfoldable pub serial_flush : M (Unit {0})
unfolding log_message log_enabled c_string
serial_flush = do
  log ← gets (λ s. s.log)
  chars ← gets (λ s. s.bus.serial.chars)
  if log_enabled log lvl_trace ch_bus
      then (do
        line ← lift_from (c_string serial_size chars 0)
        log_message lvl_trace ch_bus "Serial output: %s" (text line ∷ []))
      else pure tt
  modify_bus (λ bus. record bus { serial = empty_serial })

unfoldable pub serial_write : ℕ → M (Unit {0})
unfolding serial_flush
serial_write v = do
  port ← gets (λ s. s.bus.serial)
  chars ← lift_from (store serial_size port.chars port.data_size v)
  modify_bus
      (λ bus. record bus { serial = record { chars = chars; data_size = port.data_size + 1 } })
  if v == 0x0A then serial_flush else pure tt

unfoldable pub write_target : Target → ℕ → ℕ → M (Unit {0})
unfolding serial_write log_message
write_target wram addr v = do
  array ← gets (λ s. s.bus.wram)
  array' ← lift_from (store wram_size array (addr - 0xC000) v)
  modify_bus (λ bus. record bus { wram = array' })
write_target hram addr v = do
  array ← gets (λ s. s.bus.hram)
  array' ← lift_from (store hram_size array (addr - 0xFF80) v)
  modify_bus (λ bus. record bus { hram = array' })
write_target serial addr v = serial_write v
write_target _ addr v =
    log_message lvl_warn ch_bus "Unknown memory write: $%04X <- $%02X; ignoring"
      (num addr ∷ num v ∷ [])

-- `agoge_core_bus_write`.
unfoldable pub bus_write : ℕ → ℕ → M (Unit {0})
unfolding write_target write_jmp_tbl
bus_write addr v = write_target (write_jmp_tbl (u16 addr)) (u16 addr) (u8 v)

-- `agoge_core_bus_peek`.
unfoldable pub bus_peek : ℕ → M ℕ
unfolding bus_read
bus_peek addr = bus_read addr
