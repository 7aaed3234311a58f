-- ===== src/Bus/Memory.antt =====
-- The reads of core/src/bus.c, seen as reads of a flat memory.
use agoge.Prelude.{
  ℕ, ◌+◌, ◌-◌, ◌*◌, ◌≤◌, ◌<◌, ◌≡◌, refl, Bool, ltb, if◌then◌else◌, leb, ◌&&◌, ◌||◌, u16, arith,
}
use agoge.Ctx.{
  Ctx, Bus, Cart, Rom, Log, BankedReadCb, mbc_banked_read_cb_none, mbc_banked_read_cb_mbc1,
  lvl_warn, ch_bus,
}
use agoge.Step.{ok}
use agoge.Log.Fits.{logged}
use agoge.Log.Texts.{read_text, log-read_text}
use agoge.Bus.{
  unbanked_rom, banked_rom, unknown, wram, hram, read_jmp_tbl, cart_data, mbc_banked_read,
  banked_rom_read, read_target, bus_read,
}
use agoge.Valid.{IsCart, IsReady}

module _ {cart : Cart} (h : IsCart cart) where
  cart_data_lem : (i : ℕ) → i < 32768 → cart_data cart i ≡ ok (h.inserted.byte i)
  unfolding cart_data
  cart_data_lem i lt = rw h.rom_eq (ground arith)

  mbc_banked_read_lem :
      (cb : BankedReadCb) (addr : ℕ)
      → (cb ≡ mbc_banked_read_cb_mbc1 → cart.rom_bank ≡ 1)
      → 0x4000 ≤ addr
      → addr < 0x8000
      → mbc_banked_read cb cart addr ≡ ok (h.inserted.byte addr)
  unfolding mbc_banked_read
  mbc_banked_read_lem mbc_banked_read_cb_none addr bank lo hi = cart_data_lem addr hi
  mbc_banked_read_lem mbc_banked_read_cb_mbc1 addr bank lo hi =
      let e : (addr - 0x4000) + cart.rom_bank * 0x4000 ≡ addr = rw (bank refl) (omega arith) in
      rw e (cart_data_lem addr hi)

  banked_rom_read_lem :
      (addr : ℕ)
      → 0x4000 ≤ addr
      → addr < 0x8000
      → banked_rom_read cart addr ≡ ok (h.inserted.byte addr)
  unfolding banked_rom_read
  banked_rom_read_lem addr lo hi = ground (arith, h.cb_eq, mbc_banked_read_lem h.cb addr h.bank_eq)

-- The value at an address: the first two banks of the cartridge, the two RAMs, and $FF elsewhere.
abbrev pub memory : Rom → Bus → ℕ → ℕ
memory rom bus a =
    if ltb a 0x8000
    then rom.byte a
    else if ltb a 0xC000
    then 0xFF
    else if ltb a 0xE000
    then bus.wram (a - 0xC000)
    else if ltb a 0xFF80
    then 0xFF
    else if ltb a 0xFFFF
    then bus.hram (a - 0xFF80)
    else 0xFF

-- The addresses that the bus reads from something.
abbrev pub mapped : ℕ → Bool
mapped a = ltb a 0x8000 || (leb 0xC000 a && ltb a 0xE000) || (leb 0xFF80 a && ltb a 0xFFFF)

-- The log after a read at `a`: unchanged where something is mapped, and otherwise with a warning, if
-- warnings of the bus are enabled.
abbrev pub read_log : ℕ → Log → Log
read_log a log = if mapped a then log else logged lvl_warn ch_bus (read_text a) log

module _ {room : ℕ} {s : Ctx} (h : IsReady room s) where
  abbrev rom : Rom
  rom = h.bus_ok.cart_ok.inserted

  read_rom : (a : ℕ) → a < 0x4000 → read_target unbanked_rom a s ≡ ok (rom.byte a, s)
  unfolding read_target
  read_rom a hi = rw (cart_data_lem h.bus_ok.cart_ok a (omega arith))

  read_banked : (a : ℕ) → 0x4000 ≤ a → a < 0x8000 → read_target banked_rom a s ≡ ok (rom.byte a, s)
  unfolding read_target
  read_banked a lo hi = rw (banked_rom_read_lem h.bus_ok.cart_ok a lo hi)

  read_unknown :
      (a : ℕ)
      → read_target unknown a s
        ≡ ok (0xFF, record s { log = logged lvl_warn ch_bus (read_text a) s.log })
  unfolding read_target
  read_unknown a = rw (log-read_text s a) refl

  read_wram :
      (a : ℕ) → 0xC000 ≤ a → a < 0xE000 → read_target wram a s ≡ ok (s.bus.wram (a - 0xC000), s)
  unfolding read_target
  read_wram a lo hi = ground arith

  read_hram :
      (a : ℕ) → 0xFF80 ≤ a → a < 0xFFFF → read_target hram a s ≡ ok (s.bus.hram (a - 0xFF80), s)
  unfolding read_target
  read_hram a lo hi = ground arith

  read_target_lem :
      (a : ℕ)
      → a < 65536
      → read_target (read_jmp_tbl a) a s
        ≡ ok (memory rom s.bus a, record s { log = read_log a s.log })
  unfolding read_jmp_tbl
  read_target_lem a lt =
      ground (arith, read_rom a, read_banked a, read_wram a, read_hram a, read_unknown a)

  -- In a valid context `agoge_core_bus_read` returns what the flat memory holds at the address, under
  -- either mapper, and changes nothing but the log, and that only at an address with nothing there,
  -- where warnings of the bus are enabled.
  pub bus_read_lem :
      (addr : ℕ)
      → bus_read addr s
        ≡ ok (memory rom s.bus (u16 addr), record s { log = read_log (u16 addr) s.log })
  unfolding bus_read
  bus_read_lem addr = read_target_lem (u16 addr) (omega arith)

  pub memory-lt : (a : ℕ) → memory rom s.bus a < 256
  memory-lt a = ground (
    arith,
    h.bus_ok.cart_ok.bytes a,
    h.bus_ok.wram_ok (a - 0xC000),
    h.bus_ok.hram_ok (a - 0xFF80),
  )
