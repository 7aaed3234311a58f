-- ===== src/Valid.antt =====
-- The invariant of the context that every instruction keeps.
use agoge.Prelude.{ℕ, ◌+◌, ◌%◌, ◌<◌, ◌≤◌, ◌≡◌, some}
use agoge.Ctx.{Ctx, Reg, Bus, Cart, Rom, Serial, mbc_banked_read_cb_mbc1, BankedReadCb}

-- Every register holds a value of its width, and the low half of F is zero.
pub record IsReg (r : Reg) : Type 0 where
  pub b_lt : r.b < 256
  pub c_lt : r.c < 256
  pub d_lt : r.d < 256
  pub e_lt : r.e < 256
  pub h_lt : r.h < 256
  pub l_lt : r.l < 256
  pub a_lt : r.a < 256
  pub f_lt : r.f < 256
  pub f_low : r.f % 16 ≡ 0
  pub pc_lt : r.pc < 65536
  pub sp_lt : r.sp < 65536

abbrev pub AreBytes : (ℕ → ℕ) → Type 0
AreBytes array = (i : ℕ) → array i < 256

-- A cartridge is inserted that `agoge_core_cart_set` has accepted.
pub record IsCart (cart : Cart) : Type 0 where
  pub inserted : Rom
  pub cb : BankedReadCb
  pub rom_eq : cart.rom ≡ some inserted
  pub cb_eq : cart.banked_read_cb ≡ some cb
  pub size_ge : 32768 ≤ inserted.size
  pub bytes : AreBytes inserted.byte
  pub bank_eq : cb ≡ mbc_banked_read_cb_mbc1 → cart.rom_bank ≡ 1

-- The buffer is zero from `data_size` on, and `room` more bytes fit into it.
pub record IsSerial (room : ℕ) (serial : Serial) : Type 0 where
  pub fits : serial.data_size + room ≤ 128
  pub rest : (i : ℕ) → serial.data_size ≤ i → serial.chars i ≡ 0

pub record IsBus (room : ℕ) (bus : Bus) : Type 0 where
  pub cart_ok : IsCart bus.cart
  pub wram_ok : AreBytes bus.wram
  pub hram_ok : AreBytes bus.hram
  pub serial_ok : IsSerial room bus.serial

-- The context is valid, and its serial port takes `room` more bytes.
pub record IsReady (room : ℕ) (s : Ctx) : Type 0 where
  pub bus_ok : IsBus room s.bus
  pub reg_ok : IsReg s.reg
