-- ===== src/Cart.antt =====
-- Insertion of a cartridge: core/src/cart.c. The buffer that is handed over holds `rom.size` bytes;
-- `data_size` is the size that the caller states.
pub mod Insert
use agoge.Prelude.{
  [], ◌∷◌, ℕ, zero, suc, ◌+◌, ◌-◌, ◌%◌, Bool, true, false, not, ltb, ◌==◌, ◌||◌, if◌then◌else◌, u8,
  some,
}
use agoge.Ctx.{
  Ctx, Cart, Rom, mbc_banked_read_cb_none, mbc_banked_read_cb_mbc1, cart_size_min, cart_size_max,
  lvl_err, ch_cart,
}
use agoge.Step.{Result, ok, fault, M, pure, lift_from, gets, modify_bus, load, ◌>>=◌, ◌>>◌}
use agoge.Printf.{num}
use agoge.Log.{log_message}

pub data CartRetval : Type 0 where
  unsupported_mbc invalid_checksum bad_size retval_ok : CartRetval

abbrev pub hdr_addr_title_beg : ℕ
hdr_addr_title_beg = 0x0134

abbrev pub hdr_addr_cart_type : ℕ
hdr_addr_cart_type = 0x0147

abbrev pub hdr_addr_mask_rom_ver_num : ℕ
hdr_addr_mask_rom_ver_num = 0x014C

abbrev pub hdr_addr_csum : ℕ
hdr_addr_csum = 0x014D

-- `data[addr]`
unfoldable pub rom_data : Rom → ℕ → M ℕ
rom_data rom addr = lift_from (load rom.size rom.byte addr)

-- The loop of `valid_csum`, with `rounds` left: `csum = csum - data[addr] - 1`, in a byte.
unfoldable pub csum_loop : Rom → ℕ → ℕ → ℕ → M ℕ
unfolding rom_data
csum_loop rom zero addr csum = pure csum
csum_loop rom (suc rounds) addr csum = do
  v ← rom_data rom addr
  csum_loop rom rounds (addr + 1) (u8 (csum + 512 - v - 1))

unfoldable pub valid_csum : Rom → M Bool
unfolding csum_loop rom_data
valid_csum rom = do
  csum ← csum_loop rom (hdr_addr_mask_rom_ver_num + 1 - hdr_addr_title_beg) hdr_addr_title_beg 0
  stored ← rom_data rom hdr_addr_csum
  pure (stored == csum)

-- The cases of the switch of `mbc_set`.
unfoldable pub mbc_select : ℕ → M Bool
mbc_select type =
    if type == 0x00
    then (do
      modify_bus (λ bus. record bus {
        cart = record bus.cart { banked_read_cb = some mbc_banked_read_cb_none };
      })
      pure true)
    else if type == 0x01
    then (do
      modify_bus (λ bus. record bus {
        cart = record bus.cart { banked_read_cb = some mbc_banked_read_cb_mbc1; rom_bank = 1 };
      })
      pure true)
    else pure false

unfoldable pub mbc_set : Rom → M Bool
unfolding rom_data mbc_select
mbc_set rom = do type ← rom_data rom hdr_addr_cart_type; mbc_select type

-- What `agoge_core_cart_set` does once the size is accepted.
unfoldable pub cart_insert : Rom → M CartRetval
unfolding valid_csum mbc_set
cart_insert rom = do
  valid ← valid_csum rom
  if not valid then pure invalid_checksum else (do
    supported ← mbc_set rom
    if not supported then pure unsupported_mbc else (do
      modify_bus (λ bus. record bus { cart = record bus.cart { rom = some rom } })
      pure retval_ok))

-- `agoge_core_cart_set`.
unfoldable pub cart_set : Rom → ℕ → M CartRetval
unfolding cart_insert log_message
cart_set rom data_size =
    if ltb data_size cart_size_min || ltb cart_size_max data_size
    then (do
      log_message lvl_err ch_cart "failed to set cart: bad size - got size %zu" (num data_size ∷ [])
      pure bad_size)
    else cart_insert rom
