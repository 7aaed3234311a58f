-- ===== src/Cart/Insert.antt =====
-- What `agoge_core_cart_set` of core/src/cart.c answers, and the context that it leaves.
use agoge.Prelude.{
  ℕ, zero, suc, ◌+◌, ◌-◌, ◌%◌, ◌≤◌, ◌<◌, ◌≡◌, refl, sym, subst, ap, Bool, true, false, not, ltb,
  leb, ◌==◌, ◌&&◌, ◌||◌, if◌then◌else◌, u8, some, arith, Bool-cases, inl, inr, ◌≢◌,
}
use agoge.Ctx.{
  Ctx, Cart, Rom, BankedReadCb, mbc_banked_read_cb_none, mbc_banked_read_cb_mbc1, cart_size_min,
  cart_size_max, lvl_err, ch_cart, Log,
}
use agoge.Step.{Result, ok}
use agoge.Log.Fits.{logged, with_log}
use agoge.Log.Texts.{size_text, log-size_text}
use agoge.Cart.{
  CartRetval, unsupported_mbc, invalid_checksum, bad_size, retval_ok, rom_data, csum_loop,
  valid_csum, mbc_select, mbc_set, cart_insert, cart_set,
}
use agoge.Log.Sends.{Sends, nothing, logged-Sends}
use agoge.Valid.{AreBytes, IsCart}

-- The sum of `n` bytes from `i` on.
unfoldable pub byte_sum : (ℕ → ℕ) → ℕ → ℕ → ℕ
byte_sum byte zero i = 0
byte_sum byte (suc n) i = byte i + byte_sum byte n (i + 1)

-- The header's bytes, their number and the stored checksum add up to a multiple of 256.
abbrev pub checksum_ok : (ℕ → ℕ) → Bool
checksum_ok byte = (byte_sum byte 25 0x0134 + 25 + byte 0x014D) % 256 == 0

checksum_test :
    (c sum stored : ℕ)
    → (c + sum + 25) % 256 ≡ 0
    → c < 256
    → stored < 256
    → (stored == c) ≡ ((sum + 25 + stored) % 256 == 0)
checksum_test c sum stored e h k = ground arith

module _ (rom : Rom) (bytes : AreBytes rom.byte) (s : Ctx) where
  rom_data_lem : (i : ℕ) → i < rom.size → rom_data rom i s ≡ ok (rom.byte i, s)
  unfolding rom_data
  rom_data_lem i lt = ground arith

  csum_loop_lem :
      (n i csum : ℕ)
      → i + n ≤ rom.size
      → csum < 256
      → (c : ℕ) × (csum_loop rom n i csum s ≡ ok (c, s))
        × ((c + byte_sum rom.byte n i + n) % 256 ≡ csum)
        × (c < 256)
  unfolding csum_loop byte_sum
  csum_loop_lem zero i csum h lt = (csum, refl, omega arith, lt)
  csum_loop_lem (suc n) i csum h lt =
      let (c, p, q, b) =
        csum_loop_lem n (i + 1) (u8 (csum + 512 - rom.byte i - 1)) (omega arith) (omega arith) in
      (c, rw (rom_data_lem i (omega arith)) p, omega (arith, bytes i), b)

  valid_csum_lem : 0x014D < rom.size → valid_csum rom s ≡ ok (checksum_ok rom.byte, s)
  unfolding valid_csum
  valid_csum_lem h =
      let (c, p, q, b) = csum_loop_lem 25 0x0134 0 (omega arith) (omega arith) in
      rw (p, rom_data_lem 0x014D h)
        (ap (λ x. ok (x, s))
          (checksum_test c (byte_sum rom.byte 25 0x0134) (rom.byte 0x014D) q b (bytes 0x014D)))

abbrev pub size_ok : ℕ → Bool
size_ok data_size = leb cart_size_min data_size && leb data_size cart_size_max

-- What is answered to a buffer.
abbrev pub verdict : Rom → ℕ → CartRetval
verdict rom data_size =
    if not (size_ok data_size)
    then bad_size
    else if not (checksum_ok rom.byte)
    then invalid_checksum
    else if leb 2 (rom.byte 0x0147)
    then unsupported_mbc
    else retval_ok

abbrev pub with_cart : Ctx → Cart → Ctx
with_cart s cart = record s { bus = record s.bus { cart = cart } }

-- What an accepted buffer leaves of a cartridge with the bank `bank`.
abbrev pub cart_of : Rom → ℕ → Cart
cart_of rom bank =
    if rom.byte 0x0147 == 0
    then record { rom = some rom; banked_read_cb = some mbc_banked_read_cb_none; rom_bank = bank }
    else record { rom = some rom; banked_read_cb = some mbc_banked_read_cb_mbc1; rom_bank = 1 }

-- `r` is the answer `v` with a context in which only the cartridge has changed, and the buffer is now
-- the inserted one, where `v` is `retval_ok`, and only the log otherwise.
pub data IsAnswer (rom : Rom) (s : Ctx) (v : CartRetval) (r : Result (CartRetval × Ctx))
    : Type 0 where
  accepted :
      v ≡ retval_ok
      → r ≡ ok (v, with_cart s (cart_of rom s.bus.cart.rom_bank))
      → IsCart (cart_of rom s.bus.cart.rom_bank)
      → IsAnswer rom s v r
  refused :
      (log : Log)
      → v ≢ retval_ok
      → r ≡ ok (v, with_log s log)
      → Sends s.log log
      → IsAnswer rom s v r

module _ (rom : Rom) (bytes : AreBytes rom.byte) (s : Ctx) (big : cart_size_min ≤ rom.size) where
  abbrev held : BankedReadCb → ℕ → Cart
  held cb bank = record { rom = some rom; banked_read_cb = some cb; rom_bank = bank }

  accepted_IsAnswer :
      (cb : BankedReadCb) (bank : ℕ)
      → cart_of rom s.bus.cart.rom_bank ≡ held cb bank
      → (cb ≡ mbc_banked_read_cb_mbc1 → bank ≡ 1)
      → IsAnswer rom s retval_ok (ok (retval_ok, with_cart s (held cb bank)))
  accepted_IsAnswer cb bank same first =
      accepted refl (ap (λ cart. ok (retval_ok, with_cart s cart)) (sym same)) (
        subst IsCart (sym same) (record {
          inserted = rom;
          cb = cb;
          rom_eq = refl;
          cb_eq = refl;
          size_ge = big;
          bytes = bytes;
          bank_eq = first;
        }))

  -- The part of the answer behind the size test.
  cart_insert_lem :
      IsAnswer rom s
        (if not (checksum_ok rom.byte)
          then invalid_checksum
          else if leb 2 (rom.byte 0x0147)
          then unsupported_mbc
          else retval_ok)
        (cart_insert rom s)
  unfolding cart_insert mbc_set mbc_select
  cart_insert_lem = elim (Bool-cases (checksum_ok rom.byte)) [
    | inr bad ↦ rw (valid_csum_lem rom bytes s (omega arith), bad) (refused s.log (cc) refl nothing)
    | inl good ↦
        rw
          (
            valid_csum_lem rom bytes s (omega arith),
            good,
            rom_data_lem rom bytes s 0x0147 (omega arith),
          )
          (elim (Bool-cases (rom.byte 0x0147 == 0)) [
            | inl plain ↦
                let known : leb 2 (rom.byte 0x0147) ≡ false = ground arith in
                rw (plain, known)
                  (accepted_IsAnswer mbc_banked_read_cb_none s.bus.cart.rom_bank (rw plain refl)
                    (cc))
            | inr banked ↦ elim (Bool-cases (rom.byte 0x0147 == 1)) [
              | inl first ↦
                  let known : leb 2 (rom.byte 0x0147) ≡ false = ground arith in
                  rw (banked, first, known)
                    (accepted_IsAnswer mbc_banked_read_cb_mbc1 1 (rw banked refl) (λ _. refl))
              | inr other ↦
                  let unknown : leb 2 (rom.byte 0x0147) ≡ true = ground arith in
                  rw (banked, other, unknown) (refused s.log (cc) refl nothing)
            ]
          ])
  ]

-- For a buffer of bytes that holds as many as stated, insertion returns. The answer is `bad_size`
-- outside 32 KiB to 8 MiB, else `invalid_checksum` unless the bytes 0x134 to 0x14C, their number and the
-- byte 0x14D add up to a multiple of 256, else `unsupported_mbc` for a type byte above 1, else
-- `retval_ok`. After `retval_ok` the buffer is the inserted cartridge, with the plain reads for type 0 and
-- the bank as it was, or with those of MBC1 and bank 1 for type 1; reads of it are in bounds, and all but
-- the cartridge is as before; after any other answer all is as before, but for messages that the
-- log got.
pub cart_set_lem :
    (rom : Rom) (data_size : ℕ) (s : Ctx)
    → AreBytes rom.byte
    → data_size ≤ rom.size
    → IsAnswer rom s (verdict rom data_size) (cart_set rom data_size s)
unfolding cart_set
cart_set_lem rom data_size s bytes holds = elim (Bool-cases (size_ok data_size)) [
  | inl fits ↦
      let in_range : (ltb data_size cart_size_min || ltb cart_size_max data_size) ≡ false =
        ground arith in
      rw (fits, in_range) (cart_insert_lem rom bytes s (ground arith))
  | inr odd ↦
      let out_of_range : (ltb data_size cart_size_min || ltb cart_size_max data_size) ≡ true =
        ground arith in
      rw (odd, out_of_range, log-size_text s data_size)
        (refused (logged lvl_err ch_cart (size_text data_size) s.log) (cc) refl
          (logged-Sends lvl_err ch_cart (size_text data_size) s.log refl))
]
