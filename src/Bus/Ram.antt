-- ===== src/Bus/Ram.antt =====
-- The two RAMs behind the bus functions of core/src/bus.c.
use agoge.Prelude.{
  ℕ, ◌-◌, ◌≡◌, refl, Bool, true, ltb, leb, ◌==◌, ◌&&◌, ◌||◌, if◌then◌else◌, u8, arith,
}
use agoge.Ctx.{Ctx, Bus}
use agoge.Step.{ok, ◌>>◌}
use agoge.Bus.{read_jmp_tbl, write_jmp_tbl, read_target, write_target, bus_read, bus_write, update}

abbrev pub in_ram : ℕ → Bool
in_ram a = (leb 0xC000 a && ltb a 0xE000) || (leb 0xFF80 a && ltb a 0xFFFF)

abbrev pub ram_read : Bus → ℕ → ℕ
ram_read bus a = if ltb a 0xE000 then bus.wram (a - 0xC000) else bus.hram (a - 0xFF80)

abbrev pub ram_write : Bus → ℕ → ℕ → Bus
ram_write bus a v =
    if ltb a 0xE000
    then record bus { wram = update bus.wram (a - 0xC000) v }
    else record bus { hram = update bus.hram (a - 0xFF80) v }

abbrev pub with_bus : Ctx → Bus → Ctx
with_bus s bus = record s { bus = bus }

module _ (a : ℕ) (s : Ctx) (ram : in_ram a ≡ true) where
  pub bus_read_ram : bus_read a s ≡ ok (ram_read s.bus a, s)
  unfolding bus_read read_jmp_tbl read_target
  bus_read_ram = ground arith

  pub bus_write_ram : (v : ℕ) → bus_write a v s ≡ ok (tt, with_bus s (ram_write s.bus a (u8 v)))
  unfolding bus_write write_jmp_tbl write_target
  bus_write_ram v = ground arith

pub ram_read-write :
    (bus : Bus) (a b v : ℕ)
    → in_ram a ≡ true
    → in_ram b ≡ true
    → ram_read (ram_write bus a v) b ≡ (if b == a then v else ram_read bus b)
ram_read-write bus a b v ha hb = ground arith

-- At addresses of the two RAMs, a read after a write gives the byte that was written, if it is at the
-- same address, and otherwise what was there before the write; both return, log nothing, and change
-- nothing but the written byte.
pub bus_read-bus_write :
    (a b v : ℕ) (s : Ctx)
    → in_ram a ≡ true
    → in_ram b ≡ true
    → (do bus_write a v; bus_read b) s
      ≡ ok (if b == a then u8 v else ram_read s.bus b, with_bus s (ram_write s.bus a (u8 v)))
bus_read-bus_write a b v s ha hb =
    rw (bus_write_ram a s ha v, bus_read_ram b _ hb, ram_read-write s.bus a b (u8 v) ha hb) refl
