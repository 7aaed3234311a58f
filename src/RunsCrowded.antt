-- ===== src/RunsCrowded.antt =====
-- Runs of any length, and the 128 bytes of the serial port. An instruction writes two bytes at most, so a
-- run stays within the port while that holds fewer than 126 of them.
use agoge.Prelude.{ℕ, suc, ◌+◌, ◌-◌, ◌*◌, ◌≤◌, ◌<◌, ◌≡◌, ◌∙◌, arith}
use agoge.Ctx.{Ctx}
use agoge.Step.{ok, M}
use agoge.Valid.{IsReady}
use agoge.Runs.{IsReady-le}

-- A run from `s`, with room for `room` bytes at first, came to a valid context after fewer than `n` of its
-- rounds, with 126 bytes or more in the port; each round has used two bytes of room at most.
pub record IsCrowded (run : ℕ → M (Unit {0})) (n room : ℕ) (s : Ctx) : Type 0 where
  pub k : ℕ
  pub at : Ctx
  pub before : k < n
  pub reached : run k s ≡ ok (tt, at)
  pub ready : IsReady (room - 2 * k) at
  pub many : 126 ≤ at.bus.serial.data_size

module _ (run : ℕ → M (Unit {0})) (n : ℕ) {room : ℕ} {s : Ctx} where
  pub IsCrowded-now :
      IsReady room s
      → 126 ≤ s.bus.serial.data_size
      → run 0 s ≡ ok (tt, s)
      → IsCrowded run (suc n) room s
  IsCrowded-now h many e = record {
    k = 0;
    at = s;
    before = omega arith;
    reached = e;
    ready = IsReady-le (omega arith) h;
    many = many;
  }

  pub IsCrowded-later :
      (rest : ℕ) (t : Ctx)
      → room ≤ 2 + rest
      → ((k : ℕ) → run (suc k) s ≡ run k t)
      → IsCrowded run n rest t
      → IsCrowded run (suc n) room s
  IsCrowded-later rest t le step c = record {
    k = suc c.k;
    at = c.at;
    before = omega (arith, c.before);
    reached = step c.k ∙ c.reached;
    ready = IsReady-le (omega arith) c.ready;
    many = c.many;
  }
