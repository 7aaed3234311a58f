-- ===== src/Cpu/SetRes.antt =====
-- `res` and `set` on the registers of core/src/cpu.c, bit by bit.
use agoge.Prelude.{
  ℕ, ◌^◌, ◌<◌, ◌≡◌, refl, ◌∙◌, true, false, not8, ◌==◌, if◌then◌else◌, bit_and, bit_or, all_below,
  holds_below, ==_iff, ltb, ltb→lt, arith, Bool, Bool-cases, inl, inr,
}
use agoge.Prelude.Bits.{bit_at, bit_at-and, bit_at-or, bitwise_byte}
use agoge.Ctx.{Ctx, Reg}
use agoge.Step.{M, ok, ◌>>◌}
use agoge.Cpu.Flags.{flags_of}
use agoge.Cpu.Op.{reg}
use agoge.Cpu.Reg.{Reg8, reg_b, reg_c, reg_d, reg_e, reg_h, reg_l, reg_a, get8, set8, rd8, wr8}
use agoge.Cpu.Handlers.Block.{exec_bit, exec_res, exec_set}
use agoge.Cpu.Logic.{bit_at-lt, alu_bit_lem}

abbrev mask_bits : ℕ → ℕ → Bool
mask_bits n m =
    if bit_at m (2 ^ n) == (if m == n then 1 else 0)
    then bit_at m (not8 (2 ^ n)) == (if m == n then 0 else 1)
    else m == 8

masks_checked : all_below 8 (λ n. all_below 8 (mask_bits n)) ≡ true
unfolding all_below
masks_checked = refl

two_pow-lt : (n : ℕ) → n < 8 → 2 ^ n < 256
unfolding all_below
two_pow-lt n lt = ltb→lt (2 ^ n) 256 (holds_below (λ k. ltb (2 ^ k) 256) n 8 lt refl)

module _ (n m : ℕ) (lt : n < 8) (lt' : m < 8) where
  mask_lem :
      (bit_at m (2 ^ n) ≡ (if m == n then 1 else 0))
      × (bit_at m (not8 (2 ^ n)) ≡ (if m == n then 0 else 1))
  mask_lem =
      let row = holds_below (λ n. all_below 8 (mask_bits n)) n 8 lt masks_checked in
      let cell : mask_bits n m ≡ true = holds_below (mask_bits n) m 8 lt' row in
      elim (Bool-cases (bit_at m (2 ^ n) == (if m == n then 1 else 0))) [
        | inl one ↦ (
          (==_iff _ _).0 one,
          (==_iff (bit_at m (not8 (2 ^ n))) (if m == n then 0 else 1)).0 (rw one at cell),
        )
        | inr no_one ↦ absurd (ground (arith, rw no_one at cell))
      ]

  res_bit : (v : ℕ) → bit_at m (bit_and v (not8 (2 ^ n))) ≡ (if m == n then 0 else bit_at m v)
  res_bit v =
      let (_, e) = mask_lem in bit_at-and m v (not8 (2 ^ n)) ∙ rw e (ground (arith, bit_at-lt m v))

  set_bit : (v : ℕ) → bit_at m (bit_or v (2 ^ n)) ≡ (if m == n then 1 else bit_at m v)
  set_bit v = let (e, _) = mask_lem in bit_at-or m v (2 ^ n) ∙ rw e (ground (arith, bit_at-lt m v))

get8-set8 : (x : Reg8) (v : ℕ) (r : Reg) → v < 256 → get8 x (set8 x v r) ≡ v
unfolding get8 set8
get8-set8 reg_b v r lt = omega arith
get8-set8 reg_c v r lt = omega arith
get8-set8 reg_d v r lt = omega arith
get8-set8 reg_e v r lt = omega arith
get8-set8 reg_h v r lt = omega arith
get8-set8 reg_l v r lt = omega arith
get8-set8 reg_a v r lt = omega arith

set8-f : (x : Reg8) (v : ℕ) (r : Reg) → (set8 x v r).f ≡ r.f
unfolding set8
set8-f reg_b v r = refl
set8-f _ v r = refl

-- `m` leaves a register changed, and the flags of a test of a bit that is clear or not.
abbrev pub Tests : M (Unit {0}) → Reg8 → Ctx → Bool → Type 0
Tests m x s clear =
    (w f : ℕ) × (m s ≡ ok (tt, record s { reg = record (set8 x w s.reg) { f = f } }))
    × (flags_of f ≡ record (flags_of s.reg.f) { zero = clear; subtract = false; half_carry = true })

-- `bit` behind an operation that has stored `w` in the register.
tested :
    (m : M (Unit {0})) (n : ℕ) (x : Reg8) (s : Ctx) (w y : ℕ)
    → n < 8
    → w < 256
    → m s ≡ ok (tt, record s { reg = set8 x w s.reg })
    → bit_at n w ≡ y
    → Tests (do m; exec_bit n (reg x)) x s (y == 0)
unfolding exec_bit rd8
tested m n x s w y lt byte ran at =
    let (f, done, flags) = alu_bit_lem n w (record s { reg = set8 x w s.reg }) lt in
    (
      w,
      f,
      rw (ran, get8-set8 x w s.reg byte) done,
      flags ∙ (λ i. record (flags_of (set8-f x w s.reg i)) {
        zero = at i == 0;
        subtract = false;
        half_carry = true;
      }),
    )

module _ (n : ℕ) (x : Reg8) (s : Ctx) (lt : n < 8) (byte : get8 x s.reg < 256) where
  -- `res` of a bit below 8 clears that bit of a register and `set` sets it; its other bits, the flags
  -- and all else are kept.
  pub exec_res-exec_set :
      ((w : ℕ) × (exec_res n (reg x) s ≡ ok (tt, record s { reg = set8 x w s.reg }))
        × (w < 256)
        × ((m : ℕ) → m < 8 → bit_at m w ≡ (if m == n then 0 else bit_at m (get8 x s.reg))))
      × ((w : ℕ) × (exec_set n (reg x) s ≡ ok (tt, record s { reg = set8 x w s.reg }))
          × (w < 256)
          × ((m : ℕ) → m < 8 → bit_at m w ≡ (if m == n then 1 else bit_at m (get8 x s.reg))))
  unfolding exec_res exec_set rd8 wr8
  exec_res-exec_set =
      let v = get8 x s.reg in
      let (low, _, _) = bitwise_byte v (not8 (2 ^ n)) byte (omega arith) in
      let (_, high, _) = bitwise_byte v (2 ^ n) byte (two_pow-lt n lt) in
      (
        (bit_and v (not8 (2 ^ n)), refl, omega arith, λ m lt'. res_bit n m lt lt' v),
        (bit_or v (2 ^ n), refl, omega arith, λ m lt'. set_bit n m lt lt' v),
      )

  -- After `res` of a bit below 8 of a register, `bit` tells that the bit is clear, and after `set` that
  -- it is not: in Z. N is cleared and H is set, C is kept, and of the other registers none changes.
  pub exec_bit-exec_res-exec_set :
      Tests (do exec_res n (reg x); exec_bit n (reg x)) x s true
      × Tests (do exec_set n (reg x); exec_bit n (reg x)) x s false
  exec_bit-exec_res-exec_set =
      let ((v, cleared, v_lt, v_bits), (w, stored, w_lt, w_bits)) = exec_res-exec_set in
      let self : (n == n) ≡ true = ground arith in
      (
        tested (exec_res n (reg x)) n x s v 0 lt v_lt cleared (rw self at (v_bits n lt)),
        tested (exec_set n (reg x)) n x s w 1 lt w_lt stored (rw self at (w_bits n lt)),
      )
