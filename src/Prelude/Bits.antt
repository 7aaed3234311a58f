-- ===== src/Prelude/Bits.antt =====
-- The digits of `bit_and`, `bit_or` and `bit_xor` at variables, and what follows for a mask.
use Prim.Native.Nat.{
  ℕ, zero, suc, ◌+◌, ◌*◌, ◌/◌, ◌%◌, ◌^◌, ◌≤◌, ◌<◌, min, max, bit_and, bit_or, bit_xor,
}
use Prim.Native.Nat.{digits, bitwise, differ, bit_and-bitwise, bit_or-bitwise, bit_xor-bitwise}
use mathlib.Core.Path.{◌≡◌, refl, ap, ◌∙◌}
use native.Mathlib.Nat.{le_refl, pow-suc}
use native.Mathlib.Omega.{arith}

-- Bit `k` of `n`.
abbrev pub bit_at : ℕ → ℕ → ℕ
bit_at zero n = n % 2
bit_at (suc k) n = bit_at k (n / 2)

-- The fuel of the digit recursion does not matter, once it covers the number.
module _ (z : ℕ → ℕ) (f : ℕ → ℕ → ℕ) where
  digits-fuel : (n m a b : ℕ) → a ≤ n → a ≤ m → digits z f n a b ≡ digits z f m a b
  digits-fuel zero zero a b p q = refl
  digits-fuel zero (suc m) zero b p q = refl
  digits-fuel zero (suc m) (suc a) b p q = absurd (omega arith)
  digits-fuel (suc n) zero zero b p q = refl
  digits-fuel (suc n) zero (suc a) b p q = absurd (omega arith)
  digits-fuel (suc n) (suc m) zero b p q = refl
  digits-fuel (suc n) (suc m) (suc a) b p q =
      rw (digits-fuel n m (suc a / 2) (b / 2) (omega arith) (omega arith))

  bitwise_head :
      (m k : ℕ)
      → bitwise z f (suc m) k ≡ bitwise z f (suc m / 2) (k / 2) * 2 + f (suc m % 2) (k % 2)
  bitwise_head m k =
      let fits : suc m / 2 ≤ m = omega arith in
      omega (arith, digits-fuel m (suc m / 2) (suc m / 2) (k / 2) fits (le_refl _))

and_head : (a b : ℕ) → bit_and a b ≡ bit_and (a / 2) (b / 2) * 2 + min (a % 2) (b % 2)
and_head zero b = simp bit_and-bitwise (omega arith)
and_head (suc a) b = simp bit_and-bitwise (bitwise_head (λ _. 0) min a b)

or_head : (a b : ℕ) → bit_or a b ≡ bit_or (a / 2) (b / 2) * 2 + max (a % 2) (b % 2)
or_head zero b = simp bit_or-bitwise (omega arith)
or_head (suc a) b = simp bit_or-bitwise (bitwise_head (λ y. y) max a b)

differ-bits : (a b : ℕ) → a < 2 → b < 2 → differ a b ≡ (a + b) % 2
differ-bits zero b p q = omega arith
differ-bits (suc zero) zero p q = refl
differ-bits (suc zero) (suc zero) p q = refl
differ-bits (suc zero) (suc (suc b)) p q = absurd (omega arith)
differ-bits (suc (suc a)) b p q = absurd (omega arith)

xor_head : (a b : ℕ) → bit_xor a b ≡ bit_xor (a / 2) (b / 2) * 2 + (a % 2 + b % 2) % 2
xor_head zero b = simp bit_xor-bitwise (omega arith)
xor_head (suc a) b = simp bit_xor-bitwise (
    bitwise_head (λ y. y) differ a b
    ∙ ap (λ (t : ℕ). bitwise (λ y. y) differ (suc a / 2) (b / 2) * 2 + t)
        (differ-bits (suc a % 2) (b % 2) (omega arith) (omega arith)))

pub bit_at-and : (k a b : ℕ) → bit_at k (bit_and a b) ≡ min (bit_at k a) (bit_at k b)
bit_at-and zero a b = omega (arith, and_head a b)
bit_at-and (suc k) a b = ap (bit_at k) (omega (arith, and_head a b)) ∙ bit_at-and k (a / 2) (b / 2)

pub bit_at-or : (k a b : ℕ) → bit_at k (bit_or a b) ≡ max (bit_at k a) (bit_at k b)
bit_at-or zero a b = omega (arith, or_head a b)
bit_at-or (suc k) a b = ap (bit_at k) (omega (arith, or_head a b)) ∙ bit_at-or k (a / 2) (b / 2)

pub bit_at-xor : (k a b : ℕ) → bit_at k (bit_xor a b) ≡ (bit_at k a + bit_at k b) % 2
bit_at-xor zero a b = omega (arith, xor_head a b)
bit_at-xor (suc k) a b = ap (bit_at k) (omega (arith, xor_head a b)) ∙ bit_at-xor k (a / 2) (b / 2)

and_zero : (n a : ℕ) → a ≤ n → bit_and a 0 ≡ 0
and_zero n zero h = refl
and_zero zero (suc a) h = absurd (omega arith)
and_zero (suc n) (suc a) h = omega (arith, and_head (suc a) 0, and_zero n (suc a / 2) (omega arith))

pub bit_and-zero : (a : ℕ) → bit_and a 0 ≡ 0
bit_and-zero a = and_zero a a (le_refl _)

-- A mask of one bit.
pub bit_and-two_pow : (k a : ℕ) → bit_and a (2 ^ k) ≡ bit_at k a * 2 ^ k
bit_and-two_pow zero a = omega (arith, and_head a 1, bit_and-zero (a / 2))
bit_and-two_pow (suc k) a = rw (pow-suc 2 k) (
    omega (
      arith,
      and_head a (2 ^ k * 2),
      bit_and-two_pow k (a / 2),
      ap (λ (t : ℕ). bit_and (a / 2) t) (half_double (2 ^ k)),
    ))
  where
    half_double : (t : ℕ) → t * 2 / 2 ≡ t
    half_double t = omega arith

-- The masks of the low half of a byte, and of a byte.
pub bit_and-low_half : (a : ℕ) → bit_and a 0x0F ≡ a % 16
bit_and-low_half a = omega (
  arith,
  and_head a 15,
  and_head (a / 2) 7,
  and_head (a / 2 / 2) 3,
  and_head (a / 2 / 2 / 2) 1,
  bit_and-zero (a / 2 / 2 / 2 / 2),
)

pub bit_and-byte : (a : ℕ) → bit_and a 0xFF ≡ a % 256
bit_and-byte a = omega (
  arith,
  and_head a 255,
  and_head (a / 2) 127,
  and_head (a / 2 / 2) 63,
  and_head (a / 2 / 2 / 2) 31,
  and_head (a / 2 / 2 / 2 / 2) 15,
  bit_and-low_half (a / 2 / 2 / 2 / 2),
)

-- `(hi << 8) | lo` of two bytes.
or_zero : (n a : ℕ) → a ≤ n → bit_or a 0 ≡ a
or_zero n zero h = refl
or_zero zero (suc a) h = absurd (omega arith)
or_zero (suc n) (suc a) h = omega (arith, or_head (suc a) 0, or_zero n (suc a / 2) (omega arith))

or_double : (q r : ℕ) → bit_or (q * 2) r ≡ bit_or q (r / 2) * 2 + r % 2
or_double q r = let half : q * 2 / 2 ≡ q = omega arith in or_head (q * 2) r ∙ rw half (omega arith)

or_fields : (k hi lo : ℕ) → lo < 2 ^ k → bit_or (hi * 2 ^ k) lo ≡ hi * 2 ^ k + lo
or_fields zero hi lo h =
    let none : lo ≡ 0 = omega arith in rw none (or_zero (hi * 1) (hi * 1) (le_refl _) ∙ omega arith)
or_fields (suc k) hi lo h =
    let double : hi * 2 ^ suc k ≡ hi * 2 ^ k * 2 =
      omega (arith, ap (λ (t : ℕ). hi * t) (pow-suc 2 k)) in
    rw double (
      or_double (hi * 2 ^ k) lo
      ∙ omega (arith, or_fields k hi (lo / 2) (omega (arith, pow-suc 2 k))))

pub bit_or_bytes : (hi lo : ℕ) → lo < 256 → bit_or (hi * 256) lo ≡ hi * 256 + lo
bit_or_bytes hi lo h = or_fields 8 hi lo h

-- A bitwise operation on numbers of `k` bits gives one of `k` bits.
bitwise_lt :
    (k a b : ℕ)
    → a < 2 ^ k
    → b < 2 ^ k
    → (bit_and a b < 2 ^ k) × (bit_or a b < 2 ^ k) × (bit_xor a b < 2 ^ k)
bitwise_lt zero a b ha hb =
    let za : a ≡ 0 = omega arith in
    let zb : b ≡ 0 = omega arith in rw (za, zb) (omega arith, omega arith, omega arith)
bitwise_lt (suc k) a b ha hb =
    let double : 2 ^ suc k ≡ 2 ^ k * 2 = pow-suc 2 k in
    let (p, q, r) = bitwise_lt k (a / 2) (b / 2) (omega arith) (omega arith) in
    (omega (arith, and_head a b), omega (arith, or_head a b), omega (arith, xor_head a b))

pub bitwise_byte :
    (a b : ℕ)
    → a < 256
    → b < 256
    → (bit_and a b % 256 ≡ bit_and a b)
      × (bit_or a b % 256 ≡ bit_or a b)
      × (bit_xor a b % 256 ≡ bit_xor a b)
bitwise_byte a b ha hb =
    let (p, q, r) = bitwise_lt 8 a b ha hb in (omega arith, omega arith, omega arith)
