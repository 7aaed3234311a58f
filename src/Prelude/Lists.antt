-- ===== src/Prelude/Lists.antt =====
-- Lists indexed by native numbers, and checks of every number below a bound by evaluation.
use Prim.Native.Nat.{◌+◌, ℕ, zero, suc, ◌<◌}
use mathlib.Core.Path.{◌≡◌}
use mathlib.Core.Bool.{Bool, true, ◌&&◌}
use mathlib.Core.List.{List, [], ◌∷◌, ◌++◌}
use mathlib.Core.Option.{Option, none, some}
use native.Mathlib.Omega.{arith}
use agoge.Prelude.Tests.{◌==◌, ==_iff}

module _ {ℓ} {A : Type ℓ} where
  abbrev pub length : List A → ℕ
  length [] = 0
  length (x ∷ xs) = suc (length xs)

  abbrev pub get_elem? : List A → ℕ → Option A
  get_elem? [] i = none
  get_elem? (x ∷ xs) zero = some x
  get_elem? (x ∷ xs) (suc i) = get_elem? xs i

  pub length-append : (xs ys : List A) → length (xs ++ ys) ≡ length xs + length ys
  length-append [] ys = omega arith
  length-append (x ∷ xs) ys = omega (arith, length-append xs ys)

unfoldable pub all_below : ℕ → (ℕ → Bool) → Bool
all_below zero holds = true
all_below (suc n) holds = all_below n holds && holds n

module _ (holds : ℕ → Bool) (x : ℕ) where
  -- What the check of a bound says of a number below it.
  pub holds_below : (n : ℕ) → x < n → all_below n holds ≡ true → holds x ≡ true
  unfolding all_below
  holds_below zero lt table = absurd (omega arith)
  holds_below (suc n) lt table = ground (arith, holds_below n)

-- Two functions that agree at every number below a bound.
pub agree_below :
    (n : ℕ) (g h : ℕ → ℕ) (x : ℕ) → all_below n (λ v. g v == h v) ≡ true → x < n → g x ≡ h x
agree_below n g h x table lt = (==_iff (g x) (h x)).0 (holds_below (λ v. g v == h v) x n lt table)
