-- ===== src/Step.antt =====
-- Actions on the context. Where C leaves the behaviour undefined an action ends in a fault.
use agoge.Prelude.{ℕ, Bool, true, false, ltb, if◌then◌else◌, Option, none, some}
use agoge.Ctx.{Ctx, Bus, Log, Reg}

-- `null_jump`: a `goto *tbl[i]` through an entry that is not set. `null_pointer`: data or a function
-- reached through NULL. `out_of_bounds`: an access past the end of an array. `assertion`: a failed
-- `assert`. `missing_argument`: a conversion of `printf` with no argument left. `bad_format`: one that
-- does not fit its argument, or that is not known. `unreachable`: a `__builtin_unreachable`.
pub data Fault : Type 0 where
  null_jump null_pointer out_of_bounds assertion missing_argument bad_format unreachable : Fault

pub data Result (A : Type 0) : Type 0 where
  ok : A → Result A
  fault : Fault → Result A

abbrev pub M : Type 0 → Type 0
M A = Ctx → Result (A × Ctx)

module _ {A : Type 0} where
  abbrev pub pure : A → M A
  pure v s = ok (v, s)

  abbrev pub lift_from : Result A → M A
  lift_from (ok v) s = ok (v, s)
  lift_from (fault x) s = fault x

  abbrev pub gets : (Ctx → A) → M A
  gets g s = ok (g s, s)

module _ {A B : Type 0} where
  abbrev pub and_then : Result (A × Ctx) → (A → M B) → Result (B × Ctx)
  and_then (ok (v, s)) k = k v s
  and_then (fault x) k = fault x

  -- The steps of a computation that keeps no state.
  abbrev pub try_then : Result A → (A → Result B) → Result B
  try_then (ok v) k = k v
  try_then (fault x) k = fault x

  infixl 5 ◌>>=◌ ◌>>◌
  abbrev pub ◌>>=◌ : M A → (A → M B) → M B
  ◌>>=◌ m k s = and_then (m s) k

  abbrev pub ◌>>◌ : M A → M B → M B
  m >> k = m >>= λ _. k

abbrev pub modify_reg : (Reg → Reg) → M (Unit {0})
modify_reg g s = ok (tt, record s { reg = g s.reg })

abbrev pub modify_bus : (Bus → Bus) → M (Unit {0})
modify_bus g s = ok (tt, record s { bus = g s.bus })

abbrev pub modify_log : (Log → Log) → M (Unit {0})
modify_log g s = ok (tt, record s { log = g s.log })

-- `array[i]` of an array of `size` bytes.
abbrev pub load : ℕ → (ℕ → ℕ) → ℕ → Result ℕ
load size array i = if ltb i size then ok (array i) else fault out_of_bounds

-- `*p`, for a pointer that may be NULL.
abbrev pub deref : {A : Type 0} → Option A → Result A
deref none = fault null_pointer
deref (some v) = ok v

unfoldable pub assert : Bool → M (Unit {0})
assert true = pure tt
assert false = λ _. fault assertion
