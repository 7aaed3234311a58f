-- ===== src/Printf.antt =====
-- What the core uses of the C library's `sprintf` and `vsprintf`: the conversions %0nX, %d, %zu and %s.
-- A text is the list of its bytes, without the NUL.
pub mod Prints
use Prim.Native.Char.{code}
use Prim.Native.String.{String}
use agoge.Prelude.{
  ℕ, zero, suc, ◌+◌, ◌-◌, ◌*◌, ◌/◌, ◌%◌, ◌^◌, ◌≤◌, ◌<◌, ◌≡◌, refl, Bool, true, false, ◌&&◌, ltb,
  leb, ◌==◌, if◌then◌else◌, u32, List, [], ◌∷◌, ◌++◌, length, Option, none, some, arith, Bool-cases,
  inl, inr,
}
use agoge.Step.{Result, ok, fault, missing_argument, bad_format}

-- The bytes of an ASCII literal.
abbrev pub codes : String → List ℕ
codes String.[] = []
codes (String.◌∷◌ c s) = code c ∷ codes s

-- A number is an `int` or `unsigned int` as its 32-bit pattern, or a `size_t`.
pub data Arg : Type 0 where
  num : ℕ → Arg
  text : List ℕ → Arg

abbrev pub digit : ℕ → ℕ
digit d = if ltb d 10 then d + 48 else d + 55

-- The digits of `n` to a base before `rest`: `fuel` at most, `width` at least, and at least one.
unfoldable pub radix_text : ℕ → ℕ → ℕ → ℕ → List ℕ → List ℕ
radix_text base zero width n rest = rest
radix_text base (suc fuel) width n rest =
    let more = radix_text base fuel (width - 1) (n / base) (digit (n % base) ∷ rest) in
    if width == 0 && n == 0 then rest else more

-- A 32-bit number has 8 hexadecimal digits, a `size_t` 20 decimal ones.
unfoldable pub hex_text : ℕ → ℕ → List ℕ
unfolding radix_text
hex_text width n = radix_text 16 8 (if width == 0 then 1 else width) (u32 n) []

unfoldable pub dec_text : ℕ → List ℕ
unfolding radix_text
dec_text n = radix_text 10 20 1 n []

unfoldable pub int_text : ℕ → List ℕ
unfolding dec_text
int_text n = if ltb n (2 ^ 31) then dec_text n else b'-' ∷ dec_text (2 ^ 32 - n)

pub data Token : Type 0 where
  percent upper_x lower_d lower_s lower_u lower_z other : Token
  decimal : ℕ → Token

abbrev pub token : ℕ → Token
token c =
    if c == b'%'
    then percent
    else if c == b'X'
    then upper_x
    else if c == b'd'
    then lower_d
    else if c == b's'
    then lower_s
    else if c == b'u'
    then lower_u
    else if c == b'z'
    then lower_z
    else if leb b'0' c && leb c b'9'
    then decimal (c - 48)
    else other

-- A part of the output before the rest of it.
abbrev pub prepend : List ℕ → Result (List ℕ) → Result (List ℕ)
prepend xs (ok ys) = ok (xs ++ ys)
prepend xs (fault x) = fault x

-- A conversion of the next argument, and what follows.
abbrev pub with_num : (ℕ → List ℕ) → List Arg → (List Arg → Result (List ℕ)) → Result (List ℕ)
with_num show [] k = fault missing_argument
with_num show (num n ∷ args) k = prepend (show n) (k args)
with_num show (text t ∷ args) k = fault bad_format

abbrev with_text : List Arg → (List Arg → Result (List ℕ)) → Result (List ℕ)
with_text [] k = fault missing_argument
with_text (num n ∷ args) k = fault bad_format
with_text (text t ∷ args) k = prepend t (k args)

-- `none` stands outside of a conversion, `some width` behind a `%` and perhaps digits. Every width that
-- the core writes has the flag `0`.
unfoldable pub convert : Option ℕ → List ℕ → List Arg → Result (List ℕ)
unfolding hex_text dec_text int_text
convert none [] args = ok []
convert (some width) [] args = fault bad_format
convert none (c ∷ cs) args = elim (c == b'%') [
  | true ↦ convert (some 0) cs args
  | false ↦ prepend (c ∷ []) (convert none cs args)
]
convert (some width) (c ∷ cs) args = elim (token c) [
  | upper_x ↦ with_num (hex_text width) args (convert none cs)
  | lower_d ↦ with_num int_text args (convert none cs)
  | lower_u ↦ with_num dec_text args (convert none cs)
  | lower_s ↦ with_text args (convert none cs)
  | lower_z ↦ convert (some width) cs args
  | decimal d ↦ convert (some (width * 10 + d)) cs args
  | _ ↦ fault bad_format
]

unfoldable pub vsprintf : String → List Arg → Result (List ℕ)
unfolding convert
vsprintf fmt = convert none (codes fmt)

-- A text has at most as many digits as there is fuel.
radix_text-le :
    (base fuel width n : ℕ) (rest : List ℕ)
    → length (radix_text base fuel width n rest) ≤ fuel + length rest
unfolding radix_text
radix_text-le base zero width n rest = omega arith
radix_text-le base (suc fuel) width n rest =
    ground (arith, radix_text-le base fuel (width - 1) (n / base) (digit (n % base) ∷ rest))

pub hex_text-le : (width n : ℕ) → length (hex_text width n) ≤ 8
unfolding hex_text
hex_text-le width n = omega (arith, radix_text-le 16 8 (if width == 0 then 1 else width) (u32 n) [])

pub dec_text-le : (n : ℕ) → length (dec_text n) ≤ 20
unfolding dec_text
dec_text-le n = omega (arith, radix_text-le 10 20 1 n [])
