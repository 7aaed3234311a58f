-- ===== src/Printf/Prints.antt =====
-- Formats that print: a test of a format that says how long its text can be, whatever the numbers.
use agoge.Prelude.{
  ℕ, zero, suc, ◌+◌, ◌-◌, ◌*◌, ◌/◌, ◌%◌, ◌^◌, ◌≤◌, ◌≡◌, refl, Bool, true, false, not, ◌&&◌, ltb,
  leb, ◌==◌, if◌then◌else◌, u32, Option, none, some, List, [], ◌∷◌, ◌++◌, length, length-append,
  arith, Bool-cases, inl, inr,
}
use agoge.Step.{Result, ok}
use agoge.Printf.{
  Arg, num, Token, percent, upper_x, lower_d, lower_s, lower_u, lower_z, other, decimal, token,
  digit, radix_text, hex_text, dec_text, int_text, prepend, with_num, convert, hex_text-le,
  dec_text-le,
}

abbrev pub HasNoNul : List ℕ → Type 0
HasNoNul [] = Unit {0}
HasNoNul (c ∷ cs) = ((c == 0) ≡ false) × HasNoNul cs

pub append-HasNoNul : (xs ys : List ℕ) → HasNoNul xs → HasNoNul ys → HasNoNul (xs ++ ys)
append-HasNoNul [] ys p q = q
append-HasNoNul (x ∷ xs) ys (nz, p) q = (nz, append-HasNoNul xs ys p q)

radix_text-HasNoNul :
    (base fuel width n : ℕ) (rest : List ℕ)
    → HasNoNul rest
    → HasNoNul (radix_text base fuel width n rest)
unfolding radix_text
radix_text-HasNoNul base zero width n rest p = p
radix_text-HasNoNul base (suc fuel) width n rest p = elim (Bool-cases (width == 0 && n == 0)) [
  | inl stop ↦ rw stop p
  | inr more ↦ rw more (
      radix_text-HasNoNul base fuel (width - 1) (n / base) (digit (n % base) ∷ rest)
        (ground arith, p))
]

pub hex_text-HasNoNul : (width n : ℕ) → HasNoNul (hex_text width n)
unfolding hex_text
hex_text-HasNoNul width n = radix_text-HasNoNul 16 8 (if width == 0 then 1 else width) (u32 n) [] tt

dec_text-HasNoNul : (n : ℕ) → HasNoNul (dec_text n)
unfolding dec_text
dec_text-HasNoNul n = radix_text-HasNoNul 10 20 1 n [] tt

int_text-HasNoNul : (n : ℕ) → HasNoNul (int_text n)
unfolding int_text
int_text-HasNoNul n = elim (Bool-cases (ltb n (2 ^ 31))) [
  | inl pos ↦ rw pos (dec_text-HasNoNul n)
  | inr neg ↦ rw neg (refl, dec_text-HasNoNul (2 ^ 32 - n))
]

int_text-le : (n : ℕ) → length (int_text n) ≤ 21
unfolding int_text
int_text-le n = ground (arith, dec_text-le n, dec_text-le (2 ^ 32 - n))

-- With `k` numbers a format prints, and at most `room` bytes.
unfoldable pub prints : Option ℕ → List ℕ → ℕ → ℕ → Bool
prints none [] k room = true
prints (some width) [] k room = false
prints none (c ∷ cs) k room = elim (c == b'%') [
  | true ↦ prints (some 0) cs k room
  | false ↦ not (c == 0) && ltb 0 room && prints none cs k (room - 1)
]
prints (some width) (c ∷ cs) k room = elim (token c) [
  | upper_x ↦ ltb 0 k && leb 8 room && prints none cs (k - 1) (room - 8)
  | lower_d ↦ ltb 0 k && leb 21 room && prints none cs (k - 1) (room - 21)
  | decimal d ↦ prints (some (width * 10 + d)) cs k room
  | _ ↦ false
]

abbrev pub nums : List ℕ → List Arg
nums [] = []
nums (v ∷ vs) = num v ∷ nums vs

-- A text of at most `room` bytes, none of them NUL, was printed.
abbrev pub Printed : ℕ → Result (List ℕ) → Type 0
Printed room r = (t : List ℕ) × (r ≡ ok t) × (length t ≤ room) × HasNoNul t

Printed-prepend :
    (part : List ℕ) (most room : ℕ) (r : Result (List ℕ))
    → length part ≤ most
    → most ≤ room
    → HasNoNul part
    → Printed (room - most) r
    → Printed room (prepend part r)
Printed-prepend part most room r le le' p (t, e, h, q) =
    (part ++ t, rw e refl, omega (arith, length-append part t), append-HasNoNul part t p q)

pub both : (x y : Bool) → (x && y) ≡ true → (x ≡ true) × (y ≡ true)
both true y e = (refl, e)
both false y e = absurd (cc e)

-- The next number in a conversion, and the rest of the format.
next-Printed :
    (show : ℕ → List ℕ) (most : ℕ) (vs : List ℕ) (room : ℕ) (cs : List ℕ)
    → ((v : ℕ) → length (show v) ≤ most)
    → ((v : ℕ) → HasNoNul (show v))
    → (ltb 0 (length vs) && leb most room && prints none cs (length vs - 1) (room - most)) ≡ true
    → ((ws : List ℕ) (k : ℕ)
        → prints none cs (length ws) k ≡ true
        → Printed k (convert none cs (nums ws)))
    → Printed room (with_num show (nums vs) (convert none cs))
next-Printed show most [] room cs short clean e rest = absurd (cc e)
next-Printed show most (v ∷ vs) room cs short clean e rest =
    let tail : Bool = prints none cs (suc (length vs) - 1) (room - most) in
    let (e₁, e₂) = both (ltb 0 (suc (length vs)) && leb most room) tail e in
    let (e₃, e₄) = both (ltb 0 (suc (length vs))) (leb most room) e₁ in
    let one : suc (length vs) - 1 ≡ length vs = omega arith in
    Printed-prepend (show v) most room _ (short v) (ground arith) (clean v)
      (rest vs (room - most) (rw one at e₂))

-- A conversion, by the byte that ends it.
conversion-Printed :
    (width c : ℕ) (cs vs : List ℕ) (room : ℕ) (t : Token)
    → token c ≡ t
    → prints (some width) (c ∷ cs) (length vs) room ≡ true
    → ((ws : List ℕ) (k : ℕ)
        → prints none cs (length ws) k ≡ true
        → Printed k (convert none cs (nums ws)))
    → ((w : ℕ)
        → prints (some w) cs (length vs) room ≡ true
        → Printed room (convert (some w) cs (nums vs)))
    → Printed room (convert (some width) (c ∷ cs) (nums vs))
unfolding prints convert
conversion-Printed width c cs vs room upper_x at e rest wider =
    rw (convert, at)
      (next-Printed (hex_text width) 8 vs room cs (hex_text-le width) (hex_text-HasNoNul width)
        (rw (prints, at) at e) rest)
conversion-Printed width c cs vs room lower_d at e rest wider =
    rw (convert, at)
      (next-Printed int_text 21 vs room cs int_text-le int_text-HasNoNul (rw (prints, at) at e)
        rest)
conversion-Printed width c cs vs room (decimal d) at e rest wider =
    rw (convert, at) (wider (width * 10 + d) (rw (prints, at) at e))
conversion-Printed width c cs vs room percent at e rest wider = absurd (cc (rw (prints, at) at e))
conversion-Printed width c cs vs room lower_s at e rest wider = absurd (cc (rw (prints, at) at e))
conversion-Printed width c cs vs room lower_u at e rest wider = absurd (cc (rw (prints, at) at e))
conversion-Printed width c cs vs room lower_z at e rest wider = absurd (cc (rw (prints, at) at e))
conversion-Printed width c cs vs room other at e rest wider = absurd (cc (rw (prints, at) at e))

-- A format that passes the test prints numbers, as many as it was tested for, to a text within the room.
pub prints-Printed :
    (width : Option ℕ) (cs vs : List ℕ) (room : ℕ)
    → prints width cs (length vs) room ≡ true
    → Printed room (convert width cs (nums vs))
unfolding prints convert
prints-Printed none [] vs room e = ([], refl, omega arith, tt)
prints-Printed (some width) [] vs room e = absurd (cc e)
prints-Printed none (c ∷ cs) vs room e = elim (Bool-cases (c == b'%')) [
  | inl conv ↦ rw (convert, conv) (prints-Printed (some 0) cs vs room (rw (prints, conv) at e))
  | inr plain ↦
      let e' : (not (c == 0) && ltb 0 room && prints none cs (length vs) (room - 1)) ≡ true =
        rw (prints, plain) at e in
      let (e₁, e₂) = both (not (c == 0) && ltb 0 room) (prints none cs (length vs) (room - 1)) e' in
      let (e₃, e₄) = both (not (c == 0)) (ltb 0 room) e₁ in
      rw (convert, plain)
        (Printed-prepend (c ∷ []) 1 room _ (omega arith) (ground arith) (ground arith, tt)
          (prints-Printed none cs vs (room - 1) e₂))
]
prints-Printed (some width) (c ∷ cs) vs room e =
    conversion-Printed width c cs vs room (token c) refl e (λ ws k. prints-Printed none cs ws k)
      (λ w. prints-Printed (some w) cs vs room)
