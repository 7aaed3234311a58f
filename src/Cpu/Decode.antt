-- ===== src/Cpu/Decode.antt =====
-- The regular parts of the two jump tables of core/src/cpu.c against the octal digits of the code.
use agoge.Prelude.{
  ℕ, zero, suc, ◌+◌, ◌/◌, ◌%◌, ◌≡◌, refl, ◌==◌, if◌then◌else◌, Option, none, some, List, [], ◌∷◌,
  map,
}
use agoge.Cpu.Reg.{reg_b, reg_c, reg_d, reg_e, reg_h, reg_l, reg_a}
use agoge.Cpu.Op.{
  Op, Operand, AluOp, ShiftOp, CbOp, reg, mem_hl, add_a, adc_a, sub_a, sbc_a, and_a, xor_a, or_a,
  cp_a, rlc, rrc, rl, rr, sla, sra, swap, srl, ld, alu, shift, bit, res, set,
}
use agoge.Cpu.Tables.Ops.{op_tbl_40, op_tbl_80}
use agoge.Cpu.Tables.Cbs.{cb_tbl}

-- The numbers of `n` codes from `i` on.
abbrev pub codes : ℕ → ℕ → List ℕ
codes zero i = []
codes (suc n) i = i ∷ codes n (i + 1)

-- The `i`-th of eight, the last one of which stands apart.
abbrev pick : {A : Type 0} → List A → A → ℕ → A
pick [] last i = last
pick (x ∷ xs) last zero = x
pick (x ∷ xs) last (suc i) = pick xs last i

-- The processor's numbers of the operands, the arithmetic and the shifts.
abbrev pub operand : ℕ → Operand
operand =
    pick (reg reg_b ∷ reg reg_c ∷ reg reg_d ∷ reg reg_e ∷ reg reg_h ∷ reg reg_l ∷ mem_hl ∷ [])
      (reg reg_a)

abbrev pub alu_number : ℕ → AluOp
alu_number = pick (add_a ∷ adc_a ∷ sub_a ∷ sbc_a ∷ and_a ∷ xor_a ∷ or_a ∷ []) cp_a

abbrev pub shift_number : ℕ → ShiftOp
shift_number = pick (rlc ∷ rrc ∷ rl ∷ rr ∷ sla ∷ sra ∷ swap ∷ []) srl

-- The loads between operands: the target is in the middle digit, the source in the last one.
abbrev pub decode_ld : ℕ → Option Op
decode_ld i = if i == 0x76 then none else some (ld (operand (i / 8 % 8)) (operand (i % 8)))

abbrev pub decode_alu : ℕ → Option Op
decode_alu i = some (alu (alu_number (i / 8 % 8)) (operand (i % 8)))

-- Codes behind the prefix: the first digit is the kind, the middle one the shift or the bit.
abbrev pub decode_cb : ℕ → CbOp
decode_cb i =
    let y : ℕ = i / 8 % 8 in
    let z : Operand = operand (i % 8) in
    if i / 64 == 0
    then shift (shift_number y) z
    else if i / 64 == 1
    then bit y z
    else if i / 64 == 2
    then res y z
    else set y z

-- In both tables the 384 regular entries are those that the octal digits of their numbers name: the
-- loads between operands at 0x40 to 0x7F, with HALT not set, the arithmetic on the accumulator at 0x80
-- to 0xBF, and the whole table behind the prefix.
pub regular_entries :
    (op_tbl_40 ≡ map decode_ld (codes 64 0x40))
    × (op_tbl_80 ≡ map decode_alu (codes 64 0x80))
    × (cb_tbl ≡ map decode_cb (codes 256 0))
unfolding op_tbl_40 op_tbl_80 cb_tbl
regular_entries = (refl, refl, refl)
