-- ===== src/Disasm/Mnemonics.antt =====
-- The tables of core/src/disasm.c against those of core/src/cpu.c, where the instructions are regular.
use Prim.Native.String.{String}
use agoge.Prelude.{ℕ, ◌+◌, ◌≡◌, refl, Option, none, some, List, [], ◌∷◌, ◌++◌, map}
use agoge.Ctx.{
  DisasmEntry, DisasmOp, op_none, DisasmTrace, trace_none, trace_reg_b, trace_reg_c, trace_reg_d,
  trace_reg_e, trace_reg_f, trace_reg_h, trace_reg_l, trace_reg_a, trace_mem_hl,
}
use agoge.Printf.{codes}
use agoge.Cpu.Reg.{reg_b, reg_c, reg_d, reg_e, reg_h, reg_l, reg_a}
use agoge.Cpu.Op.{
  Op, Operand, AluOp, ShiftOp, CbOp, reg, mem_hl, add_a, adc_a, sub_a, sbc_a, and_a, xor_a, or_a,
  cp_a, rlc, rrc, rl, rr, sla, sra, swap, srl, ld, alu, shift, bit, res, set,
}
use agoge.Cpu.Tables.Ops.{op_tbl_40, op_tbl_80}
use agoge.Cpu.Tables.Cbs.{cb_tbl}
use agoge.Disasm.Tables.Loads.{disasm_row_4, disasm_row_5, disasm_row_6, disasm_row_7}
use agoge.Disasm.Tables.Alus.{disasm_row_8, disasm_row_9, disasm_row_a, disasm_row_b}
use agoge.Disasm.Tables.{disasm_cb_tbl}

-- The fields of an entry, with the bytes of its format.
abbrev pub Fields : Type 0
Fields = Option (List ℕ) × DisasmOp × DisasmTrace × DisasmTrace × ℕ

abbrev fmt_codes : Option String → Option (List ℕ)
fmt_codes none = none
fmt_codes (some fmt) = some (codes fmt)

abbrev pub fields : DisasmEntry → Fields
fields entry = (fmt_codes entry.fmt, entry.op, entry.trace_0, entry.trace_1, entry.num_traces)

abbrev name : Operand → List ℕ
name (reg reg_b) = codes "B"
name (reg reg_c) = codes "C"
name (reg reg_d) = codes "D"
name (reg reg_e) = codes "E"
name (reg reg_h) = codes "H"
name (reg reg_l) = codes "L"
name (reg reg_a) = codes "A"
name mem_hl = codes "(HL)"

-- What is shown of an operand that an instruction changes.
abbrev trace_of : Operand → DisasmTrace
trace_of (reg reg_b) = trace_reg_b
trace_of (reg reg_c) = trace_reg_c
trace_of (reg reg_d) = trace_reg_d
trace_of (reg reg_e) = trace_reg_e
trace_of (reg reg_h) = trace_reg_h
trace_of (reg reg_l) = trace_reg_l
trace_of (reg reg_a) = trace_reg_a
trace_of mem_hl = trace_mem_hl

abbrev alu_name : AluOp → List ℕ
alu_name add_a = codes "ADD A, "
alu_name adc_a = codes "ADC A, "
alu_name sub_a = codes "SUB A, "
alu_name sbc_a = codes "SBC A, "
alu_name and_a = codes "AND A, "
alu_name xor_a = codes "XOR A, "
alu_name or_a = codes "OR A, "
alu_name cp_a = codes "CP A, "

abbrev shift_name : ShiftOp → List ℕ
shift_name rlc = codes "RLC "
shift_name rrc = codes "RRC "
shift_name rl = codes "RL "
shift_name rr = codes "RR "
shift_name sla = codes "SLA "
shift_name sra = codes "SRA "
shift_name swap = codes "SWAP "
shift_name srl = codes "SRL "

abbrev bit_name : String → ℕ → Operand → List ℕ
bit_name word y z = codes word ++ ((y + b'0') ∷ (codes ", " ++ name z))

-- An instruction without an operand behind its code, and up to two traces.
abbrev plain : List ℕ → List DisasmTrace → Fields
plain t [] = (some t, op_none, trace_none, trace_none, 0)
plain t (x ∷ []) = (some t, op_none, x, trace_none, 1)
plain t (x ∷ y ∷ _) = (some t, op_none, x, y, 2)

abbrev pub unset_fields : Fields
unset_fields = (none, op_none, trace_none, trace_none, 0)

-- How a load or an arithmetic instruction is to be shown: a load shows the register that it writes, the
-- arithmetic the accumulator and the flags.
abbrev pub op_fields : Option Op → Fields
op_fields (some (ld mem_hl y)) = plain (codes "LD (HL), " ++ name y) []
op_fields (some (ld (reg r) y)) =
    plain (codes "LD " ++ (name (reg r) ++ (codes ", " ++ name y))) (trace_of (reg r) ∷ [])
op_fields (some (alu op y)) = plain (alu_name op ++ name y) (trace_reg_a ∷ trace_reg_f ∷ [])
op_fields _ = unset_fields

abbrev pub cb_fields : CbOp → Fields
cb_fields (shift op z) = plain (shift_name op ++ name z) (trace_of z ∷ trace_reg_f ∷ [])
cb_fields (bit y z) = plain (bit_name "BIT " y z) (trace_reg_f ∷ [])
cb_fields (res y z) = plain (bit_name "RES " y z) (trace_of z ∷ [])
cb_fields (set y z) = plain (bit_name "SET " y z) (trace_of z ∷ [])

-- In the loads between operands, the arithmetic on the accumulator and the whole table behind the
-- prefix, the disassembler's entry for a code is the one for the instruction that the processor's table
-- holds there: its name, its operands, what it shows, and nothing where the processor has no handler.
pub disasm_tables :
    (map fields (disasm_row_4 ++ (disasm_row_5 ++ (disasm_row_6 ++ disasm_row_7)))
      ≡ map op_fields op_tbl_40)
    × (map fields (disasm_row_8 ++ (disasm_row_9 ++ (disasm_row_a ++ disasm_row_b)))
        ≡ map op_fields op_tbl_80)
    × (map fields disasm_cb_tbl ≡ map cb_fields cb_tbl)
unfolding disasm_row_4 disasm_row_5 disasm_row_6 disasm_row_7 disasm_row_8 disasm_row_9 disasm_row_a
    disasm_row_b disasm_cb_tbl op_tbl_40 op_tbl_80 cb_tbl
disasm_tables = (refl, refl, refl)
