-- ===== src/Cpu/Tables/Cbs.antt =====
-- The jump table `cb_tbl` of core/src/cpu.c, in four parts of 64 entries, each at the number that
-- core/src/cpu-defs.h gives its index.
use agoge.Prelude.{List, [], ◌∷◌, ◌++◌}
use agoge.Cpu.Reg.{reg_b, reg_c, reg_d, reg_e, reg_h, reg_l, reg_a}
use agoge.Cpu.Op.{CbOp, reg, mem_hl, rlc, rrc, rl, rr, sla, sra, swap, srl, shift, bit, res, set}

unfoldable pub cb_tbl_00 : List CbOp
cb_tbl_00 =
    shift rlc (reg reg_b)
    ∷ shift rlc (reg reg_c)
    ∷ shift rlc (reg reg_d)
    ∷ shift rlc (reg reg_e)
    ∷ shift rlc (reg reg_h)
    ∷ shift rlc (reg reg_l)
    ∷ shift rlc mem_hl
    ∷ shift rlc (reg reg_a)
    ∷ shift rrc (reg reg_b)
    ∷ shift rrc (reg reg_c)
    ∷ shift rrc (reg reg_d)
    ∷ shift rrc (reg reg_e)
    ∷ shift rrc (reg reg_h)
    ∷ shift rrc (reg reg_l)
    ∷ shift rrc mem_hl
    ∷ shift rrc (reg reg_a)
    ∷ shift rl (reg reg_b)
    ∷ shift rl (reg reg_c)
    ∷ shift rl (reg reg_d)
    ∷ shift rl (reg reg_e)
    ∷ shift rl (reg reg_h)
    ∷ shift rl (reg reg_l)
    ∷ shift rl mem_hl
    ∷ shift rl (reg reg_a)
    ∷ shift rr (reg reg_b)
    ∷ shift rr (reg reg_c)
    ∷ shift rr (reg reg_d)
    ∷ shift rr (reg reg_e)
    ∷ shift rr (reg reg_h)
    ∷ shift rr (reg reg_l)
    ∷ shift rr mem_hl
    ∷ shift rr (reg reg_a)
    ∷ shift sla (reg reg_b)
    ∷ shift sla (reg reg_c)
    ∷ shift sla (reg reg_d)
    ∷ shift sla (reg reg_e)
    ∷ shift sla (reg reg_h)
    ∷ shift sla (reg reg_l)
    ∷ shift sla mem_hl
    ∷ shift sla (reg reg_a)
    ∷ shift sra (reg reg_b)
    ∷ shift sra (reg reg_c)
    ∷ shift sra (reg reg_d)
    ∷ shift sra (reg reg_e)
    ∷ shift sra (reg reg_h)
    ∷ shift sra (reg reg_l)
    ∷ shift sra mem_hl
    ∷ shift sra (reg reg_a)
    ∷ shift swap (reg reg_b)
    ∷ shift swap (reg reg_c)
    ∷ shift swap (reg reg_d)
    ∷ shift swap (reg reg_e)
    ∷ shift swap (reg reg_h)
    ∷ shift swap (reg reg_l)
    ∷ shift swap mem_hl
    ∷ shift swap (reg reg_a)
    ∷ shift srl (reg reg_b)
    ∷ shift srl (reg reg_c)
    ∷ shift srl (reg reg_d)
    ∷ shift srl (reg reg_e)
    ∷ shift srl (reg reg_h)
    ∷ shift srl (reg reg_l)
    ∷ shift srl mem_hl
    ∷ shift srl (reg reg_a)
    ∷ []

unfoldable pub cb_tbl_40 : List CbOp
cb_tbl_40 =
    bit 0 (reg reg_b)
    ∷ bit 0 (reg reg_c)
    ∷ bit 0 (reg reg_d)
    ∷ bit 0 (reg reg_e)
    ∷ bit 0 (reg reg_h)
    ∷ bit 0 (reg reg_l)
    ∷ bit 0 mem_hl
    ∷ bit 0 (reg reg_a)
    ∷ bit 1 (reg reg_b)
    ∷ bit 1 (reg reg_c)
    ∷ bit 1 (reg reg_d)
    ∷ bit 1 (reg reg_e)
    ∷ bit 1 (reg reg_h)
    ∷ bit 1 (reg reg_l)
    ∷ bit 1 mem_hl
    ∷ bit 1 (reg reg_a)
    ∷ bit 2 (reg reg_b)
    ∷ bit 2 (reg reg_c)
    ∷ bit 2 (reg reg_d)
    ∷ bit 2 (reg reg_e)
    ∷ bit 2 (reg reg_h)
    ∷ bit 2 (reg reg_l)
    ∷ bit 2 mem_hl
    ∷ bit 2 (reg reg_a)
    ∷ bit 3 (reg reg_b)
    ∷ bit 3 (reg reg_c)
    ∷ bit 3 (reg reg_d)
    ∷ bit 3 (reg reg_e)
    ∷ bit 3 (reg reg_h)
    ∷ bit 3 (reg reg_l)
    ∷ bit 3 mem_hl
    ∷ bit 3 (reg reg_a)
    ∷ bit 4 (reg reg_b)
    ∷ bit 4 (reg reg_c)
    ∷ bit 4 (reg reg_d)
    ∷ bit 4 (reg reg_e)
    ∷ bit 4 (reg reg_h)
    ∷ bit 4 (reg reg_l)
    ∷ bit 4 mem_hl
    ∷ bit 4 (reg reg_a)
    ∷ bit 5 (reg reg_b)
    ∷ bit 5 (reg reg_c)
    ∷ bit 5 (reg reg_d)
    ∷ bit 5 (reg reg_e)
    ∷ bit 5 (reg reg_h)
    ∷ bit 5 (reg reg_l)
    ∷ bit 5 mem_hl
    ∷ bit 5 (reg reg_a)
    ∷ bit 6 (reg reg_b)
    ∷ bit 6 (reg reg_c)
    ∷ bit 6 (reg reg_d)
    ∷ bit 6 (reg reg_e)
    ∷ bit 6 (reg reg_h)
    ∷ bit 6 (reg reg_l)
    ∷ bit 6 mem_hl
    ∷ bit 6 (reg reg_a)
    ∷ bit 7 (reg reg_b)
    ∷ bit 7 (reg reg_c)
    ∷ bit 7 (reg reg_d)
    ∷ bit 7 (reg reg_e)
    ∷ bit 7 (reg reg_h)
    ∷ bit 7 (reg reg_l)
    ∷ bit 7 mem_hl
    ∷ bit 7 (reg reg_a)
    ∷ []

unfoldable pub cb_tbl_80 : List CbOp
cb_tbl_80 =
    res 0 (reg reg_b)
    ∷ res 0 (reg reg_c)
    ∷ res 0 (reg reg_d)
    ∷ res 0 (reg reg_e)
    ∷ res 0 (reg reg_h)
    ∷ res 0 (reg reg_l)
    ∷ res 0 mem_hl
    ∷ res 0 (reg reg_a)
    ∷ res 1 (reg reg_b)
    ∷ res 1 (reg reg_c)
    ∷ res 1 (reg reg_d)
    ∷ res 1 (reg reg_e)
    ∷ res 1 (reg reg_h)
    ∷ res 1 (reg reg_l)
    ∷ res 1 mem_hl
    ∷ res 1 (reg reg_a)
    ∷ res 2 (reg reg_b)
    ∷ res 2 (reg reg_c)
    ∷ res 2 (reg reg_d)
    ∷ res 2 (reg reg_e)
    ∷ res 2 (reg reg_h)
    ∷ res 2 (reg reg_l)
    ∷ res 2 mem_hl
    ∷ res 2 (reg reg_a)
    ∷ res 3 (reg reg_b)
    ∷ res 3 (reg reg_c)
    ∷ res 3 (reg reg_d)
    ∷ res 3 (reg reg_e)
    ∷ res 3 (reg reg_h)
    ∷ res 3 (reg reg_l)
    ∷ res 3 mem_hl
    ∷ res 3 (reg reg_a)
    ∷ res 4 (reg reg_b)
    ∷ res 4 (reg reg_c)
    ∷ res 4 (reg reg_d)
    ∷ res 4 (reg reg_e)
    ∷ res 4 (reg reg_h)
    ∷ res 4 (reg reg_l)
    ∷ res 4 mem_hl
    ∷ res 4 (reg reg_a)
    ∷ res 5 (reg reg_b)
    ∷ res 5 (reg reg_c)
    ∷ res 5 (reg reg_d)
    ∷ res 5 (reg reg_e)
    ∷ res 5 (reg reg_h)
    ∷ res 5 (reg reg_l)
    ∷ res 5 mem_hl
    ∷ res 5 (reg reg_a)
    ∷ res 6 (reg reg_b)
    ∷ res 6 (reg reg_c)
    ∷ res 6 (reg reg_d)
    ∷ res 6 (reg reg_e)
    ∷ res 6 (reg reg_h)
    ∷ res 6 (reg reg_l)
    ∷ res 6 mem_hl
    ∷ res 6 (reg reg_a)
    ∷ res 7 (reg reg_b)
    ∷ res 7 (reg reg_c)
    ∷ res 7 (reg reg_d)
    ∷ res 7 (reg reg_e)
    ∷ res 7 (reg reg_h)
    ∷ res 7 (reg reg_l)
    ∷ res 7 mem_hl
    ∷ res 7 (reg reg_a)
    ∷ []

unfoldable pub cb_tbl_c0 : List CbOp
cb_tbl_c0 =
    set 0 (reg reg_b)
    ∷ set 0 (reg reg_c)
    ∷ set 0 (reg reg_d)
    ∷ set 0 (reg reg_e)
    ∷ set 0 (reg reg_h)
    ∷ set 0 (reg reg_l)
    ∷ set 0 mem_hl
    ∷ set 0 (reg reg_a)
    ∷ set 1 (reg reg_b)
    ∷ set 1 (reg reg_c)
    ∷ set 1 (reg reg_d)
    ∷ set 1 (reg reg_e)
    ∷ set 1 (reg reg_h)
    ∷ set 1 (reg reg_l)
    ∷ set 1 mem_hl
    ∷ set 1 (reg reg_a)
    ∷ set 2 (reg reg_b)
    ∷ set 2 (reg reg_c)
    ∷ set 2 (reg reg_d)
    ∷ set 2 (reg reg_e)
    ∷ set 2 (reg reg_h)
    ∷ set 2 (reg reg_l)
    ∷ set 2 mem_hl
    ∷ set 2 (reg reg_a)
    ∷ set 3 (reg reg_b)
    ∷ set 3 (reg reg_c)
    ∷ set 3 (reg reg_d)
    ∷ set 3 (reg reg_e)
    ∷ set 3 (reg reg_h)
    ∷ set 3 (reg reg_l)
    ∷ set 3 mem_hl
    ∷ set 3 (reg reg_a)
    ∷ set 4 (reg reg_b)
    ∷ set 4 (reg reg_c)
    ∷ set 4 (reg reg_d)
    ∷ set 4 (reg reg_e)
    ∷ set 4 (reg reg_h)
    ∷ set 4 (reg reg_l)
    ∷ set 4 mem_hl
    ∷ set 4 (reg reg_a)
    ∷ set 5 (reg reg_b)
    ∷ set 5 (reg reg_c)
    ∷ set 5 (reg reg_d)
    ∷ set 5 (reg reg_e)
    ∷ set 5 (reg reg_h)
    ∷ set 5 (reg reg_l)
    ∷ set 5 mem_hl
    ∷ set 5 (reg reg_a)
    ∷ set 6 (reg reg_b)
    ∷ set 6 (reg reg_c)
    ∷ set 6 (reg reg_d)
    ∷ set 6 (reg reg_e)
    ∷ set 6 (reg reg_h)
    ∷ set 6 (reg reg_l)
    ∷ set 6 mem_hl
    ∷ set 6 (reg reg_a)
    ∷ set 7 (reg reg_b)
    ∷ set 7 (reg reg_c)
    ∷ set 7 (reg reg_d)
    ∷ set 7 (reg reg_e)
    ∷ set 7 (reg reg_h)
    ∷ set 7 (reg reg_l)
    ∷ set 7 mem_hl
    ∷ set 7 (reg reg_a)
    ∷ []

unfoldable pub cb_tbl : List CbOp
unfolding cb_tbl_00 cb_tbl_40 cb_tbl_80 cb_tbl_c0
cb_tbl = cb_tbl_00 ++ (cb_tbl_40 ++ (cb_tbl_80 ++ cb_tbl_c0))
