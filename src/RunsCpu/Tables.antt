-- ===== src/RunsCpu/Tables.antt =====
-- What the two jump tables hold at each of the 256 indices.
use agoge.Prelude.{
  ℕ, ◌<◌, ◌≡◌, refl, Bool, true, false, not, ◌||◌, ◌==◌, List, [], ◌∷◌, Option, none, some,
  get_elem?, all_below, holds_below,
}
use agoge.Cpu.Op.{Op, CbOp}
use agoge.Cpu.Tables.Ops.{op_tbl}
use agoge.Cpu.Tables.Cbs.{cb_tbl}
use agoge.RunsCpu.Block.{bit_number_ok}

abbrev elem : ℕ → List ℕ → Bool
elem n [] = false
elem n (m ∷ ms) = (n == m) || elem n ms

-- STOP, HALT and the eleven codes that the processor does not have.
abbrev pub unhandled : ℕ → Bool
unhandled instr =
    elem instr (
      0x10 ∷ 0x76 ∷ 0xD3 ∷ 0xDB ∷ 0xDD ∷ 0xE3 ∷ 0xE4 ∷ 0xEB ∷ 0xEC ∷ 0xED ∷ 0xF4 ∷ 0xFC ∷ 0xFD ∷ [])

-- An entry is set, or is one of those that are not.
abbrev op_entry_ok : Option (Option Op) → Bool → Bool
op_entry_ok none hole = false
op_entry_ok (some none) hole = hole
op_entry_ok (some (some op)) hole = not hole

abbrev cb_entry_ok : Option CbOp → Bool
cb_entry_ok none = false
cb_entry_ok (some op) = bit_number_ok op

op_tbl_checked : all_below 256 (λ i. op_entry_ok (get_elem? op_tbl i) (unhandled i)) ≡ true
unfolding all_below op_tbl
op_tbl_checked = refl

cb_tbl_checked : all_below 256 (λ i. cb_entry_ok (get_elem? cb_tbl i)) ≡ true
unfolding all_below cb_tbl
cb_tbl_checked = refl

op_entry_hole : (o : Option (Option Op)) → op_entry_ok o true ≡ true → o ≡ some none
op_entry_hole none e = absurd (cc)
op_entry_hole (some none) e = refl
op_entry_hole (some (some op)) e = absurd (cc)

op_entry_set :
    (o : Option (Option Op)) → op_entry_ok o false ≡ true → (op : Op) × (o ≡ some (some op))
op_entry_set none e = absurd (cc)
op_entry_set (some none) e = absurd (cc)
op_entry_set (some (some op)) e = (op, refl)

cb_entry_set :
    (o : Option CbOp)
    → cb_entry_ok o ≡ true
    → (op : CbOp) × (o ≡ some op) × (bit_number_ok op ≡ true)
cb_entry_set none e = absurd (cc)
cb_entry_set (some op) e = (op, refl, e)

pub op_tbl_hole : (i : ℕ) → i < 256 → unhandled i ≡ true → get_elem? op_tbl i ≡ some none
op_tbl_hole i lt h = op_entry_hole _ (
    rw h at
      (holds_below (λ i. op_entry_ok (get_elem? op_tbl i) (unhandled i)) i 256 lt op_tbl_checked))

pub op_tbl_set :
    (i : ℕ) → i < 256 → unhandled i ≡ false → (op : Op) × (get_elem? op_tbl i ≡ some (some op))
op_tbl_set i lt h = op_entry_set _ (
    rw h at
      (holds_below (λ i. op_entry_ok (get_elem? op_tbl i) (unhandled i)) i 256 lt op_tbl_checked))

pub cb_tbl_set :
    (i : ℕ) → i < 256 → (op : CbOp) × (get_elem? cb_tbl i ≡ some op) × (bit_number_ok op ≡ true)
cb_tbl_set i lt =
    cb_entry_set _ (holds_below (λ i. cb_entry_ok (get_elem? cb_tbl i)) i 256 lt cb_tbl_checked)
