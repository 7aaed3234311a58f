-- ===== src/Disasm.antt =====
-- The disassembler: core/src/disasm.c. Its tables are in Disasm/Tables, what it prints is in
-- Disasm/Buffer.
pub mod Tables
pub mod Buffer
pub mod Line
pub mod Entries
pub mod Instr
pub mod Single
pub mod Branch
pub mod Mnemonics
pub mod Flags
pub mod Traces
pub mod Trace
pub mod Before
pub mod After
pub mod Shows
use Prim.Native.String.{String}
use agoge.Prelude.{
  Bool, ℕ, zero, suc, ◌+◌, ◌-◌, ◌^◌, ◌<<<◌, ◌>>>◌, u16, u32, u64, s8, bit_and, bit_or, nonzero,
  ◌==◌, if◌then◌else◌, Option, none, some, List, [], ◌∷◌, get_elem?,
}
use agoge.Ctx.{
  Ctx, DisasmOp, op_none, op_u8, op_u16, op_s8, op_branch, DisasmTrace, trace_none, trace_reg_b,
  trace_reg_c, trace_reg_d, trace_reg_e, trace_reg_f, trace_reg_h, trace_reg_l, trace_reg_a,
  trace_reg_bc, trace_reg_de, trace_reg_hl, trace_reg_af, trace_reg_sp, trace_mem_hl, DisasmEntry,
  zero_disasm, disasm_res_len_max, lvl_trace, ch_disasm,
}
use agoge.Step.{
  Result, ok, fault, null_jump, out_of_bounds, M, pure, gets, lift_from, deref, try_then, load,
  ◌>>=◌, ◌>>◌,
}
use agoge.Printf.{Arg, num, text}
use agoge.Log.{log_enabled, log_message}
use agoge.Bus.{bus_peek, store, c_string}
use agoge.Cpu.Reg.{
  reg_b, reg_c, reg_d, reg_e, reg_h, reg_l, reg_a, reg_bc, reg_de, reg_hl, reg_sp, reg_pc, rd8,
  rd16, rd_f, rd_af, cpu_flag_zero,
}
use agoge.Disasm.Tables.{disasm_op_tbl, disasm_cb_tbl}
use agoge.Disasm.Buffer.{modify_disasm, modify_res, put_spaces, print_at, append_format, append_str}

-- `read_u8` and `read_u16`.
unfoldable pub operand_u8 : M ℕ
unfolding bus_peek
operand_u8 = do addr ← gets (λ s. s.disasm.res.addr); bus_peek (addr + 1)

unfoldable pub operand_u16 : M ℕ
unfolding bus_peek
operand_u16 = do
  addr ← gets (λ s. s.disasm.res.addr)
  lo ← bus_peek (addr + 1)
  hi ← bus_peek (addr + 2)
  pure (bit_or (hi <<< 8) lo)

abbrev pub trace_num_spaces : ℕ
trace_num_spaces = 35

-- `flags[ctr]`, for Z, N, H and C.
abbrev flag_char : ℕ → ℕ
flag_char ctr =
    if ctr == 0 then b'Z' else if ctr == 1 then b'N' else if ctr == 2 then b'H' else b'C'

-- `dst[i] = c`, for the 12 bytes of `dst`.
abbrev dst_store : (ℕ → ℕ) → ℕ → ℕ → Result (ℕ → ℕ)
dst_store dst i c = store 12 dst i c

-- The loop of `append_expanded_flag` from `ctr` on, for `n` flags. The text is what `dst` holds behind
-- it, with the last byte cleared.
unfoldable pub expand_flags : (ℕ → Bool) → ℕ → ℕ → ℕ → (ℕ → ℕ) → Result (List ℕ)
unfolding c_string
expand_flags is_set zero ctr pos dst =
    try_then (dst_store dst (pos - 1) 0) λ dst'. c_string 12 dst' 0
expand_flags is_set (suc n) ctr pos dst =
    let marked : Result (ℕ → ℕ) = if is_set ctr then ok dst else dst_store dst pos b'!' in
    let pos' : ℕ = if is_set ctr then pos else pos + 1 in
    try_then marked λ dst₁. try_then (dst_store dst₁ pos' (flag_char ctr)) λ dst₂.
      try_then (dst_store dst₂ (pos' + 1) b' ')
        λ dst₃. expand_flags is_set n (ctr + 1) (pos' + 2) dst₃

-- `f & (CPU_FLAG_ZERO >> ctr)`.
abbrev pub flag_is_set : ℕ → ℕ → Bool
flag_is_set f ctr = nonzero (bit_and f (cpu_flag_zero >>> ctr))

unfoldable pub append_expanded_flag : M (Unit {0})
unfolding expand_flags append_format rd_f
append_expanded_flag = do
  f ← rd_f
  dst ← lift_from (expand_flags (flag_is_set f) 4 0 0 (λ _. 0))
  append_format " (%s)" (text dst ∷ [])

-- `res.len = sprintf(res.str, entry->fmt, ...)`.
unfoldable pub print_instr : DisasmEntry → List Arg → M (Unit {0})
unfolding print_at
print_instr entry args = do
  fmt ← lift_from (deref entry.fmt)
  n ← print_at 0 fmt args
  modify_res (λ res. record res { len = n })

-- `%d` and `%04X` get an `int`; an operand that is added up is one too.
unfoldable pub format_instr : DisasmEntry → M (Unit {0})
unfolding operand_u8 operand_u16 print_instr
format_instr entry = elim entry.op [
  | op_none ↦ print_instr entry []
  | op_u8 ↦ do v ← operand_u8; print_instr entry (num v ∷ [])
  | op_u16 ↦ do v ← operand_u16; print_instr entry (num v ∷ [])
  | op_s8 ↦ do v ← operand_u8; print_instr entry (num (s8 v) ∷ [])
  | op_branch ↦ do
    v ← operand_u8
    addr ← gets (λ s. s.disasm.res.addr)
    print_instr entry (num (u32 (s8 v + addr + 2)) ∷ [])
]

unfoldable pub format_trace_area : M (Unit {0})
unfolding put_spaces append_str
format_trace_area = do
  len ← gets (λ s. s.disasm.res.len)
  put_spaces len (u64 (trace_num_spaces + 2 ^ 64 - len))
  modify_res (λ res. record res { len = u64 (len + u64 (trace_num_spaces + 2 ^ 64 - len)) })
  append_str " ; "

-- The table of labels has 14 entries, the first of them not set.
unfoldable pub append_trace : DisasmTrace → M (Unit {0})
unfolding append_format append_expanded_flag rd8 rd16 rd_f rd_af
append_trace trace_none = λ _. fault null_jump
append_trace trace_reg_b = do v ← rd8 reg_b; append_format "B=$%02X" (num v ∷ [])
append_trace trace_reg_c = do v ← rd8 reg_c; append_format "C=$%02X" (num v ∷ [])
append_trace trace_reg_d = do v ← rd8 reg_d; append_format "D=$%02X" (num v ∷ [])
append_trace trace_reg_e = do v ← rd8 reg_e; append_format "E=$%02X" (num v ∷ [])
append_trace trace_reg_f = do v ← rd_f; append_format "F=$%02X" (num v ∷ []); append_expanded_flag
append_trace trace_reg_h = do v ← rd8 reg_h; append_format "H=$%02X" (num v ∷ [])
append_trace trace_reg_l = do v ← rd8 reg_l; append_format "L=$%02X" (num v ∷ [])
append_trace trace_reg_a = do v ← rd8 reg_a; append_format "A=$%02X" (num v ∷ [])
append_trace trace_reg_bc = do v ← rd16 reg_bc; append_format "BC=$%04X" (num v ∷ [])
append_trace trace_reg_de = do v ← rd16 reg_de; append_format "DE=$%04X" (num v ∷ [])
append_trace trace_reg_hl = do v ← rd16 reg_hl; append_format "HL=$%04X" (num v ∷ [])
append_trace trace_reg_af = do v ← rd_af; append_format "AF=$%04X" (num v ∷ [])
append_trace trace_reg_sp = do v ← rd16 reg_sp; append_format "SP=$%04X" (num v ∷ [])
append_trace trace_mem_hl = λ _. fault out_of_bounds

-- `&tbl[instr]`.
abbrev pub entry_at : List DisasmEntry → ℕ → Result DisasmEntry
entry_at tbl instr = elim (get_elem? tbl instr) [
  | some entry ↦ ok entry
  | none ↦ fault out_of_bounds
]

unfoldable pub get_disasm_entry : ℕ → M DisasmEntry
unfolding bus_peek disasm_op_tbl disasm_cb_tbl
get_disasm_entry addr = do
  instr ← bus_peek addr
  if instr == 0xCB
      then (do instr' ← bus_peek (addr + 1); lift_from (entry_at disasm_cb_tbl instr'))
      else lift_from (entry_at disasm_op_tbl instr)

-- `agoge_core_disasm_single`.
unfoldable pub disasm_single : ℕ → M (Unit {0})
unfolding get_disasm_entry format_instr
disasm_single addr = do
  modify_disasm (λ _. zero_disasm)
  modify_res (λ res. record res { addr = u16 addr })
  entry ← get_disasm_entry (u16 addr)
  format_instr entry

-- `agoge_core_disasm_trace_before`.
unfoldable pub disasm_trace_before : M (Unit {0})
unfolding get_disasm_entry format_instr format_trace_area
disasm_trace_before = do
  pc ← rd16 reg_pc
  modify_disasm (λ _. zero_disasm)
  modify_res (λ res. record res { addr = pc })
  entry ← get_disasm_entry pc
  format_instr entry
  if entry.num_traces == 0
      then pure tt
      else (do modify_disasm (λ x. record x { curr_trace_entry = some entry }); format_trace_area)

-- `entry->traces[i]`.
abbrev pub trace_at : DisasmEntry → ℕ → Result DisasmTrace
trace_at entry i =
    if i == 0 then ok entry.trace_0 else if i == 1 then ok entry.trace_1 else fault out_of_bounds

-- The loop over the traces from `i` on, `n` of them.
unfoldable pub append_traces : ℕ → ℕ → DisasmEntry → M (Unit {0})
unfolding append_str append_trace
append_traces zero i entry = pure tt
append_traces (suc n) i entry = do
  append_str ", "
  type ← lift_from (trace_at entry i)
  append_trace type
  append_traces n (i + 1) entry

-- `LOG_TRACE(ctx, "$%04X: %s", res.addr, res.str)`.
unfoldable pub log_res : M (Unit {0})
unfolding log_message log_enabled c_string
log_res = do
  log ← gets (λ s. s.log)
  res ← gets (λ s. s.disasm.res)
  if log_enabled log lvl_trace ch_disasm
      then (do
        str ← lift_from (c_string (disasm_res_len_max + 1) res.chars 0)
        log_message lvl_trace ch_disasm "$%04X: %s" (num res.addr ∷ text str ∷ []))
      else pure tt

-- `agoge_core_disasm_trace_after`.
unfoldable pub disasm_trace_after : M (Unit {0})
unfolding append_trace append_traces log_res
disasm_trace_after = do
  curr ← gets (λ s. s.disasm.curr_trace_entry)
  elim curr [
    | none ↦ log_res
    | some entry ↦ do
      append_trace entry.trace_0
      append_traces (entry.num_traces - 1) 1 entry
      log_res
  ]
