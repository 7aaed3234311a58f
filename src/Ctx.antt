-- ===== src/Ctx.antt =====
-- The emulator's state: core/include/agoge/{ctx,bus,cart,cpu,log,disasm}.h.
-- A byte array is a function with a bound that every access tests; a pointer is an `Option`.
use Prim.Native.String.{String}
use agoge.Prelude.{ℕ, Bool, Option, none, List}

abbrev pub hram_size : ℕ
hram_size = 127

abbrev pub wram_size : ℕ
wram_size = 8192

abbrev pub serial_size : ℕ
serial_size = 128

abbrev pub cart_size_min : ℕ
cart_size_min = 32768

abbrev pub cart_size_max : ℕ
cart_size_max = 8388608

-- What a cartridge's `data` pointer points to: so many bytes may be read there.
pub record Rom : Type 0 where
  pub byte : ℕ → ℕ
  pub size : ℕ

-- The two functions that `banked_read_cb` can point to.
pub data BankedReadCb : Type 0 where
  mbc_banked_read_cb_none mbc_banked_read_cb_mbc1 : BankedReadCb

pub record Cart : Type 0 where
  pub rom : Option Rom
  pub banked_read_cb : Option BankedReadCb
  pub rom_bank : ℕ

pub record Serial : Type 0 where
  pub chars : ℕ → ℕ
  pub data_size : ℕ

pub record Bus : Type 0 where
  pub wram : ℕ → ℕ
  pub hram : ℕ → ℕ
  pub cart : Cart
  pub serial : Serial

pub data LogLvl : Type 0 where
  lvl_off lvl_info lvl_warn lvl_err lvl_dbg lvl_trace : LogLvl

pub data LogCh : Type 0 where
  ch_ctx ch_bus ch_cpu ch_cart ch_disasm : LogCh

-- The bytes of `msg` are those before its NUL.
pub record LogMsg : Type 0 where
  pub msg : List ℕ
  pub msg_len : ℕ
  pub ch : LogCh
  pub lvl : LogLvl

-- `cb` says whether a callback is set; `sent` holds the messages handed to it, the latest first.
pub record Log : Type 0 where
  pub cb : Bool
  pub curr_lvl : LogLvl
  pub ch_enabled : ℕ
  pub sent : List LogMsg

pub record Reg : Type 0 where
  pub b : ℕ
  pub c : ℕ
  pub d : ℕ
  pub e : ℕ
  pub h : ℕ
  pub l : ℕ
  pub a : ℕ
  pub f : ℕ
  pub pc : ℕ
  pub sp : ℕ

pub data DisasmOp : Type 0 where
  op_none op_u8 op_u16 op_s8 op_branch : DisasmOp

pub data DisasmTrace : Type 0 where
  trace_none trace_reg_b trace_reg_c trace_reg_d trace_reg_e trace_reg_f trace_reg_h : DisasmTrace
  trace_reg_l trace_reg_a trace_reg_bc trace_reg_de trace_reg_hl trace_reg_af trace_reg_sp :
      DisasmTrace
  trace_mem_hl : DisasmTrace

-- `trace_0` and `trace_1` are the array `traces`.
pub record DisasmEntry : Type 0 where
  pub fmt : Option String
  pub op : DisasmOp
  pub trace_0 : DisasmTrace
  pub trace_1 : DisasmTrace
  pub num_traces : ℕ

abbrev pub disasm_res_len_max : ℕ
disasm_res_len_max = 256

pub record DisasmRes : Type 0 where
  pub chars : ℕ → ℕ
  pub len : ℕ
  pub addr : ℕ

pub record Disasm : Type 0 where
  pub res : DisasmRes
  pub curr_trace_entry : Option DisasmEntry

-- All bytes zero.
abbrev pub zero_disasm : Disasm
zero_disasm = record { res = record { chars = λ _. 0; len = 0; addr = 0 }; curr_trace_entry = none }

pub record Ctx : Type 0 where
  pub bus : Bus
  pub log : Log
  pub reg : Reg
  pub disasm : Disasm
