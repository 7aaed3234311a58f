-- ===== src/Cpu.antt =====
-- The processor: core/src/cpu.c and core/src/cpu-defs.h.
pub mod Reg
pub mod Alu
pub mod Flags
pub mod Arith
pub mod AddSub
pub mod Daa
pub mod Rotate
pub mod Stack
pub mod Flow
pub mod Op
pub mod Handlers
pub mod Tables
pub mod Run
pub mod Decode
pub mod Logic
pub mod SetRes
pub mod MemHl
pub mod Jump
pub mod AddSp
pub mod Delay
pub mod Nops
